-- ===== src/Chatbot.antt =====
-- The knowledge chatbot (services/chatbot).
pub mod Models
pub mod Text
pub mod FaqCache
pub mod SqlFaqCache
pub mod ScenarioRun
pub mod Answer
pub mod Intents
pub mod Retrieval
pub mod Service
pub mod Recipe
