-- ===== src/Scenario.antt =====
-- The scenario engine: scores, verdicts, comparison and interventions (services/scenario).
pub mod Scoring
pub mod Params
pub mod Positions
pub mod Area
pub mod Workflow
pub mod Uncertainty
pub mod Store
pub mod Feasibility
pub mod Interventions
pub mod Compare
pub mod Tests
