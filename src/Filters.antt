-- ===== src/Filters.antt =====
-- Filters of a spatial question: their validation against the database (services/helpers,
-- services/nodes/validate_filters.py).
pub mod Model
pub mod Queries
pub mod Candidates
pub mod Validation
pub mod Node
pub mod Tests
