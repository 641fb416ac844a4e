-- ===== src/Access.antt =====
-- Who may do what, and the trail of it (auth.py, routers/sessions.py, services/audit.py).
pub mod Auth
pub mod Sessions
pub mod Audit
pub mod Tests
