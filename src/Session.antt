-- ===== src/Session.antt =====
-- Calls: session.go and call.go.
pub mod Phase
pub mod Registry
pub mod Pipeline
