-- ===== src/Workflows.antt =====
-- src/workflows: durable workflows.
pub mod Recovery
