-- ===== src/Github.antt =====
-- src/github: the synchronisation with GitHub.
pub mod ContentPolicy
pub mod LinkPagination
pub mod Retention
pub mod Scheduling
