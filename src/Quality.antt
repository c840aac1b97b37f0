-- ===== src/Quality.antt =====
-- src/quality: the analysis of sources by a model.
pub mod ScopeOptions
pub mod SensitiveContent
