-- ===== src/Contracts.antt =====
-- The shared contracts (src/contracts): taxonomy, scope identifiers and validity.
pub mod Taxonomy
pub mod Scope
pub mod Validity
