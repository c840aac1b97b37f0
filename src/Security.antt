-- ===== src/Security.antt =====
-- src/security: signed page tokens and their encoding.
pub mod Crypto
pub mod PageToken
