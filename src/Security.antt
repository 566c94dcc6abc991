-- ===== src/Security.antt =====
-- The packages security and security/v2: the claims of tokens, and their JSON forms.
pub mod Json
pub mod Claims
pub mod Tokens
pub mod Tests
