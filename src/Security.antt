-- ===== src/Security.antt =====
-- backend/src/recruit_api/security: the envelope of the stored credentials and the access tokens.
pub mod Crypto
pub mod Jwt
pub mod Samples
