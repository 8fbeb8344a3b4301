-- ===== src/IamOauth.antt =====
-- The code under apps/iam_oauth/: the OAuth2 authorization server.
pub mod Model
pub mod Codes
pub mod Refresh
pub mod Grants
