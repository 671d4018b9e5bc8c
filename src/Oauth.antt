-- ===== src/Oauth.antt =====
-- source/features/oauth/oauth.c, part by part: the texts of its pages, the pending codes, the token
-- store, and the endpoints.
pub mod Text
pub mod Codes
pub mod Tokens
pub mod Flow
