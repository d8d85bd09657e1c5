-- ===== src/Auth.antt =====
-- src/auth.py and src/routers/auth_tokens.py: who a request acts for, and with which scopes.
pub mod Scopes
pub mod Tokens
pub mod Listing
pub mod Bearer
pub mod Oidc
pub mod Escalation
pub mod Revoked
