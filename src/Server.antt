-- ===== src/Server.antt =====
-- core/src/server: authentication, its limiter, tokens and the visibility policy.
pub mod Limiter
pub mod Users
pub mod Authn
pub mod Tokens
pub mod Access
pub mod Handlers
