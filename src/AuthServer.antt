-- ===== src/AuthServer.antt =====
-- The OAuth 2.1 authorization server, auth/auth/auth_server, with the helpers of
-- auth/auth/oauth_utils.py.
pub mod Secrets
pub mod Clients
pub mod Tokens
pub mod TokenExchange
pub mod Codes
pub mod Refresh
pub mod Prune
pub mod Cognito
pub mod Upstream
pub mod Endpoints
