-- ===== src/Auth.antt =====
-- The OAuth server, the API keys and the middleware: auth/auth.go, over the tables of
-- store/oauth.go, store/apikey.go and store/user.go.
pub mod Tables
pub mod Endpoints
pub mod Codes
pub mod Access
pub mod Grants
pub mod Lifecycle
pub mod Tests
