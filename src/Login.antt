-- ===== src/Login.antt =====
-- The login of the web interface and its second factor: web/auth.go, web/twofa.go.
pub mod Twofa
pub mod Handlers
pub mod Safety
pub mod Phases
mod Tests
