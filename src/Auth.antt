-- ===== src/Auth.antt =====
-- `AuthService` (src/auth/auth.service.ts): accounts, tokens and sessions.
pub mod Tokens
pub mod Sessions
pub mod Accounts
pub mod Google
pub mod Rotation
pub mod OneTime
pub mod Login
pub mod Controller
pub mod Cookies
pub mod Tests
pub mod Identity
