-- ===== src/Identity.antt =====
-- The accounts: apps/api/src/modules/auth, its lockout, one-time tokens, login and password reset.
pub mod Lockout
pub mod Passwords
pub mod Rows
pub mod Store
pub mod Tokens
pub mod Login
pub mod Recovery
mod Tests
