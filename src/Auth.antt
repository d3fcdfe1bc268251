-- ===== src/Auth.antt =====
-- app/auth: accounts, sessions and the limits on attempts.
pub mod RateLimit
pub mod Sessions
pub mod Accounts
pub mod Profiles
pub mod Reset
