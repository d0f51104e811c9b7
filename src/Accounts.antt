-- ===== src/Accounts.antt =====
-- app/auth/service.py: registration, login, and the sessions that a cookie proves. Each method is
-- one transaction. The clock and the fresh identifiers, secrets and salts are arguments.
pub mod Schema
pub mod Tables
pub mod Service
pub mod Login
mod Cookies
mod Revoked
mod Ended
mod Password
mod Limit
mod Tests
mod Again
