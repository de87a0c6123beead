-- ===== src/Auth.antt =====
-- Telegram one-time codes and administrative sessions.
pub mod Model
pub mod Store
pub mod Service
pub mod Cases
pub mod Transactions
pub mod Sound
pub mod Admins
pub mod Codes
pub mod Access
pub mod Login
mod Examples
