-- ===== src/Lifecycle.antt =====
-- The lifecycle of an action that an agent proposes: approval, execution and verification.
pub mod Model
pub mod Store
pub mod Service
pub mod Execute
pub mod Approve
pub mod Locks
pub mod Requests
mod Examples
