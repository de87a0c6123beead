-- ===== src/Domain.antt =====
-- app/mana_operation_ai/domain: the enumerations and the lifecycle tables.
pub mod Enums
pub mod StateMachine
mod Examples
