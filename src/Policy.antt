-- ===== src/Policy.antt =====
-- application/policy.py and application/action_policies.py of app/mana_operation_ai: what decides
-- whether a recommended action is denied, needs an approval, or may run at once.
pub mod Model
pub mod Budget
pub mod Activity
pub mod Advertising
pub mod Growth
pub mod Registry
mod Examples
