-- ===== src/Assistant.antt =====
-- app/mana_ai/application/policy.py: which of the actions that a model proposes for a family are
-- kept, and what each then needs. The unions of the response types are those of domain/responses.py.
pub mod Model
pub mod Targets
pub mod Policy
pub mod Accepted
mod Examples
