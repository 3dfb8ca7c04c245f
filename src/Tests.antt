-- ===== src/Tests.antt =====
-- Concrete inputs: each theorem with hypotheses at an input that meets them, and small runs.
mod Fixed
mod Cache
mod Ops
mod Sync
mod Steps
mod Alerts
mod Auth
mod Approval
mod Tokens
mod Budgets
mod AdCopy
