-- ===== src/Ops.antt =====
-- app/services/ops: the Command Center's scoring and alerting.
pub mod Rules
pub mod Scoring
pub mod Health
pub mod Keyword
pub mod Budget
pub mod Priority
