-- ===== src/Approval.antt =====
-- The approval of ad strategies: app/services/ai/approval_service.py.
pub mod Strategy
pub mod Workflow
pub mod Edits
pub mod Operations
pub mod Actions
pub mod Audit
pub mod Laws
pub mod Errors
pub mod Roundtrip
pub mod Effective
