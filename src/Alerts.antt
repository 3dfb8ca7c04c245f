-- ===== src/Alerts.antt =====
-- The operational alerts: app/models/alert.py, app/repositories/alert.py and
-- app/services/ops/alerts_service.py.
pub mod Store
pub mod Analysis
pub mod Rules
pub mod Refinement
pub mod Engine
