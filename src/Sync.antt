-- ===== src/Sync.antt =====
-- app/services/sync_service.py and the repositories below it: the sync engine.
pub mod Log
pub mod Engine
pub mod Window
pub mod Dimension
pub mod Steps
pub mod Service
