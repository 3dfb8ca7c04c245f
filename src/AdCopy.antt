-- ===== src/AdCopy.antt =====
-- The checks of generated ad copy: app/services/ai/rsa_validator.py.
pub mod Validator
