-- ===== src/Auth.antt =====
-- Sign-in, the users and the guards of the API: app/services/auth/users.py and app/api/deps.py.
pub mod Users
pub mod Guards
pub mod Tokens
