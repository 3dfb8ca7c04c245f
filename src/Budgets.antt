-- ===== src/Budgets.antt =====
-- The budgets that an admin allots to an account, by week, by month and in total, next to what the
-- account spent: app/services/ops/weekly_budget_service.py and account_budget_service.py.
pub mod Store
pub mod Weekly
pub mod Account
