-- ===== src/RateBudget.antt =====
-- Which GitHub token a request uses: qb_site/syncer/services/rate_budget.py.
pub mod Choose
pub mod Budgets
pub mod Sorted
pub mod Best
pub mod Preference
pub mod Chosen
pub mod Tests
