-- ===== src/CiEvaluation.antt =====
-- The CI status of a PR: qb_site/analyzer/services/ci_evaluation.py. The rows of a repository's
-- tables are lists. The proofs are in the modules below.
pub mod Rows
pub mod Newest
pub mod Verdict
pub mod Required
pub mod Batch
pub mod Entries
pub mod Groups
pub mod Agree
pub mod Tests
