-- ===== src/Classify.antt =====
-- The triage classification of a pull request: src/queueboard/classify_pr_state.py and
-- src/queueboard/ci_status.py. A datetime is its microseconds since 1970 in UTC; a `KeyError` is
-- `none`. The proofs are in the modules below.
pub mod Kinds
pub mod Status
pub mod Priority
pub mod Determine
pub mod Gating
pub mod Tests
