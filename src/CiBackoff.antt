-- ===== src/CiBackoff.antt =====
-- When the CI of a commit is fetched again: qb_site/syncer/services/ci_backoff.py. A datetime is its
-- microseconds since 1970 in UTC. The proofs are in the modules below.
pub mod Decide
pub mod Store
pub mod Recorded
pub mod Partition
pub mod Tests
