-- ===== src/Revisions.antt =====
-- The head revisions of a PR: qb_site/analyzer/services/revisions.py. A datetime is its
-- microseconds since 1970 in UTC. The proofs are in the modules below.
pub mod Windows
pub mod Normal
pub mod Heads
pub mod Meeting
pub mod Segments
pub mod Shown
pub mod Pushed
pub mod Contiguous
pub mod Current
pub mod Dirty
pub mod Tests
