-- ===== src/QueueWindows.antt =====
-- When a PR was on the review queue: qb_site/analyzer/services/queue_windows.py. A datetime is its
-- microseconds since 1970 in UTC, and the rows of the database are lists. The proofs are in the
-- modules below.
pub mod Timeline
pub mod Attribution
pub mod Builder
pub mod Turn
pub mod Membership
pub mod AtTime
pub mod Order
pub mod Boundary
pub mod CiState
pub mod AtInstant
pub mod NewestAt
pub mod Rows
pub mod Statuses
pub mod Sweep
pub mod Recomputed
pub mod Swept
pub mod Gated
pub mod GatedOrder
pub mod Rebuild
pub mod Written
pub mod Rebuilt
pub mod Summary
pub mod Summarised
pub mod Tests
pub mod TestsGated
