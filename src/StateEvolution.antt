-- ===== src/StateEvolution.antt =====
-- How a PR's state changes over time: src/queueboard/state_evolution.py. A datetime is its
-- microseconds since 1970 in UTC, a timedelta an integer number of microseconds; an exception is
-- `none`. What the functions print is left out. The proofs are in the modules below.
pub mod Events
pub mod Totals
pub mod Replay
pub mod Processed
pub mod Partition
pub mod Answers
pub mod Drafts
pub mod Tests
