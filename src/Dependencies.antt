-- ===== src/Dependencies.antt =====
-- How many PRs a PR needs, and how many need it: src/queueboard/util.py. The rows of the dependencies
-- that a PR's description names: qb_site/analyzer/services/dependencies.py.
pub mod Graph
pub mod Search
pub mod Reachable
pub mod Edges
pub mod Counted
pub mod Counts
pub mod Description
pub mod Rows
pub mod Replaced
pub mod Repeated
pub mod Tests
