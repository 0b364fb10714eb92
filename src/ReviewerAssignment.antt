-- ===== src/ReviewerAssignment.antt =====
-- Which reviewer a PR is given: qb_site/analyzer/services/reviewer_assignment_engine.py, with the topic
-- labels of qb_site/core/services/topic_labels.py.
pub mod Profiles
pub mod Candidates
pub mod Eligible
pub mod Ranking
pub mod Simulation
pub mod Rounds
pub mod Accounts
pub mod Limits
pub mod Tests
pub mod Trace
pub mod Explained
pub mod SameChoice
