-- ===== src/QueueRules.antt =====
-- The rules that put a PR on the review queue: qb_site/analyzer/services/queue_rules.py and
-- qb_site/analyzer/models/queue_rule.py. A set of labels is a list of which only membership is
-- read; the rows of the database are a list. The proofs are in the modules below.
pub mod Rules
pub mod Select
pub mod Eligible
pub mod Latest
pub mod Tests
