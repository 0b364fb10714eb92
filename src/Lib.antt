-- ===== src/Lib.antt =====
-- Verification of queueboard-core: what decides whether a pull request is on the review queue, when it
-- was there, what its CI says, which commit was its head, when its CI is
-- fetched, and who may run which command of the bot.
--
-- The program and its parts. The syncer copies pull requests, timeline events and CI rows from
-- GitHub into a database. The analyzer reads them: queue rules say which state of a PR is on the
-- queue, queue windows replay the timeline under such rules, and CI evaluation answers for the
-- required contexts of a rule row. The Zulip bot runs the commands that its policy allows. The
-- older file-based pipeline classifies a PR by its labels and replays its status over time.
--
-- The files.
--   Prelude: shared names. Prelude/Tests (Boolean tests), Prelude/Lists, Prelude/Equality (equality
--     as an instance, membership, sets as lists), Prelude/Text (code points, strip, lower, upper,
--     substring), Prelude/Int (integers over the native numbers), Prelude/Sorting (stable sort),
--     Prelude/Dict (a dict as an association list).
--   Classify: src/queueboard/classify_pr_state.py and src/queueboard/ci_status.py. Kinds has the enums
--     and their names, Status has determine_PR_status and what it calls; Priority, Determine and
--     Gating have the proofs.
--   StateEvolution: src/queueboard/state_evolution.py. Events has update_state, determine_state_changes,
--     parse_data and _process_data; Totals has the functions on the status over time; Replay,
--     Processed, Partition, Answers and Drafts have the proofs.
--   QueueRules: qb_site/analyzer/services/queue_rules.py and qb_site/analyzer/models/queue_rule.py. Rules
--     has QueueRules, is_on_queue and rules_for_rule_set; Select has the choice of a row; Eligible
--     and Latest have the proofs.
--   QueueWindows: qb_site/analyzer/services/queue_windows.py. Timeline has _state_at_time, Attribution
--     has the cause of a boundary, Builder has _queue_windows_with_rules for rules without CI; for
--     rules that gate on CI, Rows has the rows that it reads and the boundary times, Statuses the
--     newest CI states, Sweep the loop; CiState has _ci_required_contexts_state and is_on_queue_at.
--     Rebuild has the rows that are written under a rule set, Summary the entry points and the
--     rebuild under all rule sets. Turn, Membership, AtTime, Order, Boundary and AtInstant have the
--     proofs of what has no CI gate, NewestAt those of the CI state at a time, Recomputed, Swept,
--     Gated and GatedOrder those of the sweep, Written, Rebuilt and Summarised those of the rows.
--   CiEvaluation: qb_site/analyzer/services/ci_evaluation.py. Rows has the status of a row and of a
--     context, Required has the required contexts and ci_status_for_pr, Batch has
--     batch_ci_statuses_for_repo; Newest, Verdict, Entries, Groups and Agree have the proofs.
--   Revisions: qb_site/analyzer/services/revisions.py. Windows has the normalisation and the check of
--     stored windows, Heads the builders and the window of the current head, Dirty the mark for a
--     rebuild; Normal, Meeting, Shown, Segments, Pushed, Contiguous and Current have the proofs.
--   CiBackoff: qb_site/syncer/services/ci_backoff.py. Decide has the decision to fetch, Store the
--     recorded states and the partition of SHAs; Recorded and Partition have the proofs.
--   ZulipPolicy: qb_site/zulip_bot/webhook/policy.py and qb_site/zulip_bot/webhook/membership.py, with
--     the command names and the context of qb_site/zulip_bot/commands/__init__.py. Membership has
--     GroupMembershipChecker, Settings the reading of the policy, Policy the test of a command and
--     allowed_command_names; Cached, Allowed and Ids have the proofs.
--   Dependencies: src/queueboard/util.py and qb_site/analyzer/services/dependencies.py. Graph has
--     transitive_dependency_counts; Search and Reachable have the search from a PR, Edges the two edge
--     sets, Counted and Counts the counts. Description has parse_dependency_numbers, Rows
--     rebuild_pr_dependencies, Replaced and Repeated the proofs about it.
--   ReviewerAssignment: qb_site/analyzer/services/reviewer_assignment_engine.py, with the topic labels of
--     qb_site/core/services/topic_labels.py. Profiles has what is read of reviewers, PRs and loads,
--     Candidates _reviewer_candidate_state and suggest_reviewer_for_pr, Trace
--     suggest_reviewer_for_pr_with_trace, Ranking rank_prs_for_assignment and the default priority,
--     Simulation run_assignment_simulation; Eligible, Rounds, Accounts, Limits, Explained and SameChoice
--     have the proofs.
--   RateBudget: qb_site/syncer/services/rate_budget.py. Choose has choose_token; Budgets, Sorted,
--     Best, Preference and Chosen have the proofs.
--   The module Tests of each part, and TestsGated of QueueWindows, run the code on concrete inputs.
--
-- The model. A datetime is a natural number of microseconds since 1970 in UTC, a timedelta an
-- integer number of microseconds. A table of the database is a list of rows, and a query filters
-- and sorts it as the code says. Python text is a list of code points; strip, lower and upper are
-- those of ASCII, so names with other letters compare by code point. An exception is `none`. A
-- Python set is a list of which membership is read; a dict is an association list. A loop over a
-- list is a recursion on it. Fuel is used three times: for the digits of a number it is above the
-- number, and more of it gives the same digits; for the search of a dependency graph it is the
-- number of PRs, and for the simulation of assignments the number of PRs to assign, and there it
-- is proved enough. A float is a type with the operations that the code calls, of which no law is
-- used but one, a hypothesis of the theorem on the trace: that the remaining capacity is at most 0 when it is not above
-- it; the random choices, the hash of a token and the snapshots in Redis are functions. The Zulip
-- server is a record of what it responds. A sort by a date that may be NULL is that of PostgreSQL,
-- where NULL comes last. Each function runs alone: what another process writes meanwhile is left
-- out.
--
-- Not modelled: input and output (database access, HTTP, Celery, views), what is printed, the
-- human-readable durations, the writing of revision rows, the loading of the inputs of an
-- assignment run, the graph of the dependency rows, the choice of what a snapshot of the queue
-- shows.
pub mod Prelude
pub mod Classify
pub mod StateEvolution
pub mod QueueRules
pub mod QueueWindows
pub mod CiEvaluation
pub mod Revisions
pub mod CiBackoff
pub mod ZulipPolicy
pub mod Dependencies
pub mod ReviewerAssignment
pub mod RateBudget
