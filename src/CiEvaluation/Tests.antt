-- ===== src/CiEvaluation/Tests.antt =====
-- CI rows of one head.
use queueboard_core.Prelude.{
  true, false, ℕ, ◌≡◌, Option, none, some, List, [], ◌∷◌, ◌++◌, any, is_empty, if◌then◌else◌,
}
use queueboard_core.Prelude.Text.{Text, codes}
use queueboard_core.QueueWindows.Attribution.{CiState, CheckRun, StatusContext, is_fail}
use queueboard_core.CiEvaluation.Rows.{context_aggregate_status, is_running}
use queueboard_core.CiEvaluation.Newest.{seen_check_runs, seen_status_contexts, newest_is}
use queueboard_core.CiEvaluation.Verdict.{context_aggregate_status-newest}
use mathlib.Core.List.{Memᴰ}
use queueboard_core.Prelude.{refl, sym, ap, ◌∙◌}
use queueboard_core.QueueRules.Rules.{QueueRules, default_rules}
use queueboard_core.QueueWindows.Timeline.{PullRequest}
use queueboard_core.CiEvaluation.Batch.{status_for, batch_ci_statuses_for_repo}
use queueboard_core.CiEvaluation.Agree.{OneHead, batch_ci_statuses_for_repo-single}
use queueboard_core.CiEvaluation.Required.{
  ci_status_for_pr, evaluate_required_contexts, evaluate_required_contexts-precedence, some_context,
  is_missing,
}

abbrev build_run : ℕ → Option Text → CheckRun
build_run t conclusion = record {
  name = codes "Build";
  head_sha = codes "abc";
  status = codes "COMPLETED";
  conclusion = conclusion;
  gh_completed_at = some t;
  gh_started_at = none;
}

abbrev runs : List CheckRun
runs = build_run 3 (some (codes "FAILURE")) ∷ build_run 5 (some (codes "SUCCESS")) ∷ []

abbrev lint : StatusContext
lint = record {
  name = codes "lint";
  head_sha = codes "abc";
  state = codes "PENDING";
  gh_created_at = 4;
}

context_aggregate_status-newest_example : context_aggregate_status runs (lint ∷ []) ≡ (
    if is_empty (seen_check_runs runs ++ seen_status_contexts (lint ∷ []))
    then CiState.missing
    else if any
        (λ r. newest_is is_fail r.key (seen_check_runs runs ++ seen_status_contexts (lint ∷ [])))
        (seen_check_runs runs ++ seen_status_contexts (lint ∷ []))
    then CiState.fail
    else if any
        (λ r. newest_is is_running r.key (seen_check_runs runs ++ seen_status_contexts (lint ∷ [])))
        (seen_check_runs runs ++ seen_status_contexts (lint ∷ []))
    then CiState.running
    else CiState.pass)
context_aggregate_status-newest_example = context_aggregate_status-newest runs (lint ∷ [])

abbrev required : List Text
required = codes "build" ∷ codes " " ∷ codes "Lint" ∷ []

evaluate_required_contexts-precedence_example :
    evaluate_required_contexts required runs (lint ∷ []) ≡ (
      if some_context is_fail required runs (lint ∷ [])
      then CiState.fail
      else if some_context is_missing required runs (lint ∷ [])
      then CiState.missing
      else if some_context is_running required runs (lint ∷ [])
      then CiState.running
      else CiState.pass)
evaluate_required_contexts-precedence_example =
    evaluate_required_contexts-precedence required runs (lint ∷ [])

abbrev first_pr : PullRequest
first_pr = record {
  number = 1;
  gh_created_at = 2;
  is_draft = false;
  closed_at = none;
  merged_at = none;
  head_sha = codes "abc";
  timeline = [];
}

abbrev second_pr : PullRequest
second_pr = record first_pr { number = 2 }

abbrev both : List PullRequest
both = first_pr ∷ second_pr ∷ []

both-OneHead : OneHead both
both-OneHead p q (Memᴰ.head e) (Memᴰ.head f) n = ap (λ x. x.head_sha) (e ∙ sym f)
both-OneHead p q (Memᴰ.head e) (Memᴰ.tail (Memᴰ.head f)) n =
    ap (λ x. x.head_sha) e ∙ sym (ap (λ x. x.head_sha) f)
both-OneHead p q (Memᴰ.tail (Memᴰ.head e)) (Memᴰ.head f) n =
    ap (λ x. x.head_sha) e ∙ sym (ap (λ x. x.head_sha) f)
both-OneHead p q (Memᴰ.tail (Memᴰ.head e)) (Memᴰ.tail (Memᴰ.head f)) n =
    ap (λ x. x.head_sha) (e ∙ sym f)
both-OneHead p q (Memᴰ.head e) (Memᴰ.tail (Memᴰ.tail f)) n = elim f [ ]
both-OneHead p q (Memᴰ.tail (Memᴰ.head e)) (Memᴰ.tail (Memᴰ.tail f)) n = elim f [ ]
both-OneHead p q (Memᴰ.tail (Memᴰ.tail e)) f n = elim e [ ]

abbrev gated : QueueRules
gated = record default_rules { require_ci_success = true; required_ci_contexts = some required }

batch_ci_statuses_for_repo-single_example :
    status_for 2 (batch_ci_statuses_for_repo both gated runs (lint ∷ []))
    ≡ some (ci_status_for_pr second_pr gated runs (lint ∷ []))
batch_ci_statuses_for_repo-single_example =
    batch_ci_statuses_for_repo-single both gated runs (lint ∷ []) second_pr both-OneHead
      (Memᴰ.tail (Memᴰ.head refl))
