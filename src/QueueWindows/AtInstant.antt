-- ===== src/QueueWindows/AtInstant.antt =====
-- The CI state at a time is a matter of the rows up to that time; and `is_on_queue_at` agrees with
-- the windows where the rules do not gate on CI.
use mathlib.Core.Path.{fun_ext}
use queueboard_core.Prelude.{
  ℕ, ◌≤◌, ◌<◌, ◌≡◌, refl, sym, ap, ◌∙◌, Bool, true, false, ◌&&◌, Option, none, some, List, [], ◌∷◌,
  ◌==◌, keep, Bool-cases, inl, inr,
}
use queueboard_core.Prelude.Text.{Text, text_eq, normalize, is_infix, lower}
use queueboard_core.QueueRules.Rules.{QueueRules, QueueRuleSet, or_nil}
use queueboard_core.QueueRules.Select.{load_rules_for_repo}
use queueboard_core.QueueWindows.Timeline.{
  PullRequest, state_at_time, on_queue, closed_ts, closed_by_time,
}
use queueboard_core.QueueWindows.Attribution.{CheckRun, StatusContext, ci_state_is_eligible}
use queueboard_core.QueueWindows.Builder.{label_queue_windows}
use queueboard_core.QueueWindows.Turn.{in_windows}
use queueboard_core.QueueWindows.AtTime.{label_queue_windows-state_at_time}
use queueboard_core.QueueWindows.CiState.{
  Revision, run_by, context_by, latest_ci_statuses_for_fragment, contexts_state, head_to_check,
  state_of_head, head_sha_at_time, ci_required_contexts_state, is_on_queue_at, head_or,
}

keep-keep_and {ℓ} :
    {A : Type ℓ} (p q : A → Bool) (xs : List A)
    → keep (λ x. p x && q x) (keep q xs) ≡ keep (λ x. p x && q x) xs
unfolding keep
keep-keep_and p q [] = refl
keep-keep_and p q (x ∷ xs) = elim (Bool-cases (q x)) [
  | inl e ↦ elim (Bool-cases (p x)) [
    | inl d ↦ rw (e, d, keep-keep_and p q xs) (rw e refl)
    | inr d ↦ rw (e, d) (keep-keep_and p q xs)
  ]
  | inr e ↦ elim (Bool-cases (p x)) [
    | inl d ↦ rw (e, d) (keep-keep_and p q xs)
    | inr d ↦ rw (e, d) (keep-keep_and p q xs)
  ]
]

latest_ci_statuses-rows :
    (pr : PullRequest) (runs : List CheckRun) (contexts : List StatusContext) (fragment : Text)
    (at : ℕ) (head : Option Text)
    → latest_ci_statuses_for_fragment pr
        (keep (run_by at) runs)
        (keep (context_by at) contexts)
        fragment
        at
        head
      ≡ latest_ci_statuses_for_fragment pr runs contexts fragment at head
unfolding latest_ci_statuses_for_fragment
latest_ci_statuses-rows pr runs contexts fragment at head =
    let wanted : Text → Text → Bool =
      λ sha name. sha == head_or head pr.head_sha && is_infix (normalize fragment) (lower name) in
    rw
      (
        keep-keep_and (λ cr. wanted cr.head_sha cr.name) (run_by at) runs,
        keep-keep_and (λ sc. wanted sc.head_sha sc.name) (context_by at) contexts,
      )
      refl

state_of_head-rows :
    (pr : PullRequest) (runs : List CheckRun) (contexts : List StatusContext) (required : List Text)
    (at : ℕ) (head : Option (Option Text))
    → state_of_head pr (keep (run_by at) runs) (keep (context_by at) contexts) required at head
      ≡ state_of_head pr runs contexts required at head
state_of_head-rows pr runs contexts required at none = refl
state_of_head-rows pr runs contexts required at (some head) =
    ap (λ f. contexts_state f false false required)
      (fun_ext (λ ctx. latest_ci_statuses-rows pr runs contexts ctx at head))

-- The CI state at a time is computed from the CI rows up to that time alone: rows that are later
-- do not change it.
pub ci_required_contexts_state-no_lookahead :
    (pr : PullRequest) (revisions : List Revision) (runs : List CheckRun)
    (contexts : List StatusContext) (rules : QueueRules) (at : ℕ)
    → ci_required_contexts_state pr revisions
        (keep (run_by at) runs)
        (keep (context_by at) contexts)
        rules
        at
      ≡ ci_required_contexts_state pr revisions runs contexts rules at
unfolding ci_required_contexts_state
ci_required_contexts_state-no_lookahead pr revisions runs contexts rules at =
    rw
      (state_of_head-rows pr runs contexts (or_nil rules.required_ci_contexts) at
        (head_to_check pr (head_sha_at_time revisions at)))
      refl

-- Under rules that do not gate on CI, at every time from the PR's creation to before `as_of` at
-- which the PR is not closed by its `closed_at`, or else its `merged_at`, the PR was on the queue
-- exactly when the time is in one of the windows.
pub is_on_queue_at-windows :
    (rows : List QueueRuleSet) (pr : PullRequest) (revisions : List Revision) (runs : List CheckRun)
    (contexts : List StatusContext) (as_of t : ℕ)
    → (load_rules_for_repo rows (some t)).require_ci_success ≡ false
    → pr.gh_created_at ≤ t
    → t < as_of
    → closed_by_time (closed_ts pr) t ≡ false
    → is_on_queue_at rows pr revisions runs contexts t
      ≡ in_windows t (label_queue_windows pr (load_rules_for_repo rows (some t)) as_of)
unfolding is_on_queue_at
is_on_queue_at-windows rows pr revisions runs contexts as_of t free ge known open_then =
    let rules = load_rules_for_repo rows (some t) in
    let fine : ci_state_is_eligible rules
          (ci_required_contexts_state pr revisions runs contexts rules t)
        ≡ true =
      unfold ci_state_is_eligible in rw free refl in
    ap (λ b. on_queue rules (some b) (state_at_time pr t)) fine
    ∙ sym (label_queue_windows-state_at_time pr rules as_of t ge known open_then)
