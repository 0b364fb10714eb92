-- ===== src/CiEvaluation/Required.antt =====
-- The required contexts of a rule set, and the status of one PR.
use queueboard_core.Prelude.{
  sym, ap, ◌≡◌, ◌∙◌, refl, Bool, true, false, not, ◌&&◌, ◌||◌, List, [], ◌∷◌, ◌==◌, if◌then◌else◌,
  is_empty, any, keep, Bool-cases, inl, inr, arith,
}
use queueboard_core.Prelude.Text.{Text, text_eq, strip, lower, is_infix}
use queueboard_core.QueueRules.Rules.{QueueRules, or_nil}
use queueboard_core.QueueWindows.Timeline.{PullRequest}
use queueboard_core.QueueWindows.Attribution.{CiState, CheckRun, StatusContext, is_fail}
use queueboard_core.CiEvaluation.Rows.{context_aggregate_status, is_running}

abbrev pub is_missing : CiState → Bool
is_missing CiState.missing = true
is_missing _ = false

-- The flags of the loop.
pub record Flags : Type 0 where
  pub any_fail : Bool
  pub any_running : Bool
  pub any_missing : Bool

abbrev pub no_flags : Flags
no_flags = record { any_fail = false; any_running = false; any_missing = false }

abbrev raise_flag : CiState → Flags → Flags
raise_flag CiState.pass f = f
raise_flag CiState.fail f = record f { any_fail = true }
raise_flag CiState.missing f = record f { any_missing = true }
raise_flag CiState.running f = record f { any_running = true }

abbrev pub fragment_of : Text → Text
fragment_of ctx_name = lower (strip ctx_name)

unfoldable pub status_of_context : Text → List CheckRun → List StatusContext → CiState
status_of_context ctx_name check_runs status_contexts =
    context_aggregate_status
      (keep (λ cr. is_infix (fragment_of ctx_name) (lower cr.name)) check_runs)
      (keep (λ sc. is_infix (fragment_of ctx_name) (lower sc.name)) status_contexts)

-- A blank context is passed over.
unfoldable pub take_context : List CheckRun → List StatusContext → Flags → Text → Flags
take_context check_runs status_contexts f ctx_name =
    if is_empty (fragment_of ctx_name)
    then f
    else raise_flag (status_of_context ctx_name check_runs status_contexts) f

unfoldable pub take_contexts : Flags → List Text → List CheckRun → List StatusContext → Flags
unfolding take_context
take_contexts f [] check_runs status_contexts = f
take_contexts f (ctx_name ∷ required_contexts) check_runs status_contexts =
    take_contexts (take_context check_runs status_contexts f ctx_name) required_contexts check_runs
      status_contexts

abbrev pub verdict : Flags → CiState
verdict f =
    if f.any_fail
    then CiState.fail
    else if f.any_missing
    then CiState.missing
    else if f.any_running
    then CiState.running
    else CiState.pass

unfoldable pub evaluate_required_contexts : List Text → List CheckRun → List StatusContext → CiState
unfolding take_contexts
evaluate_required_contexts required_contexts check_runs status_contexts =
    verdict (take_contexts no_flags required_contexts check_runs status_contexts)

-- `name__icontains` of some context
abbrev pub matches_some : List Text → Text → Bool
matches_some contexts name = any (λ ctx. is_infix (lower ctx) (lower name)) contexts

unfoldable pub ci_status_for_pr :
    PullRequest → QueueRules → List CheckRun → List StatusContext → CiState
ci_status_for_pr pr rules all_runs all_contexts =
    let required = or_nil rules.required_ci_contexts in
    if not rules.require_ci_success || is_empty required
    then CiState.pass
    else if is_empty pr.head_sha
    then CiState.missing
    else evaluate_required_contexts required
        (keep (λ cr. matches_some required cr.name)
          (keep (λ cr. cr.head_sha == pr.head_sha) all_runs))
        (keep (λ sc. matches_some required sc.name)
          (keep (λ sc. sc.head_sha == pr.head_sha) all_contexts))

-- A context that is not blank has a status that the test holds of.
abbrev pub some_context : (CiState → Bool) → List Text → List CheckRun → List StatusContext → Bool
some_context test contexts check_runs status_contexts =
    any
      (λ ctx.
        not (is_empty (fragment_of ctx)) && test (status_of_context ctx check_runs status_contexts))
      contexts

abbrev flags : Bool → Bool → Bool → Flags
flags a b c = record { any_fail = a; any_running = b; any_missing = c }

raise_flag-lem :
    (st : CiState) (f : Flags) (a b c : Bool)
    → flags
        ((raise_flag st f).any_fail || a)
        ((raise_flag st f).any_running || b)
        ((raise_flag st f).any_missing || c)
      ≡ flags
          (f.any_fail || (is_fail st || a))
          (f.any_running || (is_running st || b))
          (f.any_missing || (is_missing st || c))
raise_flag-lem CiState.pass f a b c = refl
raise_flag-lem CiState.fail f a b c =
    ap (λ x. flags x (f.any_running || b) (f.any_missing || c)) (ground arith)
raise_flag-lem CiState.running f a b c =
    ap (λ x. flags (f.any_fail || a) x (f.any_missing || c)) (ground arith)
raise_flag-lem CiState.missing f a b c =
    ap (λ x. flags (f.any_fail || a) (f.any_running || b) x) (ground arith)

or_false : (b : Bool) → (b || false) ≡ b
or_false b = ground arith

take_contexts-lem :
    (f : Flags) (contexts : List Text) (crs : List CheckRun) (scs : List StatusContext)
    → take_contexts f contexts crs scs
      ≡ flags
          (f.any_fail || some_context is_fail contexts crs scs)
          (f.any_running || some_context is_running contexts crs scs)
          (f.any_missing || some_context is_missing contexts crs scs)
unfolding take_contexts any
take_contexts-lem f [] crs scs =
    sym (rw (or_false f.any_fail, or_false f.any_running, or_false f.any_missing) refl)
take_contexts-lem f (ctx ∷ contexts) crs scs = elim (Bool-cases (is_empty (fragment_of ctx))) [
  | inl p ↦ rw p (take_contexts-lem f contexts crs scs)
  | inr p ↦
      let st = status_of_context ctx crs scs in
      rw p (
        take_contexts-lem (raise_flag st f) contexts crs scs
        ∙ raise_flag-lem st f (some_context is_fail contexts crs scs)
            (some_context is_running contexts crs scs) (some_context is_missing contexts crs scs))
]

-- Of the required contexts that are not blank: the status is a failure if one failed, else missing
-- if one is missing, else running if one runs, and else a pass.
pub evaluate_required_contexts-precedence :
    (contexts : List Text) (crs : List CheckRun) (scs : List StatusContext)
    → evaluate_required_contexts contexts crs scs ≡ (
        if some_context is_fail contexts crs scs
        then CiState.fail
        else if some_context is_missing contexts crs scs
        then CiState.missing
        else if some_context is_running contexts crs scs
        then CiState.running
        else CiState.pass)
unfolding evaluate_required_contexts
evaluate_required_contexts-precedence contexts crs scs =
    rw (take_contexts-lem no_flags contexts crs scs) refl
