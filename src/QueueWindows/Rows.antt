-- ===== src/QueueWindows/Rows.antt =====
-- What the CI-gated part of `_queue_windows_with_rules` reads of the database: the required
-- contexts, the rows of CI in their order, and the times at which queue membership may change.
use queueboard_core.Prelude.{
  ℕ, Bool, true, false, not, ◌&&◌, ◌||◌, Option, none, some, List, [], ◌∷◌, ◌++◌, ltb, leb, ◌==◌,
  nat_eq, if◌then◌else◌, contains, insert, Eq, is_empty, keep, any, map,
}
use queueboard_core.Prelude.Text.{Text, text_eq, lower, normalize, is_infix}
use queueboard_core.Prelude.Sorting.{sorted}
use queueboard_core.QueueRules.Rules.{QueueRules, or_nil}
use queueboard_core.QueueWindows.Timeline.{TimelineEvent}
use queueboard_core.QueueWindows.Attribution.{CheckRun, StatusContext}
use queueboard_core.QueueWindows.CiState.{Revision}
use queueboard_core.CiEvaluation.Rows.{or_else}

-- `t0 <= t <= as_of`
abbrev pub in_span : ℕ → ℕ → ℕ → Bool
in_span t0 as_of t = leb t0 t && leb t as_of

abbrev pub text_le : Text → Text → Bool
text_le [] t = true
text_le (a ∷ s) [] = false
text_le (a ∷ s) (b ∷ t) = let rest = text_le s t in if ltb a b then true else a == b && rest

unfoldable pub insert_all : {A : Type 0} → ⦃e : Eq A⦄ → List A → List A → List A
insert_all [] set = set
insert_all (a ∷ xs) set = insert_all xs (insert a set)

-- `sorted({_normalize_label(name) for name in ... if _normalize_label(name)})`
unfoldable pub required_names : QueueRules → List Text
unfolding insert_all
required_names rules = sorted text_le (
    insert_all (keep (λ n. not (is_empty n)) (map normalize (or_nil rules.required_ci_contexts)))
      [])

-- `order_by("from_ts", "seq", "id")`
abbrev pub starts_earlier : Revision → Revision → Bool
starts_earlier a b =
    ltb a.from_ts b.from_ts
    || (a.from_ts == b.from_ts && (ltb a.seq b.seq || (a.seq == b.seq && leb a.id b.id)))

abbrev pub shas_of : List Revision → Text → List Text
shas_of revisions sha =
    keep (λ s. not (is_empty s)) (sha ∷ map (λ (r : Revision). r.head_sha) revisions)

-- `gh_completed_at or gh_started_at`
abbrev pub ts_of : CheckRun → Option ℕ
ts_of cr = or_else cr.gh_completed_at cr.gh_started_at

abbrev pub is_in_span : ℕ → ℕ → Option ℕ → Bool
is_in_span t0 as_of none = false
is_in_span t0 as_of (some t) = in_span t0 as_of t

-- PostgreSQL puts NULL after every date.
abbrev pub date_lt : Option ℕ → Option ℕ → Bool
date_lt none d = false
date_lt (some a) none = true
date_lt (some a) (some b) = ltb a b

-- `order_by("gh_completed_at", "gh_started_at", "id")` of rows that come by `id`.
unfoldable pub run_before : CheckRun → CheckRun → Bool
run_before x y =
    if date_lt x.gh_completed_at y.gh_completed_at
    then true
    else if date_lt y.gh_completed_at x.gh_completed_at
    then false
    else not (date_lt y.gh_started_at x.gh_started_at)

abbrev pub names_any : List Text → Text → Bool
names_any required name = any (λ ctx. is_infix ctx (lower name)) required

unfoldable pub check_runs_for : List Text → List Text → ℕ → ℕ → List CheckRun → List CheckRun
unfolding run_before
check_runs_for required shas t0 as_of runs = sorted run_before (
    keep
      (λ cr.
        contains cr.head_sha shas && is_in_span t0 as_of (ts_of cr) && names_any required cr.name)
      runs)

-- `order_by("gh_created_at", "id")`
unfoldable pub statuses_for :
    List Text → List Text → ℕ → ℕ → List StatusContext → List StatusContext
statuses_for required shas t0 as_of contexts =
    sorted (λ x y. leb x.gh_created_at y.gh_created_at)
      (keep
        (λ sc.
          contains sc.head_sha shas
          && in_span t0 as_of sc.gh_created_at
          && names_any required sc.name)
        contexts)

abbrev pub times_of_runs : List CheckRun → List ℕ
times_of_runs [] = []
times_of_runs (cr ∷ runs) =
    let rest = times_of_runs runs in elim (ts_of cr) [ none ↦ rest | some t ↦ t ∷ rest ]

abbrev pub time_of_close : ℕ → ℕ → Option ℕ → List ℕ
time_of_close t0 as_of none = []
time_of_close t0 as_of (some c) = if in_span t0 as_of c then c ∷ [] else []

-- What is added to `boundary_times`, after `t0` and `as_of`.
abbrev pub change_times :
    ℕ
    → ℕ
    → List TimelineEvent
    → List Revision
    → List CheckRun
    → List StatusContext
    → Option ℕ
    → List ℕ
change_times t0 as_of events revisions runs contexts closed =
    keep (in_span t0 as_of) (map (λ (ev : TimelineEvent). ev.occurred_at) events)
    ++ keep (in_span t0 as_of) (map (λ (r : Revision). r.from_ts) revisions)
    ++ times_of_runs runs
    ++ map (λ (sc : StatusContext). sc.gh_created_at) contexts
    ++ time_of_close t0 as_of closed

-- `sorted(boundary_times)`
unfoldable pub boundary_times :
    ℕ
    → ℕ
    → List TimelineEvent
    → List Revision
    → List CheckRun
    → List StatusContext
    → Option ℕ
    → List ℕ
unfolding insert_all
boundary_times t0 as_of events revisions runs contexts closed = sorted leb (
    insert_all (change_times t0 as_of events revisions runs contexts closed)
      (insert as_of (insert t0 [])))
