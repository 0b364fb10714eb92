-- ===== src/CiEvaluation/Verdict.antt =====
-- The verdict on a context: by the newest row of every name.
use queueboard_core.Prelude.{
  ◌≡◌, ◌∙◌, refl, sym, ap, inl, inr, Bool, true, false, none, some, List, [], ◌∷◌, ◌++◌, ◌==◌,
  if◌then◌else◌, is_empty, any, Bool-cases, Option-cases, arith, beq_refl, beq_comm, Bool-ext,
}
use queueboard_core.Prelude.Text.{Text, text_eq, text_beq_iff}
use queueboard_core.QueueWindows.Attribution.{CiState, CheckRun, StatusContext, is_fail}
use queueboard_core.CiEvaluation.Rows.{
  Seen, Latest, get, set, is_newer, take_seen, take_check_runs, is_running, status_of_latest,
  context_aggregate_status,
}
use queueboard_core.CiEvaluation.Newest.{
  take_all, newest, newest_is, newest-get, get-set, get-key, take_check_runs-lem,
  take_status_contexts-lem, seen_check_runs, seen_status_contexts,
}

-- The keys of the dictionary are different from each other.
Keys : Latest → Type 0
Keys [] = Unit
Keys (e ∷ latest) = (get e.key latest ≡ none) × Keys latest

-- A property of some entry is one of the entry that some key finds.
any-get :
    (test : Seen → Bool) (latest : Latest)
    → Keys latest
    → any test latest ≡ true
    → (s : Seen) × (get s.key latest ≡ some s) × (test s ≡ true)
unfolding any get Keys
any-get test [] keys p = absurd (cc)
any-get test (e ∷ latest) keys p = elim (Bool-cases (test e)) [
  | inl q ↦ (e, rw (beq_refl e.key) refl, q)
  | inr q ↦
      let (s, found, r) = any-get test latest keys.1 (rw q at p) in
      let other : get s.key (e ∷ latest) ≡ some s = elim (Bool-cases (e.key == s.key)) [
        | inl t ↦ absurd (let same = get-key s.key e latest t in let gone = keys.0 in cc)
        | inr t ↦ rw t found
      ] in
      (s, other, r)
]

get-any :
    (test : Seen → Bool) (key : Text) (latest : Latest) (s : Seen)
    → get key latest ≡ some s
    → test s ≡ true
    → any test latest ≡ true
unfolding any get
get-any test key [] s e p = absurd (cc)
get-any test key (r ∷ latest) s e p = elim (Bool-cases (r.key == key)) [
  | inl q ↦
      let same : some r ≡ some s = rw q at e in
      let good : test r ≡ true = ap (λ o. elim o [ none ↦ false | some x ↦ test x ]) same ∙ p in
      rw good refl
  | inr q ↦ rw (get-any test key latest s (rw q at e) p) (ground arith)
]

-- A name that has a newest row has a row.
newest-listed :
    (key : Text) (rows : List Seen) (s : Seen)
    → newest key rows ≡ some s
    → any (λ r. r.key == key) rows ≡ true
unfolding any newest
newest-listed key [] s e = absurd (cc)
newest-listed key (r ∷ rows) s e = elim (Bool-cases (r.key == key)) [
  | inl q ↦ rw q refl
  | inr q ↦ rw (newest-listed key rows s (rw q at e)) (ground arith)
]

listed-any :
    (f : Text → Bool) (key : Text) (rows : List Seen)
    → any (λ r. r.key == key) rows ≡ true
    → f key ≡ true
    → any (λ r. f r.key) rows ≡ true
unfolding any
listed-any f key [] e p = absurd (cc)
listed-any f key (r ∷ rows) e p = elim (Bool-cases (r.key == key)) [
  | inl q ↦
      let same = (text_beq_iff r.key key).0 q in
      let good : f r.key ≡ true = ap f same ∙ p in rw good refl
  | inr q ↦ rw (listed-any f key rows (rw q at e) p) (ground arith)
]

any-listed :
    (f : Text → Bool) (rows : List Seen)
    → any (λ r. f r.key) rows ≡ true
    → (key : Text) × (f key ≡ true)
unfolding any
any-listed f [] e = absurd (cc)
any-listed f (r ∷ rows) e = elim (Bool-cases (f r.key)) [
  | inl q ↦ (r.key, q)
  | inr q ↦ any-listed f rows (rw q at e)
]

set-Keys : (s : Seen) (latest : Latest) → Keys latest → Keys (set s latest)
unfolding set Keys get
set-Keys s [] keys = (refl, tt)
set-Keys s (e ∷ latest) keys = elim (Bool-cases (e.key == s.key)) [
  | inl q ↦ rw q (sym (get-key s.key e latest q) ∙ keys.0, keys.1)
  | inr q ↦
      rw q (get-set e.key s latest ∙ rw (beq_comm s.key e.key, q) keys.0, set-Keys s latest keys.1)
]

take_seen-Keys : (s : Seen) (latest : Latest) → Keys latest → Keys (take_seen latest s)
unfolding take_seen
take_seen-Keys s latest keys = elim (Bool-cases (is_newer s (get s.key latest))) [
  | inl q ↦ rw q (set-Keys s latest keys)
  | inr q ↦ rw q keys
]

take_all-Keys : (latest : Latest) (rows : List Seen) → Keys latest → Keys (take_all latest rows)
unfolding take_all
take_all-Keys latest [] keys = keys
take_all-Keys latest (s ∷ rows) keys =
    take_all-Keys (take_seen latest s) rows (take_seen-Keys s latest keys)

set-nonempty : (s : Seen) (latest : Latest) → is_empty (set s latest) ≡ false
unfolding set
set-nonempty s [] = refl
set-nonempty s (e ∷ latest) = ground arith

take_seen-nonempty : (s : Seen) (latest : Latest) → is_empty (take_seen latest s) ≡ false
unfolding take_seen get set
take_seen-nonempty s [] = refl
take_seen-nonempty s (e ∷ latest) = elim (Bool-cases (is_newer s (get s.key (e ∷ latest)))) [
  | inl q ↦ rw q (set-nonempty s (e ∷ latest))
  | inr q ↦ rw q refl
]

take_all-nonempty :
    (latest : Latest) (rows : List Seen)
    → is_empty latest ≡ false
    → is_empty (take_all latest rows) ≡ false
unfolding take_all
take_all-nonempty latest [] e = e
take_all-nonempty latest (s ∷ rows) e =
    take_all-nonempty (take_seen latest s) rows (take_seen-nonempty s latest)

pub take_all-is_empty : (rows : List Seen) → is_empty (take_all [] rows) ≡ is_empty rows
unfolding take_all
take_all-is_empty [] = refl
take_all-is_empty (s ∷ rows) = take_all-nonempty (take_seen [] s) rows (take_seen-nonempty s [])

-- Some entry of the dictionary has the property exactly when some name's newest row has it.
pub take_all-any :
    (test : CiState → Bool) (rows : List Seen)
    → any (λ e. test e.status) (take_all [] rows) ≡ any (λ r. newest_is test r.key rows) rows
take_all-any test rows =
    Bool-ext (any (λ e. test e.status) (take_all [] rows))
      (any (λ r. newest_is test r.key rows) rows)
      (λ p.
        let (s, found, good) =
          any-get (λ e. test e.status) (take_all [] rows)
            (take_all-Keys [] rows (unfold Keys in tt)) p in
        let it = sym (newest-get s.key rows) ∙ found in
        listed-any (λ key. newest_is test key rows) s.key rows (newest-listed s.key rows s it)
          (rw it good))
      (λ p.
        let (key, good) = any-listed (λ key. newest_is test key rows) rows p in
        elim (Option-cases (newest key rows)) [
          | inl e ↦ absurd (let bad = rw e at good in cc)
          | inr e ↦
              get-any (λ e. test e.status) key (take_all [] rows) e.0 (newest-get key rows ∙ e.1)
                (rw (e.1) at good)
        ])

-- The status of a context is missing if no row has a name and a time; else it is a failure if the
-- newest row of some name failed; else it is running if the newest row of some name runs; and else it is a pass.
pub context_aggregate_status-newest :
    (check_runs : List CheckRun) (status_contexts : List StatusContext)
    → context_aggregate_status check_runs status_contexts ≡ (
        let rows = seen_check_runs check_runs ++ seen_status_contexts status_contexts in
        if is_empty rows
        then CiState.missing
        else if any (λ r. newest_is is_fail r.key rows) rows
        then CiState.fail
        else if any (λ r. newest_is is_running r.key rows) rows
        then CiState.running
        else CiState.pass)
unfolding context_aggregate_status
context_aggregate_status-newest check_runs status_contexts =
    let rows = seen_check_runs check_runs ++ seen_status_contexts status_contexts in
    let same =
      take_check_runs-lem [] check_runs (seen_status_contexts status_contexts)
      ∙ take_status_contexts-lem (take_check_runs [] check_runs) status_contexts in
    ap status_of_latest (sym same)
    ∙ (unfold status_of_latest in
        rw (take_all-is_empty rows, take_all-any is_fail rows, take_all-any is_running rows) refl)
