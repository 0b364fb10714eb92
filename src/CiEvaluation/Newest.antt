-- ===== src/CiEvaluation/Newest.antt =====
-- What the rows of a context say, each name by its newest row.
use queueboard_core.Prelude.{
  ◌⊎◌, ◌≡◌, ◌∙◌, refl, sym, ap, inl, inr, Bool, true, false, Option, none, some, List, [], ◌∷◌,
  ◌++◌, ltb, ◌==◌, if◌then◌else◌, is_empty, Bool-cases, Option-cases, arith,
}
use queueboard_core.Prelude.Text.{Text, text_eq, text_beq_iff}
use queueboard_core.QueueWindows.Attribution.{CiState, CheckRun, StatusContext}
use queueboard_core.CiEvaluation.Rows.{
  seen_run, seen_context, Seen, Latest, get, set, is_newer, take_seen, or_else, take_check_run,
  take_status_context, take_check_runs, take_status_contexts,
}

-- The rows that have a name and a time.
pub seen_check_runs : List CheckRun → List Seen
seen_check_runs [] = []
seen_check_runs (cr ∷ crs) =
    let rest = seen_check_runs crs in
    elim (or_else cr.gh_completed_at cr.gh_started_at) [
      | none ↦ rest
      | some ts ↦ if is_empty cr.name then rest else seen_run cr ts ∷ rest
    ]

pub seen_status_contexts : List StatusContext → List Seen
seen_status_contexts [] = []
seen_status_contexts (sc ∷ scs) =
    let rest = seen_status_contexts scs in if is_empty sc.name then rest else seen_context sc ∷ rest

abbrev newer_of : Seen → Option Seen → Option Seen
newer_of s none = some s
newer_of s (some r) = if ltb s.ts r.ts then some r else some s

-- The newest row of a name; of rows as new as each other, the first one.
unfoldable pub newest : Text → List Seen → Option Seen
newest key [] = none
newest key (s ∷ rows) = let rest = newest key rows in if s.key == key then newer_of s rest else rest

abbrev pub status_is : (CiState → Bool) → Option Seen → Bool
status_is test none = false
status_is test (some s) = test s.status

abbrev pub newest_is : (CiState → Bool) → Text → List Seen → Bool
newest_is test key rows = status_is test (newest key rows)

unfoldable pub take_all : Latest → List Seen → Latest
take_all latest [] = latest
take_all latest (s ∷ rows) = take_all (take_seen latest s) rows

-- A check run is passed over on both sides, or adds the same row.
take_check_run-lem :
    (latest : Latest) (cr : CheckRun) (crs : List CheckRun)
    → ((seen_check_runs (cr ∷ crs) ≡ seen_check_runs crs) × (take_check_run latest cr ≡ latest))
      ⊎ ((s : Seen) × (seen_check_runs (cr ∷ crs) ≡ s ∷ seen_check_runs crs)
          × (take_check_run latest cr ≡ take_seen latest s))
unfolding take_check_run seen_check_runs
take_check_run-lem latest cr crs =
    elim (Option-cases (or_else cr.gh_completed_at cr.gh_started_at)) [
      | inl e ↦ inl (rw (seen_check_runs, e) refl, rw (take_check_run, e) refl)
      | inr e ↦ elim (Bool-cases (is_empty cr.name)) [
        | inl p ↦ inl (rw (seen_check_runs, e.1, p) refl, rw (take_check_run, e.1, p) refl)
        | inr p ↦
            inr
              (seen_run cr e.0, rw (seen_check_runs, e.1, p) refl, rw (take_check_run, e.1, p) refl)
      ]
    ]

pub take_check_runs-lem :
    (latest : Latest) (crs : List CheckRun) (rows : List Seen)
    → take_all latest (seen_check_runs crs ++ rows) ≡ take_all (take_check_runs latest crs) rows
unfolding take_check_runs take_all
take_check_runs-lem latest [] rows = unfold seen_check_runs in refl
take_check_runs-lem latest (cr ∷ crs) rows = elim (take_check_run-lem latest cr crs) [
  | inl e ↦
      ap (λ l. take_all latest (l ++ rows)) e.0
      ∙ take_check_runs-lem latest crs rows
      ∙ ap (λ l. take_all (take_check_runs l crs) rows) (sym e.1)
  | inr (s, e, f) ↦
      ap (λ l. take_all latest (l ++ rows)) e
      ∙ take_check_runs-lem (take_seen latest s) crs rows
      ∙ ap (λ l. take_all (take_check_runs l crs) rows) (sym f)
]

pub take_status_contexts-lem :
    (latest : Latest) (scs : List StatusContext)
    → take_all latest (seen_status_contexts scs) ≡ take_status_contexts latest scs
unfolding take_all take_status_contexts take_status_context seen_status_contexts
take_status_contexts-lem latest [] = refl
take_status_contexts-lem latest (sc ∷ scs) = elim (Bool-cases (is_empty sc.name)) [
  | inl p ↦ rw p (take_status_contexts-lem latest scs)
  | inr p ↦ rw p (take_status_contexts-lem (take_seen latest (seen_context sc)) scs)
]

pub get-set :
    (key : Text) (s : Seen) (latest : Latest)
    → get key (set s latest) ≡ (if s.key == key then some s else get key latest)
unfolding get set
get-set key s [] = refl
get-set key s (e ∷ latest) = elim (Bool-cases (e.key == s.key)) [
  | inl p ↦ rw p (let same = ap (λ k. k == key) ((text_beq_iff e.key s.key).0 p) in ground arith)
  | inr p ↦ elim (Bool-cases (e.key == key)) [
    | inl q ↦
        let other : (s.key == key) ≡ false = elim (Bool-cases (s.key == key)) [
          | inl r ↦ absurd (
              let a = (text_beq_iff e.key key).0 q in
              let b = (text_beq_iff s.key key).0 r in
              let c = (text_beq_iff e.key s.key).1 (a ∙ sym b) in cc)
          | inr r ↦ r
        ] in
        rw (p, q, other) refl
    | inr q ↦ rw (p, q) (get-set key s latest)
  ]
]

combine : Option Seen → Option Seen → Option Seen
combine none r = r
combine (some s) r = newer_of s r

combine-none : (o : Option Seen) → combine o none ≡ o
unfolding combine
combine-none none = refl
combine-none (some s) = refl

combine_assoc : (a b c : Option Seen) → combine (combine a b) c ≡ combine a (combine b c)
unfolding combine
combine_assoc none b c = refl
combine_assoc (some a) none c = refl
combine_assoc (some a) (some b) none = ground arith
combine_assoc (some a) (some b) (some c) = ground arith

pub get-key :
    (key : Text) (s : Seen) (latest : Latest)
    → (s.key == key) ≡ true
    → get s.key latest ≡ get key latest
get-key key s latest p = ap (λ k. get k latest) ((text_beq_iff s.key key).0 p)

get-take_seen :
    (key : Text) (latest : Latest) (s : Seen)
    → get key (take_seen latest s)
      ≡ combine (get key latest) (if s.key == key then some s else none)
unfolding take_seen combine
get-take_seen key latest s = elim (Bool-cases (s.key == key)) [
  | inl p ↦
      let same = get-key key s latest p in
      elim (Option-cases (get key latest)) [
        | inl e ↦ rw (p, same, e) (get-set key s latest ∙ rw p refl)
        | inr e ↦
            let r = e.0 in
            elim (Bool-cases (ltb r.ts s.ts)) [
              | inl q ↦ rw (p, same, e.1, q) (get-set key s latest ∙ rw p refl)
              | inr q ↦ rw (p, same, e.1, q) e.1
            ]
      ]
  | inr p ↦ elim (Bool-cases (is_newer s (get s.key latest))) [
    | inl q ↦ rw (p, q) (get-set key s latest ∙ rw p (sym (combine-none (get key latest))))
    | inr q ↦ rw (p, q) (sym (combine-none (get key latest)))
  ]
]

get-take_all :
    (key : Text) (latest : Latest) (rows : List Seen)
    → get key (take_all latest rows) ≡ combine (get key latest) (newest key rows)
unfolding take_all combine newest
get-take_all key latest [] = elim (Option-cases (get key latest)) [
  | inl e ↦ rw e refl
  | inr e ↦ rw (e.1) refl
]
get-take_all key latest (s ∷ rows) =
    get-take_all key (take_seen latest s) rows
    ∙ ap (λ o. combine o (newest key rows)) (get-take_seen key latest s)
    ∙ combine_assoc (get key latest) (if s.key == key then some s else none) (newest key rows)
    ∙ ap (combine (get key latest))
        (elim (Bool-cases (s.key == key)) [ inl p ↦ rw p refl | inr p ↦ rw p refl ])

pub newest-get : (key : Text) (rows : List Seen) → get key (take_all [] rows) ≡ newest key rows
newest-get key rows = get-take_all key [] rows ∙ (unfold get combine in refl)
