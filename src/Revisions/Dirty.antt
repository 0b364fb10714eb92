-- ===== src/Revisions/Dirty.antt =====
-- The mark that a PR's revisions are to be rebuilt from some time on.
use queueboard_core.Prelude.{
  ℕ, ◌≤◌, ◌<◌, ◌≡◌, refl, sym, ◌∙◌, Bool, true, false, Option, none, some, List, [], ◌∷◌, ltb, leb,
  if◌then◌else◌, Bool-cases, inl, inr, arith, All,
}

-- `PRRevisionBuildState`, as far as it is read. A row that is created has neither time.
pub record BuildState : Type 0 where
  pub built_through_ts : Option ℕ
  pub dirty_from_ts : Option ℕ

-- `state.dirty_from_ts is None or signal_ts < state.dirty_from_ts`
abbrev pub is_earlier : ℕ → Option ℕ → Bool
is_earlier ts none = true
is_earlier ts (some dirty) = ltb ts dirty

unfoldable pub mark_earlier : ℕ → Option ℕ → BuildState → Bool × BuildState
mark_earlier ts none state = (false, state)
mark_earlier ts (some built) state =
    if leb built ts
    then (false, state)
    else if is_earlier ts state.dirty_from_ts
    then (true, record state { dirty_from_ts = some ts })
    else (false, state)

unfoldable pub mark_pr_revision_dirty_if_earlier : Option ℕ → BuildState → Bool × BuildState
unfolding mark_earlier
mark_pr_revision_dirty_if_earlier none state = (false, state)
mark_pr_revision_dirty_if_earlier (some ts) state = mark_earlier ts state.built_through_ts state

-- The signals of a run, one after the other.
unfoldable pub mark_all : List (Option ℕ) → BuildState → BuildState
mark_all [] state = state
mark_all (s ∷ signals) state = mark_all signals (mark_pr_revision_dirty_if_earlier s state).1

abbrev pub DirtyBy : ℕ → Option ℕ → Type 0
DirtyBy ts none = ⊥
DirtyBy ts (some dirty) = dirty ≤ ts

-- A signal from before what was built is covered by the mark.
abbrev pub Covers : BuildState → Option ℕ → Type 0
Covers state none = Unit
Covers state (some ts) =
    (built : ℕ) → state.built_through_ts ≡ some built → ts < built → DirtyBy ts state.dirty_from_ts

abbrev state_of : Option ℕ → Option ℕ → BuildState
state_of built dirty = record { built_through_ts = built; dirty_from_ts = dirty }

mark_earlier-built :
    (ts : ℕ) (b d : Option ℕ) → (mark_earlier ts b (state_of b d)).1.built_through_ts ≡ b
unfolding mark_earlier
mark_earlier-built ts none d = refl
mark_earlier-built ts (some built) none = ground arith
mark_earlier-built ts (some built) (some dirty) = ground arith

mark_earlier-covers :
    (ts : ℕ) (b d : Option ℕ) (built : ℕ)
    → b ≡ some built
    → ts < built
    → DirtyBy ts (mark_earlier ts b (state_of b d)).1.dirty_from_ts
unfolding mark_earlier
mark_earlier-covers ts none d built e lt = absurd (cc)
mark_earlier-covers ts (some b) none built e lt =
    let same : leb b ts ≡ false = ground arith in rw same (ground arith)
mark_earlier-covers ts (some b) (some dirty) built e lt =
    let same : leb b ts ≡ false = ground arith in
    elim (Bool-cases (ltb ts dirty)) [
      | inl p ↦ rw (same, p) (ground arith)
      | inr p ↦ rw (same, p) (ground arith)
    ]

mark_earlier-keeps :
    (ts t : ℕ) (b d : Option ℕ)
    → DirtyBy t d
    → DirtyBy t (mark_earlier ts b (state_of b d)).1.dirty_from_ts
unfolding mark_earlier
mark_earlier-keeps ts t none d le = le
mark_earlier-keeps ts t (some b) none le = absurd le
mark_earlier-keeps ts t (some b) (some dirty) le = elim (Bool-cases (leb b ts)) [
  | inl q ↦ rw q le
  | inr q ↦ elim (Bool-cases (ltb ts dirty)) [
    | inl p ↦ rw (q, p) (ground arith)
    | inr p ↦ rw (q, p) le
  ]
]

mark-built :
    (s : Option ℕ) (state : BuildState)
    → (mark_pr_revision_dirty_if_earlier s state).1.built_through_ts ≡ state.built_through_ts
unfolding mark_pr_revision_dirty_if_earlier
mark-built none state = refl
mark-built (some ts) state = mark_earlier-built ts state.built_through_ts state.dirty_from_ts

mark-Covers :
    (s : Option ℕ) (state : BuildState) → Covers (mark_pr_revision_dirty_if_earlier s state).1 s
unfolding mark_pr_revision_dirty_if_earlier
mark-Covers none state = tt
mark-Covers (some ts) state = λ built e lt.
    mark_earlier-covers ts state.built_through_ts state.dirty_from_ts built
      (sym (mark-built (some ts) state) ∙ e) lt

-- What is covered stays covered.
mark-keeps :
    (s r : Option ℕ) (state : BuildState)
    → Covers state r
    → Covers (mark_pr_revision_dirty_if_earlier s state).1 r
unfolding mark_pr_revision_dirty_if_earlier
mark-keeps none r state c = c
mark-keeps (some ts) none state c = tt
mark-keeps (some ts) (some t) state c = λ built e lt.
    mark_earlier-keeps ts t state.built_through_ts state.dirty_from_ts
      (c built (sym (mark-built (some ts) state) ∙ e) lt)

mark_all-keeps :
    (signals : List (Option ℕ)) (r : Option ℕ) (state : BuildState)
    → Covers state r
    → Covers (mark_all signals state) r
unfolding mark_all
mark_all-keeps [] r state c = c
mark_all-keeps (s ∷ signals) r state c =
    mark_all-keeps signals r (mark_pr_revision_dirty_if_earlier s state).1 (mark-keeps s r state c)

-- After any run of signals, each one that lies before what was built through is at or after the
-- time that the state is marked dirty from.
pub mark_all-Covers :
    (signals : List (Option ℕ)) (state : BuildState) → All (Covers (mark_all signals state)) signals
unfolding mark_all
mark_all-Covers [] state = tt
mark_all-Covers (s ∷ signals) state =
    let next = (mark_pr_revision_dirty_if_earlier s state).1 in
    (mark_all-keeps signals s next (mark-Covers s state), mark_all-Covers signals next)
