-- ===== src/StateEvolution/Drafts.antt =====
-- The draft flag that is inferred for the creation of a PR.
use mathlib.Core.Bool.{xor}
use queueboard_core.Prelude.{
  ap, Option-cases, ℕ, inl, inr, Option-cases, ◌≡◌, sym, ◌∙◌, Bool, true, false, not, Option, none,
  some, List, [], ◌∷◌, if◌then◌else◌, arith, nat_eq, last_of, keep,
}
use queueboard_core.Classify.Kinds.{PrState, LabelKind, label_categorisation_rules, label_kind_eq}
use queueboard_core.StateEvolution.Events.{
  PrChange, Event, PrData, Metadata, process_data, update_state, add_kind, remove_kind, remove,
  state_changes_from, determine_state_changes, is_draft_change, toggled,
}
use queueboard_core.StateEvolution.Replay.{state_changes_from_total}
use queueboard_core.StateEvolution.Processed.{process_data-Processed}
use queueboard_core.StateEvolution.Totals.{initial_state}

-- A draft event changes the flag that it meets: no PR is made a draft twice in a row.
abbrev pub Flips : Bool → PrChange → Type 0
Flips d PrChange.marked_draft = d ≡ false
Flips d PrChange.marked_ready = d ≡ true
Flips d _ = Unit

abbrev pub draft_after : Bool → PrChange → Bool
draft_after d PrChange.marked_draft = true
draft_after d PrChange.marked_ready = false
draft_after d _ = d

abbrev pub Alternates : Bool → List Event → Type 0
Alternates d [] = Unit
Alternates d (e ∷ events) = Flips d e.change × Alternates (draft_after d e.change) events

add_kind-draft : (k : Option LabelKind) (s t : PrState) → add_kind k s ≡ some t → t.draft ≡ s.draft
unfolding add_kind
add_kind-draft none s t h = ground arith
add_kind-draft (some k) s t h = ground arith

remove_kind-draft :
    (k : Option LabelKind) (s t : PrState) → remove_kind k s ≡ some t → t.draft ≡ s.draft
unfolding remove_kind remove
remove_kind-draft none s t h = ground arith
remove_kind-draft (some k) s t h = ground arith

update_state-draft :
    (s t : PrState) (c : PrChange) → update_state s c ≡ some t → t.draft ≡ draft_after s.draft c
unfolding update_state
update_state-draft s t (PrChange.label_added name) h =
    add_kind-draft (label_categorisation_rules name) s t h
update_state-draft s t (PrChange.label_removed name) h =
    remove_kind-draft (label_categorisation_rules name) s t h
update_state-draft s t _ h = ground arith

-- A flip is a draft event, and the other changes keep the flag.
flip_xor :
    (d odd : Bool) (c : PrChange)
    → Flips d c
    → xor odd (draft_after d c) ≡ xor (if is_draft_change c then not odd else odd) d
unfolding xor
flip_xor d odd PrChange.marked_draft h = ground arith
flip_xor d odd _ h = ground arith

toggled-cons :
    (e : Event) (events : List Event)
    → toggled (e ∷ events)
      ≡ (if is_draft_change e.change then not (toggled events) else toggled events)
unfolding keep
toggled-cons e events = ground arith

xor-false : (b : Bool) → xor false b ≡ b
unfolding xor
xor-false b = ground arith

last-draft :
    (t : ℕ) (s : PrState) (events : List Event) (r : List (ℕ × PrState))
    → state_changes_from s events ≡ some r
    → Alternates s.draft events
    → (last_of (t, s) r).1.draft ≡ xor (toggled events) s.draft
unfolding state_changes_from
last-draft t s [] [] h a = unfold keep in sym (xor-false s.draft)
last-draft t s [] (x ∷ r) h a = absurd (cc)
last-draft t s (e ∷ events) r h a = elim (Option-cases (update_state s e.change)) [
  | inl p ↦ absurd (ground arith)
  | inr p ↦
      let u = p.0 in
      elim (Option-cases (state_changes_from u events)) [
        | inl q ↦ absurd (ground (arith, p.1))
        | inr q ↦
            let draft = update_state-draft s u e.change p.1 in
            let rest : r ≡ (e.time, u) ∷ q.0 = ground (arith, p.1, q.1) in
            rw rest (
              last-draft e.time u events q.0 q.1 (rw draft a.1)
              ∙ rw (draft, toggled-cons e events) (flip_xor s.draft (toggled events) e.change a.0))
      ]
]

xor_twice : (a b : Bool) → xor a (xor a b) ≡ b
unfolding xor
xor_twice a b = ground arith

-- Where the PR's data is read, the creation's draft flag, as it is inferred from the final one,
-- replays to the final one: if the draft events alternate from it, the replay returns, and its
-- last state has the draft flag that the PR has now.
pub created_as_draft-replays :
    (pr : PrData) (m : Metadata)
    → process_data pr ≡ some m
    → Alternates m.created_as_draft m.events
    → (evolution : List (ℕ × PrState)) × (determine_state_changes m.created_at
          (initial_state m)
          m.events
        ≡ some ((m.created_at, initial_state m) ∷ evolution))
      × ((last_of (m.created_at, initial_state m) evolution).1.draft ≡ pr.is_draft)
unfolding initial_state determine_state_changes
created_as_draft-replays pr m read a =
    let p = process_data-Processed pr m read in
    let (r, k) = state_changes_from_total (initial_state m) m.events p.plain in
    (
      r,
      rw k.computed,
      last-draft m.created_at (initial_state m) m.events r k.computed a
          ∙ ap (λ d. xor (toggled m.events) d) p.inferred
          ∙ xor_twice (toggled m.events) pr.is_draft,
    )
