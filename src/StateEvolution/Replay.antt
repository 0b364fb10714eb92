-- ===== src/StateEvolution/Replay.antt =====
-- Replaying events: which replays raise, how long their result is, and what they leave alone.
use queueboard_core.Prelude.{
  Bool, ℕ, ◌≡◌, ◌≢◌, ◌∙◌, refl, inl, inr, true, false, Option, none, some, List, [], ◌∷◌, ◌++◌,
  if◌then◌else◌, contains, erase, keep, All, Bool-cases, arith, ltb,
}
use queueboard_core.Prelude.Text.{Text}
use queueboard_core.Classify.Kinds.{
  LabelKind, PrStatus, PrState, label_kind_eq, label_categorisation_rules,
}
use queueboard_core.Classify.Status
use queueboard_core.Classify.Status.{determine_pr_status, retired_review_label}
use queueboard_core.Classify.Priority
use queueboard_core.Classify.Priority.{priority_status}
use queueboard_core.Classify.Determine.{counts, determine_pr_status-priority_status}
use queueboard_core.StateEvolution.Events.{
  determine_state_changes, PrChange, Event, TimelineItem, remove, remove_kind, add_kind, remove_all,
  update_state, state_changes_from, parse_events,
}
use queueboard_core.StateEvolution.Totals.{determine_status_changes, statuses_of}

-- All changes but the removal of several labels at once.
abbrev pub IsPlain : PrChange → Type 0
IsPlain (PrChange.label_added_removed added removed) = ⊥
IsPlain _ = Unit

remove_kind_total :
    (k : Option LabelKind) (s : PrState) → (t : PrState) × (remove_kind k s ≡ some t)
unfolding remove_kind remove
remove_kind_total none s = (s, refl)
remove_kind_total (some k) s = elim (Bool-cases (contains k s.labels)) [
  | inl p ↦ (record s { labels = erase k s.labels }, ground arith)
  | inr p ↦ (s, ground arith)
]

add_kind_total : (k : Option LabelKind) (s : PrState) → (t : PrState) × (add_kind k s ≡ some t)
unfolding add_kind
add_kind_total none s = (s, refl)
add_kind_total (some k) s = (record s { labels = s.labels ++ k ∷ [] }, refl)

-- Such a change never raises.
pub update_state_total :
    (s : PrState) (c : PrChange) → IsPlain c → (t : PrState) × (update_state s c ≡ some t)
unfolding update_state
update_state_total s (PrChange.label_added name) p =
    add_kind_total (label_categorisation_rules name) s
update_state_total s (PrChange.label_removed name) p =
    remove_kind_total (label_categorisation_rules name) s
update_state_total s (PrChange.label_added_removed added removed) p = absurd p
update_state_total s (PrChange.ci_status_changed ci) p = (record s { ci = ci }, refl)
update_state_total s PrChange.marked_draft p = (record s { draft = true }, refl)
update_state_total s PrChange.marked_ready p = (record s { draft = false }, refl)

remove_kind-from_fork :
    (k : Option LabelKind) (s t : PrState) → remove_kind k s ≡ some t → t.from_fork ≡ s.from_fork
unfolding remove_kind remove
remove_kind-from_fork none s t h = ground arith
remove_kind-from_fork (some k) s t h = ground arith

add_kind-from_fork :
    (k : Option LabelKind) (s t : PrState) → add_kind k s ≡ some t → t.from_fork ≡ s.from_fork
unfolding add_kind
add_kind-from_fork none s t h = ground arith
add_kind-from_fork (some k) s t h = ground arith

-- No change alters whether the PR comes from a fork.
pub update_state-from_fork :
    (s t : PrState) (c : PrChange) → update_state s c ≡ some t → t.from_fork ≡ s.from_fork
unfolding update_state
update_state-from_fork s t (PrChange.label_added name) h =
    add_kind-from_fork (label_categorisation_rules name) s t h
update_state-from_fork s t (PrChange.label_removed name) h =
    remove_kind-from_fork (label_categorisation_rules name) s t h
update_state-from_fork s t _ h = ground arith

-- Two labels of one kind that are removed at once, where only one of the kind is recorded, make
-- the update raise.
pub update_state_raises :
    (s : PrState) (a b : Text) (k : LabelKind)
    → label_categorisation_rules a ≡ some k
    → label_categorisation_rules b ≡ some k
    → contains k s.labels ≡ true
    → contains k (erase k s.labels) ≡ false
    → update_state s (PrChange.label_added_removed [] (a ∷ b ∷ [])) ≡ none
unfolding update_state keep contains remove_all remove Status.kinds_of
update_state_raises s a b k p q m n = ground arith

-- The times of an evolution are those of the events.
abbrev pub SameTimes {ℓ} : {A : Type ℓ} → List (ℕ × A) → List Event → Type 0
SameTimes [] [] = Unit
SameTimes (x ∷ l) (e ∷ events) = (x.0 ≡ e.time) × SameTimes l events
SameTimes _ _ = ⊥

-- What a replay of plain changes gives: an entry for each event, at its time, from the same fork.
pub record Replays (s : PrState) (events : List Event) (r : List (ℕ × PrState)) : Type 0 where
  pub computed : state_changes_from s events ≡ some r
  pub times : SameTimes r events
  pub forks : All (λ x. x.1.from_fork ≡ s.from_fork) r

All-trans_fork :
    (s t : PrState) (r : List (ℕ × PrState))
    → t.from_fork ≡ s.from_fork
    → All (λ x. x.1.from_fork ≡ t.from_fork) r
    → All (λ x. x.1.from_fork ≡ s.from_fork) r
All-trans_fork s t [] e a = tt
All-trans_fork s t (x ∷ r) e a = (a.0 ∙ e, All-trans_fork s t r e a.1)

pub state_changes_from_total :
    (s : PrState) (events : List Event)
    → All (λ e. IsPlain e.change) events
    → (r : List (ℕ × PrState)) × Replays s events r
unfolding state_changes_from
state_changes_from_total s [] p = ([], record { computed = refl; times = tt; forks = tt })
state_changes_from_total s (e ∷ events) p =
    let (t, h) = update_state_total s e.change p.0 in
    let (r, k) = state_changes_from_total t events p.1 in
    let same = update_state-from_fork s t e.change h in
    (
      (e.time, t) ∷ r,
      record {
        computed = rw (h, k.computed);
        times = (refl, k.times);
        forks = (same, All-trans_fork s t r same k.forks);
      },
    )

-- Every state has a status.
pub status_total :
    (t : ℕ) (s : PrState) → (st : PrStatus) × (determine_pr_status t s none ≡ some st)
status_total t s = (
  (if s.from_fork
      then priority_status (ltb retired_review_label t) (counts s none)
      else PrStatus.not_from_fork),
  determine_pr_status-priority_status t s none,
)

-- The status of an entry: `NotFromFork` exactly for a PR that comes from no fork.
abbrev pub ForkStatus : Bool → PrStatus → Type 0
ForkStatus true st = st ≢ PrStatus.not_from_fork
ForkStatus false st = st ≡ PrStatus.not_from_fork

priority_status-ne-not_from_fork :
    (b : Bool) (has : LabelKind → Bool) → priority_status b has ≢ PrStatus.not_from_fork
unfolding priority_status Priority.strongest
priority_status-ne-not_from_fork b has = λ h. ground arith

status-ForkStatus :
    (t : ℕ) (s : PrState) (fork : Bool) → s.from_fork ≡ fork → ForkStatus fork (status_total t s).0
unfolding status_total
status-ForkStatus t s true e =
    simp e (priority_status-ne-not_from_fork (ltb retired_review_label t) (counts s none))
status-ForkStatus t s false e = simp e

-- The statuses of an evolution: one for each entry, at its time.
pub record Classifies (fork : Bool) (events : List Event) (l : List (ℕ × PrState))
    (r : List (ℕ × PrStatus)) : Type 0 where
  pub computed : statuses_of l ≡ some r
  pub times : SameTimes r events
  pub forks : All (λ x. ForkStatus fork x.1) r

statuses_of_total :
    (fork : Bool) (l : List (ℕ × PrState)) (events : List Event)
    → SameTimes l events
    → All (λ x. x.1.from_fork ≡ fork) l
    → (r : List (ℕ × PrStatus)) × Classifies fork events l r
unfolding statuses_of
statuses_of_total fork [] [] e a = ([], record { computed = refl; times = tt; forks = tt })
statuses_of_total fork [] (x ∷ es) e a = absurd e
statuses_of_total fork (x ∷ l) [] e a = absurd e
statuses_of_total fork ((t, s) ∷ l) (x ∷ es) e a =
    let (st, h) = status_total t s in
    let (r, k) = statuses_of_total fork l es e.1 a.1 in
    (
      (t, st) ∷ r,
      record {
        computed = rw (h, k.computed);
        times = (e.0, k.times);
        forks = (status-ForkStatus t s fork a.0, k.forks);
      },
    )

-- What the analysis of plain events finds: an entry at the creation, and one for each event.
pub record Evolves (t : ℕ) (s : PrState) (events : List Event) (st : PrStatus)
    (r : List (ℕ × PrStatus)) : Type 0 where
  pub computed : determine_status_changes t s events ≡ some ((t, st) ∷ r)
  pub times : SameTimes r events
  pub first_fork : ForkStatus s.from_fork st
  pub forks : All (λ x. ForkStatus s.from_fork x.1) r

-- With no removal of several labels at once among the events, the status at every event is computed
-- without an exception: it starts at the given time, has one entry for each event at its time, and
-- is `NotFromFork` throughout or nowhere, as the PR is from the repository itself or from a fork.
pub determine_status_changes_total :
    (t : ℕ) (s : PrState) (events : List Event)
    → All (λ e. IsPlain e.change) events
    → (st : PrStatus) × (r : List (ℕ × PrStatus)) × Evolves t s events st r
unfolding determine_status_changes determine_state_changes statuses_of
determine_status_changes_total t s events p =
    let (l, k) = state_changes_from_total s events p in
    let (r, c) = statuses_of_total s.from_fork l events k.times k.forks in
    let (st, h) = status_total t s in
    (
      st,
      r,
      record {
        computed = rw (k.computed, h, c.computed);
        times = c.times;
        first_fork = status-ForkStatus t s s.from_fork refl;
        forks = c.forks;
      },
    )

-- A timeline holds plain changes only.
pub parse_events-IsPlain :
    (items : List TimelineItem) → All (λ e. IsPlain e.change) (parse_events items)
unfolding parse_events
parse_events-IsPlain [] = tt
parse_events-IsPlain (TimelineItem.labeled t name ∷ items) = (tt, parse_events-IsPlain items)
parse_events-IsPlain (TimelineItem.unlabeled t name ∷ items) = (tt, parse_events-IsPlain items)
parse_events-IsPlain (TimelineItem.ready_for_review t ∷ items) = (tt, parse_events-IsPlain items)
parse_events-IsPlain (TimelineItem.convert_to_draft t ∷ items) = (tt, parse_events-IsPlain items)
parse_events-IsPlain (TimelineItem.other_kind name ∷ items) = parse_events-IsPlain items
