-- ===== src/QueueWindows/Recomputed.antt =====
-- The sweep over the boundary times reads at each of them what one pass up to it reads.
use queueboard_core.Prelude.{
  ℕ, ◌≤◌, ◌≡◌, refl, sym, ap, ◌∙◌, inl, inr, Bool, true, false, Option, List, [], ◌∷◌, ◌++◌, leb,
  if◌then◌else◌, Bool-cases, arith,
}
use queueboard_core.Prelude.Text.{Text}
use queueboard_core.QueueWindows.Timeline.{apply_event, closed_by_time}
use queueboard_core.QueueWindows.Sweep.{
  taken, left, fold, event_by, revision_by, latest, Scan, close_by, advance,
}

module _ {ℓ} {A : Type ℓ} (p q : A → Bool) (wider : (a : A) → p a ≡ true → q a ≡ true) where
  taken-left : (xs : List A) → taken q xs ≡ taken p xs ++ taken q (left p xs)
  unfolding taken left
  taken-left [] = refl
  taken-left (a ∷ xs) = elim (Bool-cases (p a)) [
    | inl e ↦ rw (e, wider a e) (ap (λ l. a ∷ l) (taken-left xs))
    | inr e ↦ rw e refl
  ]

  left-left : (xs : List A) → left q (left p xs) ≡ left q xs
  unfolding left
  left-left [] = refl
  left-left (a ∷ xs) = elim (Bool-cases (p a)) [
    | inl e ↦ rw (e, wider a e) (left-left xs)
    | inr e ↦ rw e refl
  ]

fold-append {ℓ κ} :
    {A : Type ℓ} {B : Type κ} (f : A → B → B) (xs ys : List A) (b : B)
    → fold f (xs ++ ys) b ≡ fold f ys (fold f xs b)
unfolding fold
fold-append f [] ys b = refl
fold-append f (a ∷ xs) ys b = fold-append f xs ys (f a b)

-- A loop up to one bound and then up to a wider one is the loop up to the wider one.
fold-taken {ℓ κ} :
    {A : Type ℓ} {B : Type κ} (f : A → B → B) (p q : A → Bool)
    → ((a : A) → p a ≡ true → q a ≡ true)
    → (xs : List A) (b : B)
    → fold f (taken q (left p xs)) (fold f (taken p xs) b) ≡ fold f (taken q xs) b
fold-taken f p q wider xs b = sym (
    ap (λ l. fold f l b) (taken-left p q wider xs)
    ∙ fold-append f (taken p xs) (taken q (left p xs)) b)

-- The times rise from `lo`.
abbrev pub Rising : ℕ → List ℕ → Type 0
Rising lo [] = Unit
Rising lo (t ∷ ts) = (lo ≤ t) × Rising t ts

-- The last of rising times up to `x`, or else `lo`.
unfoldable pub last_by : ℕ → ℕ → List ℕ → ℕ
last_by x lo [] = lo
last_by x lo (t ∷ ts) = let rest = last_by x t ts in if leb t x then rest else lo

-- What the loop has read of the events and the revisions at the time `lo`, from the start.
pub record Reached (s0 : Scan) (lo : ℕ) (s : Scan) : Type 0 where
  pub state_read : s.state ≡ fold apply_event (taken (event_by lo) s0.events) s0.state
  pub rev_read : s.current_rev ≡ fold latest (taken (revision_by lo) s0.revisions) s0.current_rev
  pub events_left : s.events ≡ left (event_by lo) s0.events
  pub revisions_left : s.revisions ≡ left (revision_by lo) s0.revisions

module _ (closed : Option ℕ) (required : List Text) where
  abbrev pub step : ℕ → Scan → Scan
  step = advance closed required

  pub advance-first : (t : ℕ) (s : Scan) → closed_by_time closed t ≡ false → Reached s t (step t s)
  unfolding advance close_by
  advance-first t s e = record {
    state_read = rw e refl;
    rev_read = refl;
    events_left = refl;
    revisions_left = refl;
  }

  pub advance-Reached :
      (s0 s : Scan) (lo t : ℕ)
      → lo ≤ t
      → closed_by_time closed t ≡ false
      → Reached s0 lo s
      → Reached s0 t (step t s)
  unfolding advance close_by
  advance-Reached s0 s lo t le e r =
      let events = r.events_left in
      let revisions = r.revisions_left in
      record {
        state_read = rw e (
            ap (λ l. fold apply_event (taken (event_by t) l) s.state) events
            ∙ ap (fold apply_event (taken (event_by t) (left (event_by lo) s0.events))) r.state_read
            ∙ fold-taken apply_event (event_by lo) (event_by t) (λ a h. ground arith) s0.events
                s0.state);
        rev_read =
            ap (λ l. fold latest (taken (revision_by t) l) s.current_rev) revisions
            ∙ ap (fold latest (taken (revision_by t) (left (revision_by lo) s0.revisions)))
                r.rev_read
            ∙ fold-taken latest (revision_by lo) (revision_by t) (λ a h. ground arith) s0.revisions
                s0.current_rev;
        events_left =
            ap (left (event_by t)) events
            ∙ left-left (event_by lo) (event_by t) (λ a h. ground arith) s0.events;
        revisions_left =
            ap (left (revision_by t)) revisions
            ∙ left-left (revision_by lo) (revision_by t) (λ a h. ground arith) s0.revisions;
      }
