-- ===== src/Revisions/Current.antt =====
-- The window of the current head.
use queueboard_core.Prelude.{
  ◌⊎◌, ℕ, ◌+◌, ◌≤◌, ◌<◌, ◌≡◌, refl, true, false, Option, none, some, List, [], ◌∷◌, ltb, leb,
  if◌then◌else◌, is_empty, Bool-cases, inl, inr, arith, beq_refl,
}
use queueboard_core.Prelude.Text.{Text, text_eq, strip}
use queueboard_core.Revisions.Windows.{Window}
use queueboard_core.Revisions.Heads.{
  proposed_ts, current_head_change_ts, follow_last, last_sha, ends_with, existing_from_ts,
  ensure_current_head_window,
}
use queueboard_core.Revisions.Meeting.{Meets, Meets-cons}

-- The time at which the current head took over is after the start of the window ahead, and not in
-- the future, or else one second after that start.
pub current_head_change_ts-bounds :
    (now : ℕ) (gh_updated_at : Option ℕ) (prev : ℕ) (existing : Option ℕ)
    → let ts = current_head_change_ts now gh_updated_at prev existing in
      (prev < ts) × ((ts ≤ now) ⊎ (ts ≡ prev + 1000000))
unfolding current_head_change_ts
current_head_change_ts-bounds now gh_updated_at prev existing = (
  ground arith,
  elim (Bool-cases (
      leb
        (if ltb now (proposed_ts now gh_updated_at prev existing)
          then now
          else proposed_ts now gh_updated_at prev existing)
        prev)) [ inl p ↦ inr (ground arith) | inr p ↦ inl (ground arith) ],
)

follow_last-sha :
    (change : ℕ → ℕ) (head : Text) (w : Window) (ws : List Window)
    → last_sha (follow_last change head (w ∷ ws)) ≡ some head
unfolding follow_last last_sha
follow_last-sha change head w [] = refl
follow_last-sha change head w (v ∷ []) = refl
follow_last-sha change head w (v ∷ u ∷ ws) = follow_last-sha change head v (u ∷ ws)

follow_last-Meets :
    (change : ℕ → ℕ) (head : Text) (start : ℕ) (ws : List Window)
    → ((prev : ℕ) → prev ≤ change prev)
    → Meets start ws none
    → Meets start (follow_last change head ws) none
unfolding follow_last Meets
follow_last-Meets change head start [] later m = m
follow_last-Meets change head start (w ∷ []) later m =
    (m.0, refl, later w.from_ts, (refl, refl, tt))
follow_last-Meets change head start (w ∷ v ∷ ws) later m =
    Meets-cons start v.from_ts w (follow_last change head (v ∷ ws)) none m.0 m.1
      (omega (arith, m.0, m.2)) (follow_last-Meets change head v.from_ts (v ∷ ws) later m.3)

-- `change` closes the last window, where there is one.
follow_lem :
    (change : ℕ → ℕ) (head : Text) (created : ℕ) (ws : List Window)
    → ((prev : ℕ) → prev ≤ change prev)
    → let result =
        if is_empty ws
        then record { from_ts = created; sha = head; to_ts = none } ∷ []
        else follow_last change head ws in
      (ends_with (last_sha result) head ≡ true)
      × (Meets created ws none → Meets created result none)
unfolding last_sha Meets
follow_lem change head created [] later = (beq_refl head, λ m. absurd m)
follow_lem change head created (w ∷ ws) later = (
  rw (follow_last-sha change head w ws) (beq_refl head),
  follow_last-Meets change head created (w ∷ ws) later,
)

-- Where the PR has a current head, the last window is the one of that head, and windows that met
-- each other from the PR's creation to the open end still do.
pub ensure_current_head_window-tracks :
    (now gh_created_at : ℕ) (gh_updated_at : Option ℕ) (head_sha : Text)
    (stored windows : List Window)
    → is_empty (strip head_sha) ≡ false
    → let result =
        ensure_current_head_window now gh_created_at gh_updated_at head_sha stored windows in
      (ends_with (last_sha result) (strip head_sha) ≡ true)
      × (Meets gh_created_at windows none → Meets gh_created_at result none)
unfolding ensure_current_head_window
ensure_current_head_window-tracks now created updated sha stored windows e =
    let head = strip sha in
    elim (Bool-cases (ends_with (last_sha windows) head)) [
      | inl p ↦ rw (e, p) (p, λ m. m)
      | inr p ↦
          rw (e, p)
            (follow_lem
              (λ prev. current_head_change_ts now updated prev (existing_from_ts head stored)) head
              created windows
              (λ prev. omega (
                arith,
                (current_head_change_ts-bounds now updated prev (existing_from_ts head stored)).0,
              )))
    ]
