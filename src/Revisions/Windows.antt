-- ===== src/Revisions/Windows.antt =====
-- Revision windows, their normalisation, and the check of the stored ones.
use queueboard_core.Prelude.{
  ℕ, Bool, true, false, not, ◌||◌, Option, none, some, List, [], ◌∷◌, leb, ◌==◌, nat_eq,
  if◌then◌else◌,
}
use queueboard_core.Prelude.Text.{Text}
use queueboard_core.Prelude.Sorting.{sorted}

pub record Window : Type 0 where
  pub from_ts : ℕ
  pub sha : Text
  pub to_ts : Option ℕ

abbrev pub starts_before : Window → Window → Bool
starts_before v w = leb v.from_ts w.from_ts

-- `to_ts is not None and to_ts <= from_ts`
abbrev pub is_malformed : Window → Bool
is_malformed w = elim w.to_ts [ none ↦ false | some t ↦ leb t w.from_ts ]

-- `forward and from_ts <= forward[-1][0]`, by the start of the last window that was kept.
abbrev pub is_stale : Option ℕ → Window → Bool
is_stale none w = false
is_stale (some last) w = leb w.from_ts last

unfoldable pub forward_of : Option ℕ → List Window → List Window
forward_of last [] = []
forward_of last (w ∷ ws) =
    let dropped = forward_of last ws in
    let kept = w ∷ forward_of (some w.from_ts) ws in
    if is_malformed w || is_stale last w then dropped else kept

unfoldable pub stitched : List Window → List Window
stitched [] = []
stitched (w ∷ []) = w ∷ []
stitched (w ∷ v ∷ ws) = record w { to_ts = some v.from_ts } ∷ stitched (v ∷ ws)

unfoldable pub normalize_windows : List Window → List Window
unfolding forward_of stitched
normalize_windows windows = stitched (forward_of none (sorted starts_before windows))

-- `to_ts is None or to_ts <= from_ts or to_ts != rows[i + 1][0]`
abbrev pub is_broken : Window → Window → Bool
is_broken w next = elim w.to_ts [
  | none ↦ true
  | some t ↦ leb t w.from_ts || not (t == next.from_ts)
]

unfoldable pub revisions_need_recontiguation : List Window → Bool
revisions_need_recontiguation [] = false
revisions_need_recontiguation (w ∷ []) = is_malformed w
revisions_need_recontiguation (w ∷ v ∷ ws) = is_broken w v || revisions_need_recontiguation (v ∷ ws)
