-- ===== src/RateBudget/Choose.antt =====
-- `choose_token`. What Redis has of a token is its snapshot, where there is one that is a dict.
use queueboard_core.Prelude.{
  ◌+◌, ℕ, Bool, false, not, ◌&&◌, Option, none, some, List, [], ◌∷◌, ◌++◌, if◌then◌else◌, is_empty,
  keep, ltb,
}
use queueboard_core.Prelude.Int.{ℤ, pos, pos_part, neg_part}
use queueboard_core.Prelude.Text.{Text, text_eq}
use queueboard_core.Prelude.Dict.{put}

-- `remaining` where it is an integer, and `resetAt` where it is text that `fromisoformat` reads, as
-- microseconds since 1970. An empty dict is no snapshot, as for the code.
pub record Snapshot : Type 0 where
  pub remaining : Option ℤ
  pub reset_at : Option ℕ

pub record Found : Type 0 where
  pub above_threshold : List (ℤ × Text)
  pub low_budget : List (ℤ × Text)
  pub unknown : List Text
  pub exhausted : List (ℕ × Text)

abbrev pub nothing_found : Found
nothing_found = record { above_threshold = []; low_budget = []; unknown = []; exhausted = [] }

abbrev pub lt_int : ℤ → ℤ → Bool
lt_int a b = ltb (pos_part a + neg_part b) (pos_part b + neg_part a)

abbrev pub is_later : Option ℕ → ℕ → Bool
is_later none now = false
is_later (some t) now = ltb now t

unfoldable pub add_exhausted : Option ℕ → Text → Found → Found
add_exhausted none token f = f
add_exhausted (some t) token f = record f { exhausted = f.exhausted ++ (t, token) ∷ [] }

unfoldable pub take_remaining : ℤ → ℕ → Option ℤ → Option ℕ → Text → Found → Found
unfolding add_exhausted
take_remaining threshold now none reset token f = record f { unknown = f.unknown ++ token ∷ [] }
take_remaining threshold now (some rem) reset token f =
    if not (lt_int (pos 0) rem) && is_later reset now
    then add_exhausted reset token f
    else if lt_int threshold rem
    then record f { above_threshold = f.above_threshold ++ (rem, token) ∷ [] }
    else if lt_int (pos 0) rem
    then record f { low_budget = f.low_budget ++ (rem, token) ∷ [] }
    else add_exhausted reset token f

unfoldable pub take_token : ℤ → ℕ → Option Snapshot → Text → Found → Found
unfolding take_remaining
take_token threshold now none token f = record f { unknown = f.unknown ++ token ∷ [] }
take_token threshold now (some snap) token f =
    take_remaining threshold now snap.remaining snap.reset_at token f

unfoldable pub sort_tokens : ℤ → ℕ → (Text → Option Snapshot) → List (Text × Text) → Found → Found
unfolding take_token
sort_tokens threshold now snapshots [] f = f
sort_tokens threshold now snapshots ((id, token) ∷ ids) f =
    sort_tokens threshold now snapshots ids (take_token threshold now (snapshots id) token f)

-- `max(pairs, key=lambda x: x[0])` and `min(...)`: the first of the best keys.
unfoldable pub best_by : {K : Type 0} → (K → K → Bool) → K × Text → List (K × Text) → Text
best_by better best [] = best.1
best_by better best (p ∷ ps) = best_by better (if better p.0 best.0 then p else best) ps

abbrev pub greater_int : ℤ → ℤ → Bool
greater_int a b = lt_int b a

unfoldable pub pick : (List Text → Text) → List Text → Found → Text
unfolding best_by
pick random tokens f = elim f.above_threshold [
  | p ∷ ps ↦ best_by greater_int p ps
  | [] ↦ elim f.low_budget [
    | p ∷ ps ↦ best_by greater_int p ps
    | [] ↦
        if not (is_empty f.unknown)
        then random f.unknown
        else elim f.exhausted [ p ∷ ps ↦ best_by ltb p ps | [] ↦ random tokens ]
  ]
]

-- `{token_fingerprint(t): t for t in tokens}`
unfoldable pub by_fingerprint : (Text → Text) → List (Text × Text) → List Text → List (Text × Text)
by_fingerprint fingerprint ids [] = ids
by_fingerprint fingerprint ids (t ∷ tokens) =
    by_fingerprint fingerprint (put (fingerprint t) t ids) tokens

unfoldable pub choose_from :
    (Text → Text) → (Text → Option Snapshot) → (List Text → Text) → ℤ → ℕ → List Text → Option Text
unfolding by_fingerprint sort_tokens pick
choose_from fingerprint snapshots random threshold now [] = none
choose_from fingerprint snapshots random threshold now (t ∷ tokens) = some (
    pick random (t ∷ tokens) (
      sort_tokens threshold now snapshots (by_fingerprint fingerprint [] (t ∷ tokens))
        nothing_found))

unfoldable pub choose_token :
    (Text → Text) → (Text → Option Snapshot) → (List Text → Text) → ℤ → ℕ → List Text → Option Text
unfolding choose_from
choose_token fingerprint snapshots random threshold now tokens =
    choose_from fingerprint snapshots random threshold now (keep (λ t. not (is_empty t)) tokens)
