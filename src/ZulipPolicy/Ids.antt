-- ===== src/ZulipPolicy/Ids.antt =====
-- What the sets of ids read from the settings.
use queueboard_core.Prelude.{
  ℕ, ◌≡◌, refl, ◌∙◌, inl, inr, Bool, true, false, not, ◌&&◌, ◌||◌, none, some, List, [], ◌∷◌, ◌==◌,
  any, contains, contains-insert, is_some, Bool-cases, arith, ltb, nat_eq,
}
use queueboard_core.ZulipPolicy.Membership.{Value}
use queueboard_core.ZulipPolicy.Settings.{
  Parsed, nothing_parsed, is_wildcard, parse_id, parse_ids, parse_id_set,
}

unfoldable pub names_everyone : Value → Bool
names_everyone (Value.string s) = is_wildcard s
names_everyone _ = false

-- The value is the positive integer `n`.
unfoldable pub is_id : ℕ → Value → Bool
is_id n (Value.number m) = ltb 0 m && n == m
is_id n (Value.bool b) = b && n == 1
is_id n _ = false

parse_id_lem :
    (p : Parsed ℕ) (v : Value) (n : ℕ)
    → ((parse_id p v).unrestricted ≡ (p.unrestricted || names_everyone v))
      × (contains n (parse_id p v).parsed ≡ (contains n p.parsed || is_id n v))
unfolding parse_id names_everyone is_id
parse_id_lem p (Value.bool true) n = (ground arith, ground (arith, contains-insert 1 n p.parsed))
parse_id_lem p (Value.bool false) n = (ground arith, ground arith)
parse_id_lem p (Value.number m) n = elim (Bool-cases (ltb 0 m)) [
  | inl z ↦ rw z (ground arith, ground (arith, contains-insert m n p.parsed))
  | inr z ↦ rw z (ground arith, ground arith)
]
parse_id_lem p Value.negative n = (ground arith, ground arith)
parse_id_lem p (Value.string s) n = elim (Bool-cases (is_wildcard s)) [
  | inl z ↦ rw z (ground arith, ground arith)
  | inr z ↦ rw z (ground arith, ground arith)
]
parse_id_lem p Value.other n = (ground arith, ground arith)

parse_ids_lem :
    (p : Parsed ℕ) (vs : List Value) (n : ℕ)
    → ((parse_ids p vs).unrestricted ≡ (p.unrestricted || any names_everyone vs))
      × (contains n (parse_ids p vs).parsed ≡ (contains n p.parsed || any (is_id n) vs))
unfolding parse_ids any
parse_ids_lem p [] n = (ground arith, ground arith)
parse_ids_lem p (v ∷ vs) n =
    let (a, b) = parse_id_lem p v n in
    let (a', b') = parse_ids_lem (parse_id p v) vs n in
    (a' ∙ (ground (arith, a)), b' ∙ (ground (arith, b)))

-- A list of group or user ids is no restriction where it has a wildcard, wherever that stands; else
-- it is the set of the positive integers of the list, and other values are dropped. A setting that is
-- missing or no list allows no one.
pub parse_id_set-ids :
    (vs : List Value)
    → (parse_id_set none ≡ some [])
      × (not (is_some (parse_id_set (some vs))) ≡ any names_everyone vs)
      × ((found : List ℕ)
          → parse_id_set (some vs) ≡ some found
          → (n : ℕ) → contains n found ≡ any (is_id n) vs)
unfolding parse_id_set contains
parse_id_set-ids vs = (
  refl,
  ground (arith, parse_ids_lem nothing_parsed vs 0),
  λ found e n. ground (arith, parse_ids_lem nothing_parsed vs n),
)
