-- ===== src/ZulipPolicy/Policy.antt =====
-- The test of one command and of all of them.
use Prim.Native.Nat.{suc}
use queueboard_core.Prelude.{
  ℕ, zero, ◌+◌, ◌/◌, ◌%◌, Bool, true, false, not, ◌||◌, Option, none, some, List, [], ◌∷◌, ◌++◌,
  if◌then◌else◌, contains, insert, is_empty, ltb, Bool-cases, inl, inr, ◌≡◌, refl, ap, ◌<◌, arith,
  nat_eq,
}
use queueboard_core.Prelude.Text.{Text, text_eq, codes}
use queueboard_core.ZulipPolicy.Membership.{Zulip, Checker, is_member_any}
use queueboard_core.ZulipPolicy.Settings.{
  CommandPolicy, Policies, RawItem, policy_for, load_command_policy,
}

-- The fields of a `CommandContext` that the policy reads.
pub record CommandContext : Type 0 where
  pub sender_id : Option ℕ
  pub stream_id : Option ℕ
  pub is_private : Bool

unfoldable pub is_allowed_sender_id : Option ℕ → Option (List ℕ) → Bool
is_allowed_sender_id sender none = true
is_allowed_sender_id none (some ids) = false
is_allowed_sender_id (some sender) (some ids) = if is_empty ids then false else contains sender ids

-- `str(n)` of a number that is less than the fuel.
decimal_on : ℕ → ℕ → Text
decimal_on zero n = []
decimal_on (suc fuel) n =
    let rest = decimal_on fuel (n / 10) in (if ltb n 10 then [] else rest) ++ (48 + n % 10) ∷ []

unfoldable pub decimal : ℕ → Text
unfolding decimal_on
decimal n = decimal_on (n + 1) n

tenth_smaller : (n f : ℕ) → ltb n 10 ≡ false → n < suc f → n / 10 < f
tenth_smaller n f h a = ground arith

-- More fuel gives the same digits.
decimal_on-enough : (f g n : ℕ) → n < f → n < g → decimal_on f n ≡ decimal_on g n
unfolding decimal_on
decimal_on-enough zero g n a b = absurd (omega (arith, a))
decimal_on-enough (suc f) zero n a b = absurd (omega (arith, b))
decimal_on-enough (suc f) (suc g) n a b = elim (Bool-cases (ltb n 10)) [
  | inl small ↦ rw small refl
  | inr large ↦
      ap (λ r. (if ltb n 10 then [] else r) ++ (48 + n % 10) ∷ [])
        (decimal_on-enough f g (n / 10) (tenth_smaller n f large a) (tenth_smaller n g large b))
]

-- `"stream:*" in allowed_contexts`, then the stream itself, in the context of a stream.
unfoldable pub is_stream_allowed : Option ℕ → List Text → Bool
is_stream_allowed none contexts = contains (codes "stream:*") contexts
is_stream_allowed (some id) contexts =
    contains (codes "stream:*") contexts || contains (codes "stream:" ++ decimal id) contexts

unfoldable pub is_context_allowed : CommandContext → Option (List Text) → Bool
unfolding is_stream_allowed
is_context_allowed context none = true
is_context_allowed context (some contexts) =
    if is_empty contexts
    then false
    else if context.is_private
    then contains (codes "dm") contexts
    else is_stream_allowed context.stream_id contexts

-- The group is checked also where the id of the sender is allowed, so a check that raises is seen.
unfoldable pub is_allowed_by : CommandContext → CommandPolicy → Option Bool → Option Bool
unfolding is_allowed_sender_id is_context_allowed
is_allowed_by context rule none = none
is_allowed_by context rule (some by_group) =
    if not (is_allowed_sender_id context.sender_id rule.allowed_user_ids || by_group)
    then some false
    else some (is_context_allowed context rule.allowed_contexts)

unfoldable pub check_rule :
    Zulip → CommandContext → Option CommandPolicy → Checker → Option Bool × Checker
unfolding is_allowed_by
check_rule zulip context none c = (some false, c)
check_rule zulip context (some rule) c =
    let (by_group, c') = is_member_any zulip context.sender_id rule.allowed_groups c in
    (is_allowed_by context rule by_group, c')

unfoldable pub is_command_allowed :
    Zulip → CommandContext → Policies → Text → Checker → Option Bool × Checker
unfolding check_rule
is_command_allowed zulip context policy name c = check_rule zulip context (policy_for name policy) c

-- `allowed.add` on a yes.
unfoldable pub allow : Text → Option Bool → List Text → List Text
allow name (some true) allowed = insert name allowed
allow name (some false) allowed = allowed
allow name none allowed = allowed

-- An exception ends the loop.
unfoldable pub stop_raised :
    Option Bool → Checker → Option (List Text) × Checker → Option (List Text) × Checker
stop_raised none c rest = (none, c)
stop_raised (some b) c rest = rest

-- The loop over the names of `list_commands()`.
unfoldable pub allowed_loop :
    Zulip
    → CommandContext
    → Policies
    → List Text
    → List Text
    → Checker
    → Option (List Text) × Checker
unfolding is_command_allowed allow stop_raised
allowed_loop zulip context policy allowed [] c = (some allowed, c)
allowed_loop zulip context policy allowed (name ∷ names) c =
    let (answer, c') = is_command_allowed zulip context policy name c in
    stop_raised answer c' (allowed_loop zulip context policy (allow name answer allowed) names c')

unfoldable pub allowed_command_names :
    Zulip
    → CommandContext
    → Option (List RawItem)
    → List Text
    → Checker
    → Option (List Text) × Checker
unfolding allowed_loop
allowed_command_names zulip context raw_policy commands c =
    allowed_loop zulip context (load_command_policy raw_policy) [] commands c
