-- ===== src/ZulipPolicy/Allowed.antt =====
-- Which commands the policy allows.
use queueboard_core.Prelude.{
  ◌≡◌, refl, sym, ap, ◌∙◌, inl, inr, Bool, true, false, not, ◌&&◌, ◌||◌, Option, none, some, List,
  [], ◌∷◌, ◌==◌, any, contains, contains-insert, is_some, Bool-cases, arith, nat_eq,
}
use queueboard_core.Prelude.Text.{Text, text_eq, text_beq_iff}
use queueboard_core.ZulipPolicy.Membership.{Zulip, Checker}
use queueboard_core.ZulipPolicy.Settings.{
  CommandPolicy, Policies, RawItem, policy_for, load_command_policy,
}
use queueboard_core.ZulipPolicy.Policy.{
  CommandContext, is_allowed_sender_id, is_context_allowed, is_allowed_by, check_rule,
  is_command_allowed, allow, stop_raised, allowed_loop, allowed_command_names,
}
use queueboard_core.ZulipPolicy.Cached.{
  any_answer, is_yes, is_raised, IsSound, is_member_any-any_answer,
}

-- What a rule says with no cache, an exception of the group check included.
unfoldable pub rule_answer : Zulip → CommandContext → Option CommandPolicy → Option Bool
rule_answer zulip context none = some false
rule_answer zulip context (some rule) =
    is_allowed_by context rule (any_answer zulip context.sender_id rule.allowed_groups)

-- The sender is allowed by id or by group, and the place is allowed. With no rule, nothing is.
unfoldable pub is_permitted : Zulip → CommandContext → Option CommandPolicy → Bool
is_permitted zulip context none = false
is_permitted zulip context (some rule) =
    (is_allowed_sender_id context.sender_id rule.allowed_user_ids
      || is_yes (any_answer zulip context.sender_id rule.allowed_groups))
    && is_context_allowed context rule.allowed_contexts

-- There is a rule, and the check of its groups raises.
unfoldable pub is_check_raised : Zulip → CommandContext → Option CommandPolicy → Bool
is_check_raised zulip context none = false
is_check_raised zulip context (some rule) =
    is_raised (any_answer zulip context.sender_id rule.allowed_groups)

is_allowed_by_lem :
    (zulip : Zulip) (context : CommandContext) (rule : CommandPolicy) (o : Option Bool) (b : Bool)
    → is_allowed_by context rule o ≡ some b
    → ((is_allowed_sender_id context.sender_id rule.allowed_user_ids || is_yes o)
        && is_context_allowed context rule.allowed_contexts)
      ≡ b
unfolding is_allowed_by
is_allowed_by_lem zulip context rule none b e = absurd (cc)
is_allowed_by_lem zulip context rule (some g) b e = ground arith

is_allowed_by-raised :
    (context : CommandContext) (rule : CommandPolicy) (o : Option Bool)
    → is_raised (is_allowed_by context rule o) ≡ is_raised o
unfolding is_allowed_by
is_allowed_by-raised context rule none = refl
is_allowed_by-raised context rule (some g) = ground arith

rule_answer-permitted :
    (zulip : Zulip) (context : CommandContext) (rule : Option CommandPolicy) (b : Bool)
    → rule_answer zulip context rule ≡ some b
    → is_permitted zulip context rule ≡ b
unfolding rule_answer is_permitted
rule_answer-permitted zulip context none b e = ground arith
rule_answer-permitted zulip context (some rule) b e =
    is_allowed_by_lem zulip context rule (any_answer zulip context.sender_id rule.allowed_groups) b
      e

rule_answer-raised :
    (zulip : Zulip) (context : CommandContext) (rule : Option CommandPolicy)
    → is_raised (rule_answer zulip context rule) ≡ is_check_raised zulip context rule
unfolding rule_answer is_check_raised
rule_answer-raised zulip context none = refl
rule_answer-raised zulip context (some rule) =
    is_allowed_by-raised context rule (any_answer zulip context.sender_id rule.allowed_groups)

check_rule_lem :
    (zulip : Zulip) (context : CommandContext) (rule : Option CommandPolicy) (c : Checker)
    → IsSound zulip c
    → ((check_rule zulip context rule c).0 ≡ rule_answer zulip context rule)
      × IsSound zulip (check_rule zulip context rule c).1
unfolding check_rule rule_answer
check_rule_lem zulip context none c s = (refl, s)
check_rule_lem zulip context (some rule) c s =
    let (e, s') = is_member_any-any_answer zulip context.sender_id rule.allowed_groups c s in
    (ap (is_allowed_by context rule) e, s')

some_inj : (a b : List Text) → some a ≡ some b → a ≡ b
some_inj a b e = cc

-- What the loop finds, by an answer `v` and a test `p` of each name.
abbrev Loop : (Text → Bool) → (Text → Bool) → List Text → List Text → Option (List Text) → Type 0
Loop raises p allowed names r =
    (not (is_some r) ≡ any raises names)
    × ((found : List Text)
        → r ≡ some found
        → (n : Text) → contains n found ≡ (contains n allowed || (contains n names && p n)))

stop_raised_lem :
    (raises p : Text → Bool) (a : Option Bool) (name : Text) (allowed names : List Text)
    (c : Checker) (rest : Option (List Text) × Checker)
    → is_raised a ≡ raises name
    → ((b : Bool) → a ≡ some b → p name ≡ b)
    → Loop raises p (allow name a allowed) names rest.0
    → Loop raises p allowed (name ∷ names) (stop_raised a c rest).0
unfolding stop_raised allow any contains
stop_raised_lem raises p none name allowed names c rest e h l =
    (ground arith, λ found q. absurd (cc))
stop_raised_lem raises p (some true) name allowed names c rest e h l = (
  l.0 ∙ (ground arith),
  λ found q n. elim (Bool-cases (n == name)) [
    | inl z ↦
        let same = (text_beq_iff n name).0 z in
        let yes_name = ap p same ∙ h true refl in
        ground (arith, l.1 found q n, contains-insert name n allowed)
    | inr z ↦ ground (arith, l.1 found q n, contains-insert name n allowed)
  ],
)
stop_raised_lem raises p (some false) name allowed names c rest e h l = (
  l.0 ∙ (ground arith),
  λ found q n. elim (Bool-cases (n == name)) [
    | inl z ↦
        let same = (text_beq_iff n name).0 z in
        let no_name = ap p same ∙ h false refl in ground (arith, l.1 found q n)
    | inr z ↦ ground (arith, l.1 found q n)
  ],
)

allowed_loop_lem :
    (zulip : Zulip) (context : CommandContext) (policy : Policies) (allowed names : List Text)
    (c : Checker)
    → IsSound zulip c
    → Loop
        (λ n. is_check_raised zulip context (policy_for n policy))
        (λ n. is_permitted zulip context (policy_for n policy))
        allowed
        names
        (allowed_loop zulip context policy allowed names c).0
unfolding allowed_loop any contains is_command_allowed
allowed_loop_lem zulip context policy allowed [] c s =
    (refl, λ found q n. ground (arith, ap (contains n) (some_inj allowed found q)))
allowed_loop_lem zulip context policy allowed (name ∷ names) c s =
    let rule = policy_for name policy in
    let (e, s') = check_rule_lem zulip context rule c s in
    let answer = (check_rule zulip context rule c).0 in
    let c' = (check_rule zulip context rule c).1 in
    stop_raised_lem (λ n. is_check_raised zulip context (policy_for n policy))
      (λ n. is_permitted zulip context (policy_for n policy)) answer name allowed names c'
      (allowed_loop zulip context policy (allow name answer allowed) names c')
      (ap is_raised e ∙ rule_answer-raised zulip context rule)
      (λ b q. rule_answer-permitted zulip context rule b (sym e ∙ q))
      (allowed_loop_lem zulip context policy (allow name answer allowed) names c' s')

-- With a checker that knows only what is so: the listing raises exactly where the group check of some
-- command that has a rule raises; else it has exactly the commands whose rule allows the sender, by
-- id or by group, and the place. A command with no rule is never in it.
pub allowed_command_names-permitted :
    (zulip : Zulip) (context : CommandContext) (raw_policy : Option (List RawItem))
    (commands : List Text) (c : Checker)
    → IsSound zulip c
    → (not (is_some (allowed_command_names zulip context raw_policy commands c).0)
        ≡ any
            (λ n. is_check_raised zulip context (policy_for n (load_command_policy raw_policy)))
            commands)
      × ((found : List Text)
          → (allowed_command_names zulip context raw_policy commands c).0 ≡ some found
          → (n : Text)
          → contains n found ≡ (
              contains n commands
              && is_permitted zulip context (policy_for n (load_command_policy raw_policy))))
unfolding allowed_command_names contains
allowed_command_names-permitted zulip context raw_policy commands c s =
    allowed_loop_lem zulip context (load_command_policy raw_policy) [] commands c s
