-- ===== src/ZulipPolicy/Cached.antt =====
-- What the cache keeps is what the server answers, so that a check with a cache answers as one
-- without.
use queueboard_core.Prelude.{
  ◌||◌, not, ℕ, ◌≡◌, refl, sym, ap, ◌∙◌, subst, inl, inr, Bool, true, false, ◌&&◌, Option, none,
  some, List, [], ◌∷◌, ◌==◌, if◌then◌else◌, any, nat_eq, nat_beq_iff, Bool-cases, is_empty, All,
  arith,
}
use queueboard_core.ZulipPolicy.Membership.{
  failed_with, stop_or, cached_or_ask, client_from, Zulip, Cached, Checker, new_checker, cached,
  keep_answer, get_client, answer_of, keep_if_answered, ask, is_member, member_loop, is_member_any,
}

-- The answer on one group with no cache: `False` where Zulip is not configured, and `none` where the
-- request fails or its payload has no Boolean.
unfoldable pub member_answer : Zulip → ℕ → ℕ → Option Bool
member_answer zulip user group =
    if zulip.is_configured then answer_of (zulip.respond group user) else some false

abbrev pub is_yes : Option Bool → Bool
is_yes none = false
is_yes (some b) = b

abbrev pub is_raised : Option Bool → Bool
is_raised none = true
is_raised (some b) = false

-- A yes on any group is a yes; else a failure on any group raises.
abbrev pub summary : Bool → Bool → Option Bool
summary found failed = if found then some true else if failed then none else some false

unfoldable pub any_answer : Zulip → Option ℕ → Option (List ℕ) → Option Bool
any_answer zulip user none = some true
any_answer zulip none (some groups) = some false
any_answer zulip (some user) (some groups) =
    summary (any (λ g. is_yes (member_answer zulip user g)) groups)
      (any (λ g. is_raised (member_answer zulip user g)) groups)

abbrev pub IsTrueEntry : Zulip → Cached → Type 0
IsTrueEntry zulip e = member_answer zulip e.user e.group ≡ some e.is_member

-- The checker knows only what is so.
abbrev pub IsSound : Zulip → Checker → Type 0
IsSound zulip c =
    All (IsTrueEntry zulip) c.cache
    × (c.has_client ≡ true → zulip.is_configured ≡ true)
    × (c.client_unavailable ≡ true → zulip.is_configured ≡ false)

same_key : (a b c d : ℕ) → (a == b && c == d) ≡ true → (a ≡ b) × (c ≡ d)
same_key a b c d h = ((nat_beq_iff a b).0 (ground arith), (nat_beq_iff c d).0 (ground arith))

cached-All :
    (zulip : Zulip) (user group : ℕ) (b : Bool) (cs : List Cached)
    → All (IsTrueEntry zulip) cs
    → cached user group cs ≡ some b
    → member_answer zulip user group ≡ some b
unfolding cached
cached-All zulip user group b [] h e = absurd (cc)
cached-All zulip user group b (c ∷ cs) (h, hs) e =
    elim (Bool-cases (c.user == user && c.group == group)) [
      | inl p ↦
          let at_user =
            subst (λ u. member_answer zulip u c.group ≡ some c.is_member)
              (same_key c.user user c.group group p).0 h in
          let at_group =
            subst (λ g. member_answer zulip user g ≡ some c.is_member)
              (same_key c.user user c.group group p).1 at_user in
          at_group ∙ (ground arith)
      | inr p ↦ cached-All zulip user group b cs hs (ground arith)
    ]

client_from_lem :
    (zulip : Zulip) (has unavailable configured : Bool) (c : Checker)
    → IsSound zulip c
    → c.has_client ≡ has
    → c.client_unavailable ≡ unavailable
    → zulip.is_configured ≡ configured
    → ((client_from has unavailable configured c).0 ≡ configured)
      × IsSound zulip (client_from has unavailable configured c).1
unfolding client_from
client_from_lem zulip true u k c s a b e = (sym (s.1 a) ∙ e, s)
client_from_lem zulip false true k c s a b e = (sym (s.2 b) ∙ e, s)
client_from_lem zulip false false true c (h, has, un) a b e = (refl, (h, λ _. e, un))
client_from_lem zulip false false false c (h, has, un) a b e = (refl, (h, has, λ _. e))

-- The client is there if and only if Zulip is configured, and the cache is not touched.
get_client_lem :
    (zulip : Zulip) (c : Checker)
    → IsSound zulip c
    → ((get_client zulip c).0 ≡ zulip.is_configured) × IsSound zulip (get_client zulip c).1
unfolding get_client
get_client_lem zulip c s =
    client_from_lem zulip c.has_client c.client_unavailable zulip.is_configured c s refl refl refl

keep_if_answered_lem :
    (zulip : Zulip) (user group : ℕ) (o : Option Bool) (c : Checker)
    → IsSound zulip c
    → member_answer zulip user group ≡ o
    → ((keep_if_answered user group o c).0 ≡ o) × IsSound zulip (keep_if_answered user group o c).1
unfolding keep_if_answered keep_answer
keep_if_answered_lem zulip user group none c s e = (refl, s)
keep_if_answered_lem zulip user group (some b) c (h, has, un) e = (refl, ((e, h), has, un))

cached_or_ask_lem :
    (zulip : Zulip) (user group : ℕ) (o : Option Bool) (c : Checker)
    → IsSound zulip c
    → ((b : Bool) → o ≡ some b → member_answer zulip user group ≡ some b)
    → ((cached_or_ask zulip user group o c).0 ≡ member_answer zulip user group)
      × IsSound zulip (cached_or_ask zulip user group o c).1
unfolding cached_or_ask ask member_answer
cached_or_ask_lem zulip user group (some b) c s h = (sym (h b refl), s)
cached_or_ask_lem zulip user group none c s h =
    let (e, s') = get_client_lem zulip c s in
    let a = ap (λ b. if b then answer_of (zulip.respond group user) else some false) e in
    let (q, s'') =
      keep_if_answered_lem zulip user group
        (if (get_client zulip c).0 then answer_of (zulip.respond group user) else some false)
        (get_client zulip c).1 s' (sym a) in
    (q ∙ a, s'')

-- A check on one group answers what the server answers, and the checker still knows only what is so.
pub is_member_lem :
    (zulip : Zulip) (user group : ℕ) (c : Checker)
    → IsSound zulip c
    → ((is_member zulip user group c).0 ≡ member_answer zulip user group)
      × IsSound zulip (is_member zulip user group c).1
unfolding is_member
is_member_lem zulip user group c s =
    cached_or_ask_lem zulip user group (cached user group c.cache) c s
      (λ b e. cached-All zulip user group b c.cache s.0 e)

stop_or_lem :
    (zulip : Zulip) (a : Option Bool) (g : ℕ) (errors : List ℕ) (found failed : Bool) (c : Checker)
    (rest : Option Bool × Checker)
    → IsSound zulip c
    → rest.0 ≡ summary found (not (is_empty (failed_with g a errors)) || failed)
    → IsSound zulip rest.1
    → ((stop_or a c rest).0
        ≡ summary (is_yes a || found) (not (is_empty errors) || (is_raised a || failed)))
      × IsSound zulip (stop_or a c rest).1
unfolding stop_or failed_with
stop_or_lem zulip (some true) g errors found failed c rest s h r = (refl, s)
stop_or_lem zulip (some false) g errors found failed c rest s h r = (h, r)
stop_or_lem zulip none g [] found failed c rest s h r = (h, r)
stop_or_lem zulip none g (e ∷ errors) found failed c rest s h r = (h, r)

-- With the groups that have failed so far.
member_loop_lem :
    (zulip : Zulip) (user : ℕ) (groups errors : List ℕ) (c : Checker)
    → IsSound zulip c
    → ((member_loop zulip user groups errors c).0
        ≡ summary
            (any (λ g. is_yes (member_answer zulip user g)) groups)
            (not (is_empty errors) || any (λ g. is_raised (member_answer zulip user g)) groups))
      × IsSound zulip (member_loop zulip user groups errors c).1
unfolding member_loop any
member_loop_lem zulip user [] [] c s = (refl, s)
member_loop_lem zulip user [] (e ∷ errors) c s = (refl, s)
member_loop_lem zulip user (g ∷ groups) errors c s =
    let (e, s') = is_member_lem zulip user g c s in
    let answer = (is_member zulip user g c).0 in
    let c' = (is_member zulip user g c).1 in
    let (h, r) = member_loop_lem zulip user groups (failed_with g answer errors) c' s' in
    let (q, t) =
      stop_or_lem zulip answer g errors (any (λ x. is_yes (member_answer zulip user x)) groups)
        (any (λ x. is_raised (member_answer zulip user x)) groups) c'
        (member_loop zulip user groups (failed_with g answer errors) c') s' h r in
    (
      q
          ∙ ap
              (λ a. summary (is_yes a || any (λ x. is_yes (member_answer zulip user x)) groups) (
                not (is_empty errors)
                || (is_raised a || any (λ x. is_raised (member_answer zulip user x)) groups)))
              e,
      t,
    )

-- A checker that knows only what is so answers as a check of every group with no cache does: yes where
-- the set is not restricted or some group of it has the user; else an exception where some check
-- fails; else no. It still knows only what is so, also where it raises.
pub is_member_any-any_answer :
    (zulip : Zulip) (user : Option ℕ) (groups : Option (List ℕ)) (c : Checker)
    → IsSound zulip c
    → ((is_member_any zulip user groups c).0 ≡ any_answer zulip user groups)
      × IsSound zulip (is_member_any zulip user groups c).1
unfolding is_member_any any_answer any
is_member_any-any_answer zulip none none c s = (refl, s)
is_member_any-any_answer zulip (some user) none c s = (refl, s)
is_member_any-any_answer zulip none (some []) c s = (refl, s)
is_member_any-any_answer zulip (some user) (some []) c s = (refl, s)
is_member_any-any_answer zulip none (some (g ∷ gs)) c s = (refl, s)
is_member_any-any_answer zulip (some user) (some (g ∷ gs)) c s =
    member_loop_lem zulip user (g ∷ gs) [] c s

pub new_checker-IsSound : (zulip : Zulip) → IsSound zulip new_checker
new_checker-IsSound zulip = (tt, (λ e. absurd (cc)), (λ e. absurd (cc)))
