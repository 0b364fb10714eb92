-- ===== src/ZulipPolicy/Membership.antt =====
-- `GroupMembershipChecker`: its cache, its client, and the loop over groups. An exception
-- `GroupMembershipCheckError` is `none`; what the checker keeps survives it.
use queueboard_core.Prelude.{
  ℕ, Bool, true, false, ◌&&◌, Option, none, some, List, [], ◌∷◌, ◌==◌, if◌then◌else◌, is_empty,
  nat_eq,
}
use queueboard_core.Prelude.Text.{Text}

-- A value of a JSON payload or of the settings.
pub data Value : Type 0 where
  bool : Bool → Value
  number : ℕ → Value
  negative : Value
  string : Text → Value
  other : Value

-- What a request to Zulip gives: `ZulipApiError`, or a payload with the value of its key
-- `is_user_group_member`.
pub data Response : Type 0 where
  api_error : Response
  payload : Option Value → Response

-- The server, which is not code of the program: whether `ZulipClient()` finds its settings, and the
-- response on a group and a user.
pub record Zulip : Type 0 where
  pub is_configured : Bool
  pub respond : ℕ → ℕ → Response

pub record Cached : Type 0 where
  pub user : ℕ
  pub group : ℕ
  pub is_member : Bool

pub record Checker : Type 0 where
  pub cache : List Cached
  pub has_client : Bool
  pub client_unavailable : Bool

-- `__init__`
abbrev pub new_checker : Checker
new_checker = record { cache = []; has_client = false; client_unavailable = false }

-- `self._cache.get((user, group))`
unfoldable pub cached : ℕ → ℕ → List Cached → Option Bool
cached user group [] = none
cached user group (c ∷ cs) =
    let rest = cached user group cs in
    if c.user == user && c.group == group then some c.is_member else rest

-- `self._cache[(user, group)] = is_member`, where the newest entry of a key is the one that is read.
unfoldable pub keep_answer : ℕ → ℕ → Bool → Checker → Checker
keep_answer user group b c = record c {
  cache = record { user = user; group = group; is_member = b } ∷ c.cache;
}

unfoldable pub parse_is_user_group_member : Option Value → Option Bool
parse_is_user_group_member (some (bool b)) = some b
parse_is_user_group_member _ = none

-- By `self._client is not None`, `self._client_unavailable` and whether `ZulipClient()` succeeds.
unfoldable pub client_from : Bool → Bool → Bool → Checker → Bool × Checker
client_from true unavailable configured c = (true, c)
client_from false true configured c = (false, c)
client_from false false true c = (true, record c { has_client = true })
client_from false false false c = (false, record c { client_unavailable = true })

unfoldable pub get_client : Zulip → Checker → Bool × Checker
unfolding client_from
get_client zulip c = client_from c.has_client c.client_unavailable zulip.is_configured c

-- The answer of a response, where `none` raises.
unfoldable pub answer_of : Response → Option Bool
unfolding parse_is_user_group_member
answer_of api_error = none
answer_of (payload field) = parse_is_user_group_member field

unfoldable pub keep_if_answered : ℕ → ℕ → Option Bool → Checker → Option Bool × Checker
unfolding keep_answer
keep_if_answered user group none c = (none, c)
keep_if_answered user group (some b) c = (some b, keep_answer user group b c)

-- The request, or `False` where there is no client.
unfoldable pub ask : Zulip → ℕ → ℕ → Bool × Checker → Option Bool × Checker
unfolding answer_of keep_if_answered
ask zulip user group (has_client, c) =
    keep_if_answered user group
      (if has_client then answer_of (zulip.respond group user) else some false) c

-- By what the cache has.
unfoldable pub cached_or_ask : Zulip → ℕ → ℕ → Option Bool → Checker → Option Bool × Checker
unfolding get_client ask
cached_or_ask zulip user group (some b) c = (some b, c)
cached_or_ask zulip user group none c = ask zulip user group (get_client zulip c)

unfoldable pub is_member : Zulip → ℕ → ℕ → Checker → Option Bool × Checker
unfolding cached cached_or_ask
is_member zulip user group c = cached_or_ask zulip user group (cached user group c.cache) c

-- `return True` on a yes; any other answer goes on with the loop.
unfoldable pub stop_or : Option Bool → Checker → Option Bool × Checker → Option Bool × Checker
stop_or (some true) c rest = (some true, c)
stop_or (some false) c rest = rest
stop_or none c rest = rest

-- `errors.append` where the check raises.
unfoldable pub failed_with : ℕ → Option Bool → List ℕ → List ℕ
failed_with group none errors = group ∷ errors
failed_with group (some b) errors = errors

-- The loop, with the groups whose check has failed.
unfoldable pub member_loop : Zulip → ℕ → List ℕ → List ℕ → Checker → Option Bool × Checker
unfolding is_member stop_or failed_with
member_loop zulip user [] errors c = (if is_empty errors then some false else none, c)
member_loop zulip user (group ∷ groups) errors c =
    let (answer, c') = is_member zulip user group c in
    stop_or answer c' (member_loop zulip user groups (failed_with group answer errors) c')

unfoldable pub is_member_any : Zulip → Option ℕ → Option (List ℕ) → Checker → Option Bool × Checker
unfolding member_loop
is_member_any zulip user none c = (some true, c)
is_member_any zulip user (some []) c = (some false, c)
is_member_any zulip none (some (g ∷ gs)) c = (some false, c)
is_member_any zulip (some user) (some (g ∷ gs)) c = member_loop zulip user (g ∷ gs) [] c
