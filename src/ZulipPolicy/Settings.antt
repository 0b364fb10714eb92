-- ===== src/ZulipPolicy/Settings.antt =====
-- The policy as its settings say it.
use queueboard_core.Prelude.{
  ℕ, Bool, true, false, ◌||◌, Option, none, some, List, [], ◌∷◌, ◌==◌, if◌then◌else◌, insert,
  is_empty, ltb, map, nat_eq,
}
use queueboard_core.Prelude.Text.{Text, text_eq, codes, lower, normalize}
use queueboard_core.ZulipPolicy.Membership.{Value}

-- `item.lower() in {"*", "all"}`
unfoldable pub is_wildcard : Text → Bool
is_wildcard s = lower s == codes "*" || lower s == codes "all"

pub record Parsed {ℓ} (A : Type ℓ) : Type ℓ where
  pub unrestricted : Bool
  pub parsed : List A

abbrev pub nothing_parsed {ℓ} : {A : Type ℓ} → Parsed A
nothing_parsed = record { unrestricted = false; parsed = [] }

-- Python's booleans are integers: `True` is 1.
unfoldable pub parse_id : Parsed ℕ → Value → Parsed ℕ
parse_id p (Value.bool b) = if b then record p { parsed = insert 1 p.parsed } else p
parse_id p (Value.number n) = if ltb 0 n then record p { parsed = insert n p.parsed } else p
parse_id p (Value.string s) = if is_wildcard s then record p { unrestricted = true } else p
parse_id p _ = p

unfoldable pub parse_ids : Parsed ℕ → List Value → Parsed ℕ
unfolding parse_id
parse_ids p [] = p
parse_ids p (v ∷ vs) = parse_ids (parse_id p v) vs

-- `None` is no restriction.
abbrev pub set_of {ℓ} : {A : Type ℓ} → Parsed A → Option (List A)
set_of p = if p.unrestricted then none else some p.parsed

-- `_parse_group_set` and `_parse_user_id_set`, whose bodies are the same. A value that is missing or
-- no list is `none`.
unfoldable pub parse_id_set : Option (List Value) → Option (List ℕ)
unfolding parse_ids
parse_id_set none = some []
parse_id_set (some vs) = set_of (parse_ids nothing_parsed vs)

unfoldable pub parse_context : Parsed Text → Value → Parsed Text
parse_context p (Value.string s) =
    if is_empty s
    then p
    else if is_wildcard s
    then record p { unrestricted = true }
    else record p { parsed = insert s p.parsed }
parse_context p _ = p

unfoldable pub parse_contexts : Parsed Text → List Value → Parsed Text
unfolding parse_context
parse_contexts p [] = p
parse_contexts p (v ∷ vs) = parse_contexts (parse_context p v) vs

unfoldable pub parse_context_set : Option (List Value) → Option (List Text)
unfolding parse_contexts
parse_context_set none = some []
parse_context_set (some vs) = set_of (parse_contexts nothing_parsed vs)

pub record CommandPolicy : Type 0 where
  pub allowed_groups : Option (List ℕ)
  pub allowed_user_ids : Option (List ℕ)
  pub allowed_contexts : Option (List Text)

-- A rule of the settings, by the keys that are read.
pub record RawRule : Type 0 where
  pub allowed_groups : Option (List Value)
  pub allowed_user_ids : Option (List Value)
  pub allowed_contexts : Option (List Value)

-- An item of `ZULIP_COMMAND_POLICY`: its name where it is a string, its rule where it is a dict.
pub record RawItem : Type 0 where
  pub name : Option Text
  pub rule : Option RawRule

abbrev pub dash_code : ℕ → ℕ
dash_code c = if c == 95 then 45 else c

-- `value.strip().lower().replace("_", "-")`
unfoldable pub normalize_command_name : Text → Text
normalize_command_name s = map dash_code (normalize s)

unfoldable pub policy_of : RawRule → CommandPolicy
unfolding parse_id_set parse_context_set
policy_of r = record {
  allowed_groups = parse_id_set r.allowed_groups;
  allowed_user_ids = parse_id_set r.allowed_user_ids;
  allowed_contexts = parse_context_set r.allowed_contexts;
}

-- A dict, of which the newest item of a name is the one that is read.
abbrev pub Policies : Type 0
Policies = List (Text × CommandPolicy)

unfoldable pub policy_for : Text → Policies → Option CommandPolicy
policy_for name [] = none
policy_for name ((key, policy) ∷ ps) =
    let rest = policy_for name ps in if key == name then some policy else rest

unfoldable pub load_item : Policies → Option Text → Option RawRule → Policies
unfolding policy_of normalize_command_name
load_item ps (some name) (some rule) = (normalize_command_name name, policy_of rule) ∷ ps
load_item ps _ _ = ps

unfoldable pub load_items : Policies → List RawItem → Policies
unfolding load_item
load_items ps [] = ps
load_items ps (i ∷ items) = load_items (load_item ps i.name i.rule) items

-- `none` is a setting that is no dict.
unfoldable pub load_command_policy : Option (List RawItem) → Policies
unfolding load_items
load_command_policy none = []
load_command_policy (some items) = load_items [] items
