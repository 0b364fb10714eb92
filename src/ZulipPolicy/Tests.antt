-- ===== src/ZulipPolicy/Tests.antt =====
-- A policy of three commands, one of them in two spellings, and a server that fails on a group.
use queueboard_core.Prelude.{
  ℕ, ◌≡◌, refl, true, false, not, ◌&&◌, Option, none, some, List, [], ◌∷◌, ◌==◌, if◌then◌else◌, any,
  contains, insert, is_some, nat_eq,
}
use queueboard_core.Prelude.Text.{Text, text_eq, text_beq, codes, lower, normalize}
use queueboard_core.ZulipPolicy.Membership.{
  Value, Response, Zulip, Checker, is_member_any, new_checker, answer_of,
}
use queueboard_core.ZulipPolicy.Settings.{
  is_wildcard, RawItem, policy_for, load_command_policy, parse_id_set,
}
use queueboard_core.ZulipPolicy.Policy.{CommandContext, decimal, allowed_command_names}
use queueboard_core.ZulipPolicy.Cached.{
  any_answer, member_answer, IsSound, is_member_any-any_answer,
}
use queueboard_core.ZulipPolicy.Allowed.{
  is_permitted, is_check_raised, allowed_command_names-permitted,
}

respond : ℕ → ℕ → Response
respond group user =
    if group == 8
    then Response.api_error
    else Response.payload (some (Value.bool (group == 7 && user == 3)))

abbrev server : Zulip
unfolding respond
server = record { is_configured = true; respond = respond }

abbrev checker : Checker
checker = record {
  cache = record { user = 3; group = 7; is_member = true } ∷ [];
  has_client = true;
  client_unavailable = false;
}

checker-IsSound : IsSound server checker
unfolding respond member_answer answer_of
checker-IsSound = ((refl, tt), (λ _. refl), (λ e. absurd (cc)))

is_member_any-any_answer_example :
    ((is_member_any server (some 3) (some (8 ∷ 7 ∷ [])) checker).0
      ≡ any_answer server (some 3) (some (8 ∷ 7 ∷ [])))
    × IsSound server (is_member_any server (some 3) (some (8 ∷ 7 ∷ [])) checker).1
is_member_any-any_answer_example =
    is_member_any-any_answer server (some 3) (some (8 ∷ 7 ∷ [])) checker checker-IsSound

failure_then_member : (is_member_any server (some 3) (some (8 ∷ 7 ∷ [])) new_checker).0 ≡ some true
unfolding is_member_any respond
failure_then_member = refl

failure_alone : (is_member_any server (some 3) (some (8 ∷ 6 ∷ [])) new_checker).0 ≡ none
unfolding is_member_any respond
failure_alone = refl

abbrev everywhere : Option (List Value)
everywhere = some (Value.string (codes "*") ∷ [])

-- Group 7 may assign everywhere, user 4 may label in stream 31, and no one may register.
abbrev raw_policy : Option (List RawItem)
raw_policy = some (
    record {
      name = some (codes "register_test");
      rule = some (record {
        allowed_groups = everywhere;
        allowed_user_ids = none;
        allowed_contexts = everywhere;
      });
    }
    ∷ record {
      name = some (codes "Assign ");
      rule = some (record {
        allowed_groups = some (Value.number 7 ∷ []);
        allowed_user_ids = none;
        allowed_contexts = everywhere;
      });
    }
    ∷ record {
      name = some (codes "label");
      rule = some (record {
        allowed_groups = none;
        allowed_user_ids = some (Value.number 4 ∷ []);
        allowed_contexts = some (Value.string (codes "stream:31") ∷ []);
      });
    }
    ∷ record {
      name = some (codes "register-test");
      rule =
          some (record { allowed_groups = none; allowed_user_ids = none; allowed_contexts = none });
    }
    ∷ [])

abbrev commands : List Text
commands = codes "assign" ∷ codes "help" ∷ codes "label" ∷ codes "register-test" ∷ []

abbrev in_stream : ℕ → CommandContext
in_stream sender = record { sender_id = some sender; stream_id = some 31; is_private = false }

allowed_command_names-permitted_example :
    (not (is_some (allowed_command_names server (in_stream 3) raw_policy commands checker).0)
      ≡ any
          (λ n.
            is_check_raised server (in_stream 3) (policy_for n (load_command_policy raw_policy)))
          commands)
    × ((found : List Text)
        → (allowed_command_names server (in_stream 3) raw_policy commands checker).0 ≡ some found
        → (n : Text)
        → contains n found ≡ (
            contains n commands
            && is_permitted server (in_stream 3) (policy_for n (load_command_policy raw_policy))))
allowed_command_names-permitted_example =
    allowed_command_names-permitted server (in_stream 3) raw_policy commands checker checker-IsSound

member_may_assign :
    (allowed_command_names server (in_stream 3) raw_policy commands checker).0
    ≡ some (codes "assign" ∷ [])
unfolding allowed_command_names respond policy_for load_command_policy text_beq normalize
    is_member_any insert contains is_wildcard
member_may_assign = refl

user_may_label :
    (allowed_command_names server (in_stream 4) raw_policy commands new_checker).0
    ≡ some (codes "label" ∷ [])
unfolding allowed_command_names respond policy_for load_command_policy text_beq normalize
    is_member_any insert contains is_wildcard decimal
user_may_label = refl

abbrev mixed : List Value
mixed = Value.number 5 ∷ Value.number 0 ∷ Value.bool true ∷ Value.string (codes "x") ∷ []

mixed_ids : parse_id_set (some mixed) ≡ some (5 ∷ 1 ∷ [])
unfolding parse_id_set is_wildcard text_beq lower insert contains
mixed_ids = refl
