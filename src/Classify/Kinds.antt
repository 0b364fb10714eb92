-- ===== src/Classify/Kinds.antt =====
-- The labels, CI states and statuses that the classification speaks of, and their names.
use queueboard_core.Prelude.{
  ◌≡◌, refl, Bool, Option, none, some, List, [], ◌∷◌, ◌==◌, Eq, discrete_eq, if◌then◌else◌, String,
}
use queueboard_core.Prelude.Text
use queueboard_core.Prelude.Text.{Text, codes, text_eq}

pub data CiStatus : Type 0 where
  pass fail fail_inessential running missing : CiStatus

pub data LabelKind : Type 0 where
  wip awaiting_ci review help_wanted author merge_conflict blocked decision delegated bors other :
      LabelKind

pub data PrStatus : Type 0 where
  not_from_fork not_ready blocked awaiting_review help_wanted awaiting_author awaiting_decision :
      PrStatus
  merge_conflict delegated awaiting_bors closed contradictory : PrStatus

unfoldable pub CiStatus-discrete : Discrete CiStatus
CiStatus-discrete = hlevel

unfoldable pub LabelKind-discrete : Discrete LabelKind
LabelKind-discrete = hlevel

unfoldable pub PrStatus-discrete : Discrete PrStatus
PrStatus-discrete = hlevel

instance abbrev pub ci_status_eq : Eq CiStatus
ci_status_eq = discrete_eq CiStatus-discrete

instance abbrev pub label_kind_eq : Eq LabelKind
label_kind_eq = discrete_eq LabelKind-discrete

instance abbrev pub pr_status_eq : Eq PrStatus
pr_status_eq = discrete_eq PrStatus-discrete

-- All relevant state of a PR at a point in time.
pub record PrState : Type 0 where
  pub labels : List LabelKind
  pub ci : CiStatus
  pub draft : Bool
  pub from_fork : Bool

-- `d.get(key)` of a dict literal with string keys.
unfoldable pub get {ℓ} : {V : Type ℓ} → List (Text × V) → Text → Option V
get [] key = none
get ((name, v) ∷ rest) key = if name == key then some v else get rest key

abbrev pub text : String → Text
text = codes

-- `CIStatus.from_string`; `None` means missing data, and an unknown name is a `KeyError`.
abbrev ci_names : List (Text × CiStatus)
ci_names =
    (text "pass", CiStatus.pass)
    ∷ (text "fail", CiStatus.fail)
    ∷ (text "fail-inessential", CiStatus.fail_inessential)
    ∷ (text "running", CiStatus.running)
    ∷ (text "missing", CiStatus.missing)
    ∷ []

unfoldable pub ci_from_string : Option Text → Option CiStatus
unfolding get
ci_from_string none = some CiStatus.missing
ci_from_string (some s) = get ci_names s

abbrev pub rule_table : List (Text × LabelKind)
rule_table =
    (text "WIP", LabelKind.wip)
    ∷ (text "awaiting-CI", LabelKind.awaiting_ci)
    ∷ (text "awaiting-review-DONT-USE", LabelKind.review)
    ∷ (text "awaiting-author", LabelKind.author)
    ∷ (text "blocked-by-other-PR", LabelKind.blocked)
    ∷ (text "blocked-by-batt-PR", LabelKind.blocked)
    ∷ (text "blocked-by-core-PR", LabelKind.blocked)
    ∷ (text "blocked-by-qq-PR", LabelKind.blocked)
    ∷ (text "blocked-by-core-release", LabelKind.blocked)
    ∷ (text "merge-conflict", LabelKind.merge_conflict)
    ∷ (text "awaiting-zulip", LabelKind.decision)
    ∷ (text "delegated", LabelKind.delegated)
    ∷ (text "ready-to-merge", LabelKind.bors)
    ∷ (text "auto-merge-after-CI", LabelKind.bors)
    ∷ (text "help-wanted", LabelKind.help_wanted)
    ∷ (text "please-adopt", LabelKind.help_wanted)
    ∷ []

-- The kind of a label name, where the name is one that the classification reads.
unfoldable pub label_categorisation_rules : Text → Option LabelKind
unfolding get
label_categorisation_rules name = get rule_table name

unfoldable pub canonicalise_label : Text → Text
canonicalise_label name =
    if name == text "awaiting-review" then text "awaiting-review-DONT-USE" else name

unfoldable pub to_str : PrStatus → Text
to_str PrStatus.not_from_fork = text "NotFromFork"
to_str PrStatus.not_ready = text "NotReady"
to_str PrStatus.blocked = text "Blocked"
to_str PrStatus.awaiting_review = text "AwaitingReview"
to_str PrStatus.help_wanted = text "HelpWanted"
to_str PrStatus.awaiting_author = text "AwaitingAuthor"
to_str PrStatus.awaiting_decision = text "AwaitingDecision"
to_str PrStatus.merge_conflict = text "MergeConflict"
to_str PrStatus.delegated = text "Delegated"
to_str PrStatus.awaiting_bors = text "AwaitingBors"
to_str PrStatus.closed = text "Closed"
to_str PrStatus.contradictory = text "Contradictory"

abbrev status_names : List (Text × PrStatus)
status_names =
    (text "NotFromFork", PrStatus.not_from_fork)
    ∷ (text "NotReady", PrStatus.not_ready)
    ∷ (text "Blocked", PrStatus.blocked)
    ∷ (text "AwaitingReview", PrStatus.awaiting_review)
    ∷ (text "HelpWanted", PrStatus.help_wanted)
    ∷ (text "AwaitingAuthor", PrStatus.awaiting_author)
    ∷ (text "AwaitingDecision", PrStatus.awaiting_decision)
    ∷ (text "MergeConflict", PrStatus.merge_conflict)
    ∷ (text "Delegated", PrStatus.delegated)
    ∷ (text "AwaitingBors", PrStatus.awaiting_bors)
    ∷ (text "Closed", PrStatus.closed)
    ∷ (text "Contradictory", PrStatus.contradictory)
    ∷ []

unfoldable pub try_from_str : Text → Option PrStatus
unfolding get
try_from_str value = get status_names value

-- Reading the name of a status back gives the status: `to_str` and `tryFrom_str` agree.
pub try_from_str-to_str : (s : PrStatus) → try_from_str (to_str s) ≡ some s
unfolding try_from_str to_str Text.text_beq
try_from_str-to_str PrStatus.not_from_fork = refl
try_from_str-to_str _ = refl
