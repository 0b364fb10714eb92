-- ===== src/ReviewerAssignment/Tests.antt =====
-- A run over three PRs and two reviewers, one with a weekly limit.
use mathlib.Core.List.{Memᴰ}
use queueboard_core.Prelude.{
  not, leb, subst, if◌then◌else◌, any, erase, keep, ◌∙◌, ap, ℕ, ◌+◌, ◌≤◌, ◌≡◌, refl, sym, Bool,
  true, false, Option, none, some, List, [], ◌∷◌, contains, ltb, ◌==◌, Distinct, nat_eq, ap, ◌∙◌,
  arith,
}
use queueboard_core.Prelude.Int.{ℤ, pos, pos_part, neg_part, sub_ℕ}
use queueboard_core.Prelude.Text.{
  Text, text_eq, text_beq, text_beq_iff, codes, lower, normalize, starts_with,
}
use queueboard_core.Prelude.Sorting.{sorted}
use queueboard_core.Prelude.Dict.{put, get}
use queueboard_core.ReviewerAssignment.Profiles.{
  Loads, queue_age_of, is_positive, is_used_up, remaining, within_rate_limit, prefilter_reason,
  all_labels_lower, topic_labels, normalize_login, Arithmetic, ReviewerProfile, PrEntry,
}
use queueboard_core.ReviewerAssignment.Candidates.{
  reviewer_candidate_state, Chooser, Request, request_of, suggest_reviewer_for_pr,
}
use queueboard_core.ReviewerAssignment.Trace.{Trace, suggest_reviewer_for_pr_with_trace}
use queueboard_core.ReviewerAssignment.Explained.{
  is_explained, suggest_reviewer_for_pr_with_trace-explained,
}
use queueboard_core.ReviewerAssignment.SameChoice.{suggest_reviewer_for_pr_with_trace-same}
use queueboard_core.ReviewerAssignment.Ranking.{
  rank_prs_for_assignment, Priority, priority_lt, default_pr_assignment_priority,
}
use queueboard_core.ReviewerAssignment.Simulation.{Run, Setting, run_assignment_simulation}
use queueboard_core.ReviewerAssignment.Eligible.{
  Chooses, IsEligible, suggest_reviewer_for_pr-IsEligible,
}
use queueboard_core.ReviewerAssignment.Accounts.{Books, run_assignment_simulation-Books}
use queueboard_core.ReviewerAssignment.Limits.{given, norm_of, run_assignment_simulation-within}

instance abbrev whole_numbers : Arithmetic ℤ
whole_numbers = record {
  of_nat = λ n. pos n;
  add = λ a b. sub_ℕ (pos_part a + pos_part b) (neg_part a + neg_part b);
  sub = λ a b. sub_ℕ (pos_part a + neg_part b) (neg_part a + pos_part b);
  lt = λ a b. ltb (pos_part a + neg_part b) (neg_part a + pos_part b);
  le = λ a b. leb (pos_part a + neg_part b) (neg_part a + pos_part b);
}

abbrev first_of : Chooser ℤ
first_of draw [] weights = []
first_of draw (login ∷ logins) weights = login

first_of-Chooses : Chooses first_of
unfolding contains
first_of-Chooses draw [] weights e = absurd (cc)
first_of-Chooses draw (login ∷ logins) weights e = ground (arith, text_beq_iff login login)

abbrev reviewer : Text → ℕ → Option ℕ → ReviewerProfile
reviewer login capacity limit = record {
  github_login = login;
  maximum_capacity = capacity;
  auto_assign = true;
  temporary_break = false;
  preferred_labels_lower = codes "t-algebra" ∷ [];
  conflict_of_interest_lower = [];
  weekly_limit = limit;
  recent_assignment_count = 1;
  simulated_this_run = 0;
  excluded_labels_lower = [];
}

abbrev ann : ReviewerProfile
ann = reviewer (codes "Ann") 9 (some 2)

abbrev bob : ReviewerProfile
bob = reviewer (codes "bob") 1 none

abbrev reviewers : List ReviewerProfile
reviewers = ann ∷ bob ∷ []

abbrev entry : Text → PrEntry ℤ
entry author = record {
  labels = some (codes "t-algebra") ∷ some (codes "easy") ∷ [];
  author = some author;
  title = some (codes "feat: groups");
  total_queue_time = none;
}

abbrev is_topic : Text → Bool
is_topic name = starts_with (codes "t-") name

abbrev setting : Setting ℤ (Priority ℤ)
setting = record {
  all_prs = record {
    by_number = (1, entry (codes "eve")) ∷ (2, entry (codes "bob")) ∷ (4, entry (codes "eve")) ∷ [];
    by_text = [];
  };
  excluded_by_pr = [];
  fullmatch = is_topic;
  choose = first_of;
  scorer = default_pr_assignment_priority is_topic;
  key_less = priority_lt;
}

abbrev prs : List ℕ
prs = 1 ∷ 2 ∷ 3 ∷ 4 ∷ []

abbrev suggestions_of : Option (Run ℤ) → List (ℕ × Text)
suggestions_of none = []
suggestions_of (some run) = run.suggestions

-- PR 2 comes before PR 1, since only Ann may review it. Then Ann is at her weekly limit, PR 1 goes to
-- Bob, and nobody is left for PR 4.
run_picks :
    suggestions_of (run_assignment_simulation setting reviewers [] prs)
    ≡ (2, codes "Ann") ∷ (1, codes "bob") ∷ []
unfolding run_assignment_simulation rank_prs_for_assignment sorted get put erase priority_lt
    default_pr_assignment_priority reviewer_candidate_state request_of suggest_reviewer_for_pr
    topic_labels all_labels_lower starts_with prefilter_reason contains text_beq normalize_login
    normalize lower any keep within_rate_limit remaining is_positive queue_age_of
run_picks = refl

abbrev request : Request
request = request_of is_topic (codes "carl" ∷ []) (entry (codes "bob"))

ann_alone : (suggest_reviewer_for_pr first_of 0 request reviewers []).suggested ≡ some (codes "Ann")
unfolding reviewer_candidate_state request_of suggest_reviewer_for_pr topic_labels all_labels_lower
    starts_with sorted get prefilter_reason contains text_beq normalize_login normalize lower any
    keep within_rate_limit remaining is_positive queue_age_of
ann_alone = refl

suggest_reviewer_for_pr-IsEligible_example :
    (r : ReviewerProfile) × (codes "Ann" ≡ r.github_login)
    × IsEligible {W = ℤ} request [] reviewers r
suggest_reviewer_for_pr-IsEligible_example =
    suggest_reviewer_for_pr-IsEligible first_of 0 request reviewers [] (codes "Ann")
      first_of-Chooses ann_alone

prs-Distinct : Distinct prs
unfolding contains
prs-Distinct = (refl, (refl, (refl, (refl, tt))))

run_assignment_simulation-Books_example :
    (r : Run ℤ) × (run_assignment_simulation setting reviewers [] prs ≡ some r)
    × Books [] r.loads r.suggestions
run_assignment_simulation-Books_example =
    run_assignment_simulation-Books setting reviewers [] prs prs-Distinct

ann_alone_named : (r : ReviewerProfile) → Memᴰ r reviewers → norm_of r ≡ norm_of ann → r ≡ ann
unfolding normalize_login normalize lower text_beq
ann_alone_named r (Memᴰ.head e) same = e
ann_alone_named r (Memᴰ.tail (Memᴰ.head e)) same =
    let wrong : false ≡ true =
      (text_beq_iff (norm_of bob) (norm_of ann)).1 (ap norm_of (sym e) ∙ same) in
    absurd (cc)
ann_alone_named r (Memᴰ.tail (Memᴰ.tail m)) same = elim m [ ]

run_assignment_simulation-within_example :
    (r : Run ℤ) × (run_assignment_simulation setting reviewers [] prs ≡ some r)
    × (ann.recent_assignment_count + ann.simulated_this_run + given (norm_of ann) r.suggestions ≤ 2)
run_assignment_simulation-within_example =
    run_assignment_simulation-within setting first_of-Chooses reviewers ann 2 refl ann_alone_named
      [] prs prs-Distinct (omega arith)

abbrev capacity_of_login : Text → ℕ
capacity_of_login login = if login == codes "Ann" then 9 else 1

one_capacity :
    (r : ReviewerProfile) → Memᴰ r reviewers → r.maximum_capacity ≡ capacity_of_login r.github_login
unfolding text_beq
one_capacity r (Memᴰ.head e) =
    subst (λ x. x.maximum_capacity ≡ capacity_of_login x.github_login) (sym e) refl
one_capacity r (Memᴰ.tail (Memᴰ.head e)) =
    subst (λ x. x.maximum_capacity ≡ capacity_of_login x.github_login) (sym e) refl
one_capacity r (Memᴰ.tail (Memᴰ.tail m)) = elim m [ ]

suggest_reviewer_for_pr_with_trace-same_example :
    (suggest_reviewer_for_pr_with_trace first_of 0 request
      (entry (codes "bob"))
      (codes "t-algebra" ∷ [])
      reviewers
      []).0
    ≡ suggest_reviewer_for_pr first_of 0 request reviewers []
suggest_reviewer_for_pr_with_trace-same_example =
    suggest_reviewer_for_pr_with_trace-same first_of 0 request (entry (codes "bob"))
      (codes "t-algebra" ∷ []) [] capacity_of_login reviewers one_capacity

-- Bob opts out of a PR of Eve.
abbrev opted_out : Request
opted_out = request_of is_topic (codes "BOB" ∷ []) (entry (codes "eve"))

abbrev trace : Trace ℤ
trace =
    (suggest_reviewer_for_pr_with_trace first_of 0 opted_out (entry (codes "eve"))
      (codes "t-algebra" ∷ []) reviewers []).1

bob_in_contest : contains (codes "bob") trace.potential ≡ true
unfolding suggest_reviewer_for_pr_with_trace request_of topic_labels all_labels_lower starts_with
    sorted get prefilter_reason contains text_beq normalize_login normalize lower any keep
    within_rate_limit remaining is_positive
bob_in_contest = refl

abbrev no_loads : Loads ℤ
no_loads = []

whole_numbers_compared :
    (k : ReviewerProfile)
    → is_used_up (remaining no_loads k) ≡ not (is_positive (remaining no_loads k))
unfolding is_used_up is_positive remaining
whole_numbers_compared k = ground arith

suggest_reviewer_for_pr_with_trace-explained_example : is_explained (codes "bob") trace ≡ true
suggest_reviewer_for_pr_with_trace-explained_example =
    suggest_reviewer_for_pr_with_trace-explained first_of 0 opted_out (entry (codes "eve"))
      (codes "t-algebra" ∷ []) [] (codes "bob") whole_numbers_compared reviewers bob_in_contest
