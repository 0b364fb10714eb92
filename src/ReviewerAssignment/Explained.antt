-- ===== src/ReviewerAssignment/Explained.antt =====
-- The trace suggests whom the engine suggests, and explains each reviewer whom it passes over.
use mathlib.Core.List.{append_assoc, append-nil}
use queueboard_core.Prelude.{
  ℕ, ◌≡◌, refl, sym, ap, ◌∙◌, subst, inl, inr, Bool, true, false, not, ◌&&◌, ◌||◌, List, [], ◌∷◌,
  ◌++◌, if◌then◌else◌, is_empty, map, keep, contains, contains-append, Bool-cases, Option-cases,
  arith, ◌==◌,
}
use queueboard_core.Prelude.Text.{Text, text_eq, text_beq_iff}
use queueboard_core.ReviewerAssignment.Profiles.{
  Arithmetic, ReviewerProfile, PrEntry, Loads, prefilter_reason, within_rate_limit, remaining,
  is_positive, is_used_up,
}
use queueboard_core.ReviewerAssignment.Candidates.{
  Match, Request, is_dropped, labels_matched, add_match, matching, proposed, Chooser, is_excluded,
  logins, by_weight, is_available, is_candidate,
}
use queueboard_core.ReviewerAssignment.Trace.{
  Filtered, nothing_filtered, matching_with_trace, match_or_drop, Trace, Gates, note_gates,
  add_available, take_gates, take_all_gates, contest_with_trace, suggest_reviewer_for_pr_with_trace,
}

pub matching_with_trace-eq :
    (q : Request) (rs : List ReviewerProfile) (f : Filtered)
    → (matching_with_trace q rs f).0 ≡ matching q rs
unfolding matching_with_trace matching match_or_drop is_dropped
matching_with_trace-eq q [] f = refl
matching_with_trace-eq q (r ∷ rs) f =
    elim (Option-cases (prefilter_reason r q.author_norm q.labels_lower)) [
      | inl p ↦ rw p (ap (add_match r (labels_matched q r)) (matching_with_trace-eq q rs _))
      | inr (why, p) ↦ rw p (matching_with_trace-eq q rs _)
    ]

module _ {W : Type 0} ⦃a : Arithmetic W⦄ (q : Request) (loads : Loads W) where
  pub take_gates-available :
      (g : Gates W) (r : ReviewerProfile)
      → (take_gates q loads g r).available
        ≡ g.available ++ (if is_candidate q loads r then r.github_login ∷ [] else [])
  unfolding take_gates add_available is_candidate
  take_gates-available g r = ground (arith, append-nil g.available)

  pub take_all-available :
      (g : Gates W) (rs : List ReviewerProfile)
      → (take_all_gates q loads g rs).available
        ≡ g.available ++ logins (keep (is_candidate q loads) rs)
  unfolding take_all_gates keep
  take_all-available g [] = sym (append-nil g.available)
  take_all-available g (r ∷ rs) =
      take_all-available (take_gates q loads g r) rs
      ∙ ap (λ l. l ++ logins (keep (is_candidate q loads) rs)) (take_gates-available g r)
      ∙ append_assoc g.available _ _
      ∙ elim (Bool-cases (is_candidate q loads r)) [ inl p ↦ rw p refl | inr p ↦ rw p refl ]

  abbrev pub accounted : Text → Gates W → Bool
  accounted l g =
      contains l g.available
      || contains l g.filtered.opt_out
      || contains l g.filtered.at_capacity
      || contains l g.filtered.auto_assign_disabled
      || contains l g.filtered.temporary_break
      || contains l g.filtered.at_rate_limit

  module _ (l : Text) (g : Gates W) (r : ReviewerProfile) where
    abbrev pub after : Gates W
    after = take_gates q loads g r

    pub now_available :
        contains l after.available
        ≡ (contains l g.available || (is_candidate q loads r && l == r.github_login))
    unfolding contains
    now_available =
        ap (contains l) (take_gates-available g r)
        ∙ contains-append l g.available _
        ∙ (elim (Bool-cases (is_candidate q loads r)) [
          | inl p ↦ rw p (ground arith)
          | inr p ↦ rw p (ground arith)
        ])

    now_opt_out :
        contains l after.filtered.opt_out
        ≡ (contains l g.filtered.opt_out || (is_excluded q r && l == r.github_login))
    unfolding take_gates note_gates add_available contains
    now_opt_out = ground (arith, contains-append l g.filtered.opt_out (r.github_login ∷ []))

    now_at_capacity : contains l after.filtered.at_capacity ≡ (
        contains l g.filtered.at_capacity
        || (not (is_excluded q r) && is_used_up (remaining loads r) && l == r.github_login))
    unfolding take_gates note_gates add_available contains
    now_at_capacity = ground (arith, contains-append l g.filtered.at_capacity (r.github_login ∷ []))

    now_auto_assign : contains l after.filtered.auto_assign_disabled ≡ (
        contains l g.filtered.auto_assign_disabled
        || (not (is_excluded q r) && not r.auto_assign && l == r.github_login))
    unfolding take_gates note_gates add_available contains
    now_auto_assign =
        ground (arith, contains-append l g.filtered.auto_assign_disabled (r.github_login ∷ []))

    now_on_break : contains l after.filtered.temporary_break ≡ (
        contains l g.filtered.temporary_break
        || (not (is_excluded q r) && r.temporary_break && l == r.github_login))
    unfolding take_gates note_gates add_available contains
    now_on_break =
        ground (arith, contains-append l g.filtered.temporary_break (r.github_login ∷ []))

    now_at_rate : contains l after.filtered.at_rate_limit ≡ (
        contains l g.filtered.at_rate_limit
        || (not (is_excluded q r) && not (within_rate_limit r) && l == r.github_login))
    unfolding take_gates note_gates add_available contains
    now_at_rate = ground (arith, contains-append l g.filtered.at_rate_limit (r.github_login ∷ []))

    take_gates-accounted : accounted l g ≡ true → accounted l after ≡ true
    take_gates-accounted h = ground (
      arith, now_available, now_opt_out, now_at_capacity, now_auto_assign, now_on_break,
      now_at_rate,
    )

    take_gates-accounts :
        ((k : ReviewerProfile)
          → is_used_up (remaining loads k) ≡ not (is_positive (remaining loads k)))
        → l ≡ r.github_login
        → accounted l after ≡ true
    unfolding is_candidate is_available
    take_gates-accounts compared e = ground (
      arith,
      compared r,
      text_beq_iff l r.github_login,
      now_available,
      now_opt_out,
      now_at_capacity,
      now_auto_assign,
      now_on_break,
      now_at_rate,
    )

  take_all-accounted :
      (l : Text) (g : Gates W) (rs : List ReviewerProfile)
      → accounted l g ≡ true
      → accounted l (take_all_gates q loads g rs) ≡ true
  unfolding take_all_gates
  take_all-accounted l g [] h = h
  take_all-accounted l g (r ∷ rs) h =
      take_all-accounted l (take_gates q loads g r) rs (take_gates-accounted l g r h)

  pub take_all-accounts :
      ((k : ReviewerProfile)
        → is_used_up (remaining loads k) ≡ not (is_positive (remaining loads k)))
      → (l : Text) (g : Gates W) (rs : List ReviewerProfile) → contains l (logins rs) ≡ true
      → accounted l (take_all_gates q loads g rs) ≡ true
  unfolding take_all_gates contains
  take_all-accounts compared l g [] h = absurd (cc)
  take_all-accounts compared l g (r ∷ rs) h = elim (Bool-cases (l == r.github_login)) [
    | inl p ↦
        take_all-accounted l (take_gates q loads g r) rs
          (take_gates-accounts l g r compared ((text_beq_iff l r.github_login).0 p))
    | inr p ↦ take_all-accounts compared l (take_gates q loads g r) rs (ground arith)
  ]

-- The trace says of the login that it is available, or names a reason why it is not.
unfoldable pub is_explained : {W : Type 0} → Text → Trace W → Bool
is_explained l t =
    contains l t.available
    || contains l t.filtered.opt_out
    || contains l t.filtered.at_capacity
    || contains l t.filtered.auto_assign_disabled
    || contains l t.filtered.temporary_break
    || contains l t.filtered.at_rate_limit

module _ {W : Type 0} ⦃a : Arithmetic W⦄ (choose : Chooser W) (draw : ℕ) (q : Request)
    (entry : PrEntry W) (labels : List Text) (loads : Loads W) (l : Text) where
  contest-explained :
      ((k : ReviewerProfile)
        → is_used_up (remaining loads k) ≡ not (is_positive (remaining loads k)))
      → (ms chosen : List Match) (f : Filtered)
      → contains l (contest_with_trace choose draw q entry labels loads ms chosen f).1.potential
        ≡ true
      → is_explained l (contest_with_trace choose draw q entry labels loads ms chosen f).1 ≡ true
  unfolding contest_with_trace contains is_explained
  contest-explained compared [] chosen f h = absurd (cc)
  contest-explained compared (m ∷ ms) [] f h = absurd (cc)
  contest-explained compared (m ∷ ms) (k ∷ chosen) f h =
      take_all-accounts q loads compared l (record { available = []; weights = []; filtered = f })
        (map (λ (m : Match). m.reviewer) (by_weight loads (k ∷ chosen))) h

  with_topics :
      (reviewers : List ReviewerProfile)
      → is_empty q.topic_lower ≡ false
      → suggest_reviewer_for_pr_with_trace choose draw q entry labels reviewers loads
        ≡ contest_with_trace choose draw q entry labels loads
            (matching_with_trace q reviewers nothing_filtered).0
            (proposed q (matching_with_trace q reviewers nothing_filtered).0)
            (matching_with_trace q reviewers nothing_filtered).1
  unfolding suggest_reviewer_for_pr_with_trace
  with_topics reviewers p = ground arith

  -- Where the remaining capacities are at most 0 exactly when they are not above it, as all numbers
  -- but NaN are: each reviewer in the contest for a PR is available, or the trace lists the login
  -- as opted out, at capacity, not assigned automatically, on a break, or at the weekly limit.
  pub suggest_reviewer_for_pr_with_trace-explained :
      ((k : ReviewerProfile)
        → is_used_up (remaining loads k) ≡ not (is_positive (remaining loads k)))
      → (reviewers : List ReviewerProfile)
      → contains l
          (suggest_reviewer_for_pr_with_trace choose draw q entry labels reviewers
            loads).1.potential
        ≡ true
      → is_explained l
          (suggest_reviewer_for_pr_with_trace choose draw q entry labels reviewers loads).1
        ≡ true
  unfolding suggest_reviewer_for_pr_with_trace contains
  suggest_reviewer_for_pr_with_trace-explained compared reviewers h =
      elim (Bool-cases (is_empty q.topic_lower)) [
        | inl p ↦ absurd (ground arith)
        | inr p ↦
            let same = with_topics reviewers p in
            let ms = (matching_with_trace q reviewers nothing_filtered).0 in
            let f = (matching_with_trace q reviewers nothing_filtered).1 in
            subst (λ s. is_explained l s.1 ≡ true) (sym same)
              (contest-explained compared ms (proposed q ms) f
                (subst (λ s. contains l s.1.potential ≡ true) same h))
      ]
