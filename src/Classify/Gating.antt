-- ===== src/Classify/Gating.antt =====
-- What the CI gating mode changes in the classification.
use queueboard_core.Prelude.{ℕ, ◌≡◌, ◌≢◌, refl, Bool, true, false, Option, some, List, arith}
use queueboard_core.Prelude.Text
use queueboard_core.Prelude.Text.{Text}
use queueboard_core.Classify.Kinds.{CiStatus, PrStatus, PrState}
use queueboard_core.Classify.Status.{
  determine_pr_status, determine_pr_status_ignoring_fork, kinds_of, ci_status_blocks_readiness,
  no_required_failures, is_no_required_failures,
}
use queueboard_core.Classify.Priority.{priority_status, strongest}
use queueboard_core.Classify.Determine.{determine_pr_status-priority_status}

blocks_only_fail :
    (ci : CiStatus)
    → ci ≢ CiStatus.fail
    → ci_status_blocks_readiness ci (some no_required_failures) ≡ false
unfolding ci_status_blocks_readiness Text.text_beq
blocks_only_fail CiStatus.fail h = absurd (h refl)
blocks_only_fail _ h = refl

blocks_all_but_pass :
    (ci : CiStatus) (mode : Option Text)
    → is_no_required_failures mode ≡ false
    → ci ≢ CiStatus.pass
    → ci_status_blocks_readiness ci mode ≡ true
unfolding ci_status_blocks_readiness
blocks_all_but_pass CiStatus.pass mode m h = absurd (h refl)
blocks_all_but_pass ci mode m h = rw m

-- Under `no_required_failures` a CI state other than a failure counts as passing CI. Under any
-- other mode, or none, a CI state other than passing CI counts as a draft does.
pub determine_pr_status-gating :
    (date : ℕ) (s : PrState) (mode : Option Text)
    → (s.ci ≢ CiStatus.fail
        → determine_pr_status date s (some no_required_failures)
          ≡ determine_pr_status date (record s { ci = CiStatus.pass }) (some no_required_failures))
      × (is_no_required_failures mode ≡ false
          → s.ci ≢ CiStatus.pass
          → determine_pr_status date s mode
            ≡ determine_pr_status date (record s { draft = true }) mode)
unfolding determine_pr_status
determine_pr_status-gating date s mode = (
  λ h. rw (blocks_only_fail s.ci h, blocks_only_fail CiStatus.pass (λ e. cc)),
  λ m h. ground (arith, blocks_all_but_pass s.ci mode m h),
)

-- Setting the fork question aside never answers that a PR is not from a fork.
pub determine_pr_status_ignoring_fork-ne-not_from_fork :
    (date : ℕ) (names : List Text) (ci : CiStatus) (is_draft : Bool) (mode : Option Text)
    → determine_pr_status_ignoring_fork date names ci is_draft mode ≢ some PrStatus.not_from_fork
unfolding determine_pr_status_ignoring_fork priority_status strongest
determine_pr_status_ignoring_fork-ne-not_from_fork date names ci is_draft mode = λ h. ground (
  arith,
  determine_pr_status-priority_status date
      (record { labels = kinds_of names; ci = ci; draft = is_draft; from_fork = true }) mode,
)
