-- ===== src/QueueWindows/GatedOrder.antt =====
-- The windows are in order and apart from each other, whether the rules gate on CI or not.
use queueboard_core.Prelude.{
  ℕ, ◌≡◌, refl, sym, subst, inl, inr, Bool, true, false, not, Option, none, some, List, [], ◌∷◌,
  if◌then◌else◌, get_or, Bool-cases, arith,
}
use queueboard_core.QueueRules.Rules.{QueueRules}
use queueboard_core.QueueWindows.Timeline.{PullRequest, closed_ts}
use queueboard_core.QueueWindows.Attribution.{
  CheckRun, StatusContext, determine_ci_boundary_attribution,
}
use queueboard_core.QueueWindows.Builder.{QueueWindow, Opening, finish_with, label_queue_windows}
use queueboard_core.QueueWindows.CiState.{Revision}
use queueboard_core.QueueWindows.Order.{
  InOrder, Room, turn-Room, finish_with-InOrder, label_queue_windows-InOrder,
}
use queueboard_core.QueueWindows.Sweep.{
  fold, Scan, Setting, Sweep, boundary_at, is_on_at, closing_cause, turn_at, take_boundary,
  finish_sweep, start_sweep, setting_of, start_scan, times_of, ci_queue_windows,
  queue_windows_with_rules,
}
use queueboard_core.QueueWindows.Recomputed.{Rising}
use queueboard_core.QueueWindows.Swept.{turned, read, take_boundary-current, take_boundary-windows}
use queueboard_core.QueueWindows.Gated.{IsRun, boundary_times-IsRun}

module _ (c : Setting) (as_of : ℕ) where
  take_boundaries-InOrder :
      (lo hi : ℕ) (ts : List ℕ) (b : Sweep) (cur : Option Opening)
      → Rising hi ts
      → b.current ≡ some cur
      → Room lo hi cur b.windows
      → InOrder lo (finish_sweep c as_of (fold (take_boundary c) ts b))
  unfolding fold
  take_boundaries-InOrder lo hi [] b cur r e room =
      subst (λ o. InOrder lo (finish_with c.closed as_of (get_or o none) b.windows)) (sym e)
        (finish_with-InOrder lo hi c.closed as_of cur b.windows room)
  take_boundaries-InOrder lo hi (t ∷ ts) b cur r e room =
      let s = read c t b.scan in
      let y = boundary_at c t b s in
      take_boundaries-InOrder lo t ts (take_boundary c t b) (turned c t b cur).0 r.1
        (take_boundary-current c t b cur e)
        (subst (Room lo t (turned c t b cur).0) (sym (take_boundary-windows c t b cur e)) (
          turn-Room t (determine_ci_boundary_attribution c.rules y) (closing_cause c t y)
            (is_on_at c t s) lo hi cur b.windows room r.0))

  first_opening-Room :
      (t : ℕ) (s : Scan) → Room 0 t (get_or (take_boundary c t (start_sweep s)).current none) []
  unfolding take_boundary turn_at
  first_opening-Room t s = elim (Bool-cases (is_on_at c t (read c t s))) [
    | inl p ↦ rw p (omega arith, omega arith)
    | inr p ↦ rw p (omega arith)
  ]

  sweep-InOrder :
      (t0 : ℕ) (times : List ℕ) (s : Scan)
      → IsRun t0 times
      → InOrder 0 (finish_sweep c as_of (fold (take_boundary c) times (start_sweep s)))
  unfolding fold take_boundary turn_at
  sweep-InOrder t0 times s r =
      subst (λ l. InOrder 0 (finish_sweep c as_of (fold (take_boundary c) l (start_sweep s))))
        (sym r.same)
        (take_boundaries-InOrder 0 r.head r.rest (take_boundary c r.head (start_sweep s)) _ r.rises
          refl (first_opening-Room r.head s))

InOrder-weaken : (lo : ℕ) (ws : List QueueWindow) → InOrder lo ws → InOrder 0 ws
InOrder-weaken lo [] h = tt
InOrder-weaken lo (w ∷ ws) h = (omega arith, h.1)

-- The windows of a PR, whether or not the rules gate on CI: each one ends after it starts and
-- before the next one starts or as that starts, and only the last one may be open.
pub queue_windows_with_rules-InOrder :
    (pr : PullRequest) (rules : QueueRules) (revisions : List Revision) (runs : List CheckRun)
    (contexts : List StatusContext) (as_of : ℕ)
    → InOrder 0 (queue_windows_with_rules pr rules revisions runs contexts as_of)
unfolding queue_windows_with_rules
queue_windows_with_rules-InOrder pr rules revisions runs contexts as_of =
    either rules.require_ci_success (label_queue_windows pr rules as_of)
      (ci_queue_windows pr rules revisions runs contexts as_of)
      (InOrder-weaken pr.gh_created_at (label_queue_windows pr rules as_of)
        (label_queue_windows-InOrder pr rules as_of))
      (unfold ci_queue_windows in
        let s = start_scan pr rules revisions runs contexts as_of in
        sweep-InOrder (setting_of pr rules revisions) as_of pr.gh_created_at (times_of pr as_of s) s
          (boundary_times-IsRun pr.gh_created_at as_of s.events s.revisions s.runs s.contexts
            (closed_ts pr)))
  where
    either :
        (gated : Bool) (ws vs : List QueueWindow)
        → InOrder 0 ws
        → InOrder 0 vs
        → InOrder 0 (if not gated then ws else vs)
    either true ws vs h k = k
    either false ws vs h k = h
