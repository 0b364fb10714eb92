-- ===== src/QueueWindows/Gated.antt =====
-- The windows of rules that gate on CI: what they hold, and their order.
use queueboard_core.Prelude.{
  ℕ, ◌≤◌, ◌<◌, ◌≡◌, ◌⊎◌, refl, sym, ap, subst, ◌∙◌, inl, inr, Bool, true, false, not, Option, none,
  some, List, [], ◌∷◌, leb, if◌then◌else◌, any, contains, insert, ◌==◌, nat_eq, All, Bool-cases,
  arith, contains-insert, contains-perm,
}
use queueboard_core.Prelude.Text.{Text}
use queueboard_core.Prelude.Sorting.{sorted, Ordered, sorted-Ordered, sorted-perm}
use queueboard_core.QueueRules.Rules.{QueueRules}
use queueboard_core.QueueWindows.Timeline.{
  PullRequest, TimelineEvent, closed_ts, closed_by_time, apply_event,
}
use queueboard_core.QueueWindows.Attribution.{CheckRun, StatusContext}
use queueboard_core.QueueWindows.Builder.{Opening, label_queue_windows}
use queueboard_core.QueueWindows.CiState.{Revision}
use queueboard_core.QueueWindows.Turn.{in_windows, is_open}
use queueboard_core.QueueWindows.Rows.{required_names, insert_all, change_times, boundary_times}
use queueboard_core.QueueWindows.Sweep.{
  taken, fold, latest, event_by, revision_by, Scan, Setting, boundary_at, is_on_at, turn_at,
  first_opening, take_boundary, finish_sweep, start_sweep, setting_of, start_scan, times_of,
  ci_queue_windows, queue_windows_with_rules,
}
use queueboard_core.QueueWindows.Recomputed.{
  Rising, last_by, step, Reached, advance-first, advance-Reached,
}
use queueboard_core.QueueWindows.Swept.{read, boundaries_lem}

contains-insert_all :
    (a : ℕ) (xs set : List ℕ) → contains a set ≡ true → contains a (insert_all xs set) ≡ true
unfolding insert_all
contains-insert_all a [] set m = m
contains-insert_all a (x ∷ xs) set m =
    contains-insert_all a xs (insert x set) (let e = contains-insert x a set in ground arith)

-- The head of rising times that list `t0` is not after it.
pub record IsRun (t0 : ℕ) (ts : List ℕ) : Type 0 where
  pub head : ℕ
  pub rest : List ℕ
  pub same : ts ≡ head ∷ rest
  pub by_start : head ≤ t0
  pub rises : Rising head rest

Ordered-Rising : (t : ℕ) (ts : List ℕ) → All (λ y. leb t y ≡ true) ts → Ordered leb ts → Rising t ts
Ordered-Rising t [] a o = tt
Ordered-Rising t (u ∷ ts) a o = (let first = a.0 in ground arith, Ordered-Rising u ts o.0 o.1)

All-listed : (t a : ℕ) (ts : List ℕ) → All (λ y. leb t y ≡ true) ts → contains a ts ≡ true → t ≤ a
unfolding contains
All-listed t a [] h m = absurd (cc)
All-listed t a (u ∷ ts) h m = elim (Bool-cases (a == u)) [
  | inl p ↦ let first = h.0 in ground arith
  | inr p ↦ All-listed t a ts h.1 (ground arith)
]

Ordered-IsRun : (t0 : ℕ) (ts : List ℕ) → Ordered leb ts → contains t0 ts ≡ true → IsRun t0 ts
unfolding contains
Ordered-IsRun t0 [] o m = absurd (cc)
Ordered-IsRun t0 (t ∷ ts) o m = record {
  head = t;
  rest = ts;
  same = refl;
  by_start = elim (Bool-cases (t0 == t)) [
    | inl p ↦ ground arith
    | inr p ↦ All-listed t t0 ts o.0 (ground arith)
  ];
  rises = Ordered-Rising t ts o.0 o.1;
}

leb_or : (x y : ℕ) → (leb x y ≡ true) ⊎ (leb y x ≡ true)
leb_or x y = elim (Bool-cases (leb x y)) [ inl p ↦ inl p | inr p ↦ inr (ground arith) ]

sorted-IsRun :
    (t0 as_of : ℕ) (xs : List ℕ)
    → IsRun t0 (sorted leb (insert_all xs (insert as_of (insert t0 []))))
sorted-IsRun t0 as_of xs =
    let set = insert_all xs (insert as_of (insert t0 [])) in
    let listed = contains-insert_all t0 xs (insert as_of (insert t0 [])) (
      let e = contains-insert as_of t0 (insert t0 []) in
      let f = contains-insert t0 t0 [] in ground arith) in
    Ordered-IsRun t0 (sorted leb set) (sorted-Ordered leb (λ x y z p q. ground arith) leb_or set)
      (contains-perm t0 (sorted leb set) set (sorted-perm leb set) ∙ listed)

pub boundary_times-IsRun :
    (t0 as_of : ℕ) (events : List TimelineEvent) (revisions : List Revision) (runs : List CheckRun)
    (contexts : List StatusContext) (closed : Option ℕ)
    → IsRun t0 (boundary_times t0 as_of events revisions runs contexts closed)
unfolding boundary_times
boundary_times-IsRun t0 as_of events revisions runs contexts closed =
    sorted-IsRun t0 as_of (change_times t0 as_of events revisions runs contexts closed)

first_opening-open :
    (t : ℕ) (head : Option Text) (on : Bool) → is_open (first_opening t head on) ≡ on
first_opening-open t head true = refl
first_opening-open t head false = refl

first_opening-started :
    (t : ℕ) (head : Option Text) (on : Bool) (o : Opening)
    → first_opening t head on ≡ some o
    → o.start ≤ t
first_opening-started t head true o e = ground arith
first_opening-started t head false o e = absurd (cc)

still_open :
    (c : Option ℕ) (t x : ℕ) → t ≤ x → closed_by_time c x ≡ false → closed_by_time c t ≡ false
still_open none t x le e = refl
still_open (some d) t x le e = ground arith

fold-Reached :
    (closed : Option ℕ) (required : List Text) (x : ℕ)
    → closed_by_time closed x ≡ false
    → (s0 s : Scan) (lo : ℕ) (ts : List ℕ) → Rising lo ts
    → Reached s0 lo s
    → Reached s0 (last_by x lo ts) (fold (step closed required) (taken (λ t. leb t x) ts) s)
unfolding fold taken last_by
fold-Reached closed required x open_then s0 s lo [] r h = h
fold-Reached closed required x open_then s0 s lo (t ∷ ts) r h = elim (Bool-cases (leb t x)) [
  | inl p ↦ rw p (
      fold-Reached closed required x open_then s0 (step closed required t s) t ts r.1 (
        advance-Reached closed required s0 s lo t r.0
          (still_open closed t x (ground arith) open_then) h))
  | inr p ↦ rw p h
]

module _ (c : Setting) (as_of t0 x : ℕ) (ge : t0 ≤ x) (known : x < as_of)
    (open_then : closed_by_time c.closed x ≡ false) (s : Scan) where
  from_first :
      (t : ℕ) (ts : List ℕ)
      → t ≤ x
      → Rising t ts
      → in_windows x (finish_sweep c as_of (fold (take_boundary c) (t ∷ ts) (start_sweep s)))
        ≡ is_on_at c (last_by x t ts) (fold (read c) (taken (λ u. leb u x) ts) (read c t s))
  unfolding fold take_boundary turn_at in_windows any
  from_first t ts le r =
      let here = read c t s in
      let on = is_on_at c t here in
      let y = boundary_at c t (start_sweep s) here in
      boundaries_lem c as_of x known open_then t ts (take_boundary c t (start_sweep s))
        (first_opening t y.head_sha on) le r refl (first_opening-open t y.head_sha on)
        (first_opening-started t y.head_sha on)

  during_run :
      (times : List ℕ)
      → IsRun t0 times
      → in_windows x (finish_sweep c as_of (fold (take_boundary c) times (start_sweep s)))
        ≡ is_on_at c (last_by x t0 times) (fold (read c) (taken (λ u. leb u x) times) s)
  unfolding fold taken last_by
  during_run times r =
      let first : leb r.head x ≡ true = let le = r.by_start in ground arith in
      let shape : List ℕ → Type 0 = λ l.
        in_windows x (finish_sweep c as_of (fold (take_boundary c) l (start_sweep s)))
        ≡ is_on_at c (last_by x t0 l) (fold (read c) (taken (λ u. leb u x) l) s) in
      subst shape (sym r.same)
        (rw first (from_first r.head r.rest (let le = r.by_start in ground arith) r.rises))

  during_run-Reached :
      (times : List ℕ)
      → IsRun t0 times
      → Reached s (last_by x t0 times) (fold (read c) (taken (λ u. leb u x) times) s)
  unfolding fold taken last_by
  during_run-Reached times r =
      let le = r.by_start in
      let first : leb r.head x ≡ true = ground arith in
      let shape : List ℕ → Type 0 =
        λ l. Reached s (last_by x t0 l) (fold (read c) (taken (λ u. leb u x) l) s) in
      subst shape (sym r.same) (
        rw first (
          fold-Reached c.closed c.required x open_then s (read c r.head s) r.head r.rest r.rises (
            advance-first c.closed c.required r.head s
              (still_open c.closed r.head x (ground arith) open_then))))

module _ (pr : PullRequest) (rules : QueueRules) (revisions : List Revision) (runs : List CheckRun)
    (contexts : List StatusContext) (as_of x : ℕ) where
  abbrev pub start : Scan
  start = start_scan pr rules revisions runs contexts as_of

  abbrev pub times : List ℕ
  times = times_of pr as_of start

  -- The last boundary time up to `x`.
  abbrev pub boundary : ℕ
  boundary = last_by x pr.gh_created_at times

  -- What the loop has read when it is done with that boundary.
  abbrev pub scan_then : Scan
  scan_then = fold (step (closed_ts pr) (required_names rules)) (taken (λ u. leb u x) times) start

  windows-gated :
      rules.require_ci_success ≡ true
      → queue_windows_with_rules pr rules revisions runs contexts as_of
        ≡ finish_sweep
            (setting_of pr rules revisions)
            as_of
            (fold (take_boundary (setting_of pr rules revisions)) times (start_sweep start))
  unfolding queue_windows_with_rules
  windows-gated gated =
      ap
        (λ b.
          if not b
          then label_queue_windows pr rules as_of
          else ci_queue_windows pr rules revisions runs contexts as_of)
        gated

  -- Under rules that gate on CI, at every time from the PR's creation to before `as_of` at which the
  -- PR is not closed by its `closed_at`, or else its `merged_at`: the time is in one of the windows
  -- exactly when the rules put the PR on the queue at the last boundary time up to it, with the CI
  -- state of the rows that the loop has read by then; the state that they are asked about comes of
  -- all events up to that boundary, and the head is that of the last revision that starts by it.
  pub queue_windows_with_rules-last_boundary :
      rules.require_ci_success ≡ true
      → pr.gh_created_at ≤ x
      → x < as_of
      → closed_by_time (closed_ts pr) x ≡ false
      → (in_windows x (queue_windows_with_rules pr rules revisions runs contexts as_of)
          ≡ is_on_at (setting_of pr rules revisions) boundary scan_then)
        × (scan_then.state ≡ fold apply_event (taken (event_by boundary) start.events) start.state)
        × (scan_then.current_rev ≡ fold latest (taken (revision_by boundary) start.revisions) none)
  unfolding start_scan
  queue_windows_with_rules-last_boundary gated ge known open_then =
      let c = setting_of pr rules revisions in
      let run =
        boundary_times-IsRun pr.gh_created_at as_of start.events start.revisions start.runs
          start.contexts (closed_ts pr) in
      let reached =
        during_run-Reached c as_of pr.gh_created_at x ge known open_then start times run in
      (
        ap (in_windows x) (windows-gated gated)
            ∙ during_run c as_of pr.gh_created_at x ge known open_then start times run,
        reached.state_read,
        reached.rev_read,
      )
