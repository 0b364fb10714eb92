-- ===== src/CiBackoff/Partition.antt =====
-- The partition of a list of SHAs.
use queueboard_core.Prelude.{
  ℕ, ◌≡◌, refl, ap, ◌∙◌, Bool, true, false, not, ◌&&◌, ◌||◌, Option, List, [], ◌∷◌, ◌++◌, ◌==◌,
  if◌then◌else◌, contains, contains-append, any, is_empty, Bool-cases, inl, inr, arith,
}
use queueboard_core.Prelude.Text.{Text, text_eq, text_beq_iff}
use queueboard_core.CiBackoff.Decide.{Settings, CiShaFetchState, should_enqueue_ci_sha}
use queueboard_core.CiBackoff.Store.{
  sha_of, Filtered, nothing_seen, filter_sha, filter_shas, filter_ci_shas_for_enqueue,
}

-- The list names the SHA, up to white space around it.
abbrev pub names : List (Option Text) → Text → Bool
names shas sha = any (λ raw. not (is_empty (sha_of raw)) && sha == sha_of raw) shas

-- What was seen is allowed or blocked, as the test says.
pub record Split (test : Text → Bool) (f : Filtered) : Type 0 where
  yes : (x : Text) → contains x f.allowed ≡ (contains x f.seen && test x)
  not_yet : (x : Text) → contains x f.blocked ≡ (contains x f.seen && not (test x))

module _ (test : Text → Bool) where
  grow :
      (want : Bool) (sha x : Text) (ys seen : List Text)
      → test sha ≡ want
      → contains x ys ≡ (contains x seen && (if want then test x else not (test x)))
      → contains x (ys ++ sha ∷ [])
        ≡ ((x == sha || contains x seen) && (if want then test x else not (test x)))
  unfolding contains
  grow want sha x ys seen t e = rw (contains-append x ys (sha ∷ [])) (elim (Bool-cases (x == sha)) [
    | inl p ↦ let same = ap test ((text_beq_iff x sha).0 p) in rw p (ground arith)
    | inr p ↦ rw p (ground arith)
  ])

  stay :
      (want : Bool) (sha x : Text) (ys seen : List Text)
      → test sha ≡ not want
      → contains x ys ≡ (contains x seen && (if want then test x else not (test x)))
      → contains x ys ≡ ((x == sha || contains x seen) && (if want then test x else not (test x)))
  stay want sha x ys seen t e = elim (Bool-cases (x == sha)) [
    | inl p ↦ let same = ap test ((text_beq_iff x sha).0 p) in rw p (ground arith)
    | inr p ↦ rw p e
  ]

  filter_sha-Split :
      (f : Filtered) (raw : Option Text) → Split test f → Split test (filter_sha test f raw)
  unfolding filter_sha contains
  filter_sha-Split f raw s =
      let sha = sha_of raw in
      elim (Bool-cases (is_empty sha || contains sha f.seen)) [
        | inl p ↦ rw p s
        | inr p ↦ elim (Bool-cases (test sha)) [
          | inl t ↦
              rw (p, t)
                (record {
                  yes = λ x. grow true sha x f.allowed f.seen t (s.yes x);
                  not_yet = λ x. stay false sha x f.blocked f.seen t (s.not_yet x);
                })
          | inr t ↦
              rw (p, t)
                (record {
                  yes = λ x. stay true sha x f.allowed f.seen t (s.yes x);
                  not_yet = λ x. grow false sha x f.blocked f.seen t (s.not_yet x);
                })
        ]
      ]

  filter_sha-seen :
      (f : Filtered) (raw : Option Text) (x : Text)
      → contains x (filter_sha test f raw).seen
        ≡ (contains x f.seen || (not (is_empty (sha_of raw)) && x == sha_of raw))
  unfolding filter_sha contains
  filter_sha-seen f raw x =
      let sha = sha_of raw in
      elim (Bool-cases (is_empty sha)) [
        | inl p ↦ rw p (ground arith)
        | inr p ↦ elim (Bool-cases (contains sha f.seen)) [
          | inl q ↦
              rw (p, q)
                (elim (Bool-cases (x == sha)) [
                  | inl r ↦
                      let same = ap (λ k. contains k f.seen) ((text_beq_iff x sha).0 r) in
                      ground arith
                  | inr r ↦ ground arith
                ])
          | inr q ↦ elim (Bool-cases (test sha)) [
            | inl t ↦ rw (p, q, t) (ground arith)
            | inr t ↦ rw (p, q, t) (ground arith)
          ]
        ]
      ]

  filter_shas-Split :
      (f : Filtered) (shas : List (Option Text))
      → Split test f
      → Split test (filter_shas test f shas)
  unfolding filter_shas
  filter_shas-Split f [] s = s
  filter_shas-Split f (raw ∷ shas) s =
      filter_shas-Split (filter_sha test f raw) shas (filter_sha-Split f raw s)

  filter_shas-seen :
      (f : Filtered) (shas : List (Option Text)) (x : Text)
      → contains x (filter_shas test f shas).seen ≡ (contains x f.seen || names shas x)
  unfolding filter_shas any
  filter_shas-seen f [] x = ground arith
  filter_shas-seen f (raw ∷ shas) x =
      filter_shas-seen (filter_sha test f raw) shas x ∙ rw (filter_sha-seen f raw x) (ground arith)

-- The SHAs that the list names are split in two: those that may be fetched, all of them if the
-- backoff is overridden, and those that may not; no other SHA is in either part.
pub filter_ci_shas_for_enqueue-partition :
    (settings : Settings) (now : ℕ) (gh_updated_at : Option ℕ) (states : List CiShaFetchState)
    (shas : List (Option Text)) (override_backoff : Bool) (sha : Text)
    → let result =
        filter_ci_shas_for_enqueue settings now gh_updated_at states shas override_backoff in
      let may = override_backoff || should_enqueue_ci_sha settings now gh_updated_at states sha in
      (contains sha result.0 ≡ (names shas sha && may))
      × (contains sha result.1 ≡ (names shas sha && not may))
unfolding filter_ci_shas_for_enqueue
filter_ci_shas_for_enqueue-partition settings now updated states shas override sha =
    let test : Text → Bool = λ x. override || should_enqueue_ci_sha settings now updated states x in
    let split =
      filter_shas-Split test nothing_seen shas
        (unfold contains in record { yes = λ x. refl; not_yet = λ x. refl }) in
    let seen = filter_shas-seen test nothing_seen shas sha in
    (
      split.yes sha ∙ ap (λ b. b && test sha) (seen ∙ (unfold contains in refl)),
      split.not_yet sha ∙ ap (λ b. b && not (test sha)) (seen ∙ (unfold contains in refl)),
    )
