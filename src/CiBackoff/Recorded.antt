-- ===== src/CiBackoff/Recorded.antt =====
-- What a recorded fetch does to the next decision.
use queueboard_core.Prelude.{
  ℕ, ◌+◌, ◌*◌, ◌≡◌, refl, sym, subst, ap, ◌∙◌, Bool, true, false, Option, none, some, List, [], ◌∷◌,
  leb, ◌==◌, if◌then◌else◌, contains, is_empty, Bool-cases, Option-cases, inl, inr, beq_refl,
}
use queueboard_core.Prelude.Text
use queueboard_core.Prelude.Text.{Text, text_eq, text_beq_iff, codes}
use queueboard_core.CiBackoff.Decide.{
  Settings, CiShaFetchState, should_enqueue_ci_sha, find_state, should_enqueue_state,
  should_enqueue_ci_sha_with_state,
}
use queueboard_core.CiBackoff.Store.{ok, first_state, next_state, put_state, record_ci_sha_fetch}

-- The state of a SHA after a fetch, from the one before it.
abbrev after_fetch : ℕ → ℕ → Text → Text → Option CiShaFetchState → CiShaFetchState
after_fetch clock now sha result none = first_state clock now sha result
after_fetch clock now sha result (some s) = next_state now result s

put_state-find :
    (clock now : ℕ) (sha result other : Text) (states : List CiShaFetchState)
    → find_state other (put_state clock now sha result states) ≡ (
        if sha == other
        then some (after_fetch clock now sha result (find_state sha states))
        else find_state other states)
unfolding find_state put_state
put_state-find clock now sha result other [] = refl
put_state-find clock now sha result other (s ∷ states) = elim (Bool-cases (s.sha == sha)) [
  | inl p ↦
      let same = ap (λ k. k == other) ((text_beq_iff s.sha sha).0 p) in
      elim (Bool-cases (sha == other)) [
        | inl q ↦ rw (p, q) (rw (same, q) refl)
        | inr q ↦ rw (p, q) (rw (same, q) refl)
      ]
  | inr p ↦ elim (Bool-cases (s.sha == other)) [
    | inl q ↦
        let apart : (sha == other) ≡ false = elim (Bool-cases (sha == other)) [
          | inl r ↦ absurd (
              let a = (text_beq_iff s.sha other).0 q in
              let b = (text_beq_iff sha other).0 r in
              let c = (text_beq_iff s.sha sha).1 (a ∙ sym b) in cc)
          | inr r ↦ r
        ] in
        rw (p, q, apart) refl
    | inr q ↦ rw (p, q) (put_state-find clock now sha result other states)
  ]
]

-- The last result of a state is a success.
abbrev pub is_ok : Option CiShaFetchState → Bool
is_ok none = false
is_ok (some s) = s.last_result == ok

after_fetch-ok :
    (clock now : ℕ) (sha result : Text) (s : Option CiShaFetchState)
    → is_ok s ≡ true
    → is_ok (some (after_fetch clock now sha result s)) ≡ true
unfolding next_state
after_fetch-ok clock now sha result none e = absurd (cc)
after_fetch-ok clock now sha result (some s) e = elim (Bool-cases (result == ok)) [
  | inl r ↦ rw (e, r) r
  | inr r ↦ rw (e, r) e
]

record_ci_sha_fetch-ok :
    (clock now : ℕ) (sha result other : Text) (states : List CiShaFetchState)
    → is_ok (find_state other states) ≡ true
    → is_ok (find_state other (record_ci_sha_fetch clock now sha result states)) ≡ true
unfolding record_ci_sha_fetch
record_ci_sha_fetch-ok clock now sha result other states e = elim (Bool-cases (is_empty sha)) [
  | inl p ↦ rw p e
  | inr p ↦
      rw (p, put_state-find clock now sha result other states)
        (elim (Bool-cases (sha == other)) [
          | inl q ↦
              let same = ap (λ k. find_state k states) ((text_beq_iff sha other).0 q) in
              rw q (after_fetch-ok clock now sha result (find_state sha states) (rw same e))
          | inr q ↦ rw q e
        ])
]

-- A recorded fetch.
pub record Fetch : Type 0 where
  pub clock : ℕ
  pub now : ℕ
  pub sha : Text
  pub result : Text

unfoldable pub record_all : List Fetch → List CiShaFetchState → List CiShaFetchState
record_all [] states = states
record_all (f ∷ fetches) states =
    record_all fetches (record_ci_sha_fetch f.clock f.now f.sha f.result states)

record_all-ok :
    (fetches : List Fetch) (other : Text) (states : List CiShaFetchState)
    → is_ok (find_state other states) ≡ true
    → is_ok (find_state other (record_all fetches states)) ≡ true
unfolding record_all
record_all-ok [] other states e = e
record_all-ok (f ∷ fetches) other states e =
    record_all-ok fetches other (record_ci_sha_fetch f.clock f.now f.sha f.result states)
      (record_ci_sha_fetch-ok f.clock f.now f.sha f.result other states e)

should_enqueue_state-ok :
    (settings : Settings) (now : ℕ) (gh_updated_at : Option ℕ) (s : CiShaFetchState)
    → is_ok (some s) ≡ true
    → should_enqueue_state settings now gh_updated_at s ≡ true
unfolding should_enqueue_state contains Text.text_beq
should_enqueue_state-ok settings now gh_updated_at s e =
    let same : s.last_result ≡ ok = (text_beq_iff s.last_result ok).0 e in
    subst
      (λ l. should_enqueue_state settings now gh_updated_at (record s { last_result = l }) ≡ true)
      (sym same) refl

-- Once a fetch of a SHA has succeeded, the SHA is never held back again, whatever fetches are
-- recorded after that.
pub record_all-never_blocked :
    (settings : Settings) (now : ℕ) (gh_updated_at : Option ℕ) (sha : Text) (fetches : List Fetch)
    (states : List CiShaFetchState)
    → is_empty sha ≡ false
    → is_ok (find_state sha states) ≡ true
    → should_enqueue_ci_sha settings now gh_updated_at (record_all fetches states) sha ≡ true
unfolding should_enqueue_ci_sha should_enqueue_ci_sha_with_state
record_all-never_blocked settings now updated sha fetches states e good =
    let still = record_all-ok fetches sha states good in
    elim (Option-cases (find_state sha (record_all fetches states))) [
      | inl p ↦ absurd (let bad = rw p at still in cc)
      | inr p ↦ rw (p.1, e) (should_enqueue_state-ok settings now updated p.0 (rw (p.1) at still))
    ]

first_state-cooldown :
    (settings : Settings) (clock now later : ℕ) (gh_updated_at : Option ℕ) (sha : Text)
    → should_enqueue_state settings later gh_updated_at (first_state clock now sha (codes "error"))
      ≡ leb (now + settings.backoff_error_seconds * 1000000) later
unfolding should_enqueue_state first_state contains Text.text_beq
first_state-cooldown settings clock now later updated sha = refl

next_state-cooldown :
    (settings : Settings) (now later : ℕ) (gh_updated_at : Option ℕ) (s : CiShaFetchState)
    → is_ok (some s) ≡ false
    → should_enqueue_state settings later gh_updated_at (next_state now (codes "error") s)
      ≡ leb (now + settings.backoff_error_seconds * 1000000) later
next_state-cooldown settings now later updated s e =
    let fresh : next_state now (codes "error") s ≡ record s {
      attempts = s.attempts + 1;
      last_attempted_at = now;
      last_result = codes "error";
    } =
      unfold next_state Text.text_beq in rw e refl in
    ap (should_enqueue_state settings later updated) fresh
    ∙ (unfold should_enqueue_state contains Text.text_beq in refl)

-- After a failed fetch of a SHA that has not succeeded before, the SHA is fetched again exactly
-- from the end of the cooldown on.
pub record_ci_sha_fetch-cooldown :
    (settings : Settings) (clock now later : ℕ) (gh_updated_at : Option ℕ) (sha : Text)
    (states : List CiShaFetchState)
    → is_empty sha ≡ false
    → is_ok (find_state sha states) ≡ false
    → should_enqueue_ci_sha settings later gh_updated_at
        (record_ci_sha_fetch clock now sha (codes "error") states)
        sha
      ≡ leb (now + settings.backoff_error_seconds * 1000000) later
unfolding should_enqueue_ci_sha should_enqueue_ci_sha_with_state record_ci_sha_fetch
record_ci_sha_fetch-cooldown settings clock now later updated sha states e fresh =
    rw (e, put_state-find clock now sha (codes "error") sha states, beq_refl sha)
      (elim (Option-cases (find_state sha states)) [
        | inl p ↦ rw (p, e) (first_state-cooldown settings clock now later updated sha)
        | inr p ↦
            rw (p.1, e) (next_state-cooldown settings now later updated p.0 (rw (p.1) at fresh))
      ])
