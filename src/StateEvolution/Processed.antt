-- ===== src/StateEvolution/Processed.antt =====
-- What `_process_data` gives, where it does not raise.
use mathlib.Core.Bool.{xor}
use queueboard_core.Prelude.{◌≡◌, refl, subst, ap, none, some, All, Option-cases, inl, inr}
use queueboard_core.Prelude.Text.{Text}
use queueboard_core.StateEvolution.Events.{PrData, Metadata, metadata_of, process_data, toggled}
use queueboard_core.StateEvolution.Replay.{IsPlain, parse_events-IsPlain}

pub record Processed (pr : PrData) (m : Metadata) : Type 0 where
  pub created : m.created_at ≡ pr.created_at
  pub plain : All (λ e. IsPlain e.change) m.events
  pub inferred : m.created_as_draft ≡ xor (toggled m.events) pr.is_draft

metadata_of-Processed : (pr : PrData) (owner : Text) → Processed pr (metadata_of pr owner)
unfolding metadata_of
metadata_of-Processed pr owner = record {
  created = refl;
  plain = parse_events-IsPlain pr.items;
  inferred = refl;
}

-- The metadata has the PR's creation, events that none of the two label lists is part of, and the
-- inferred draft flag.
pub process_data-Processed :
    (pr : PrData) (m : Metadata) → process_data pr ≡ some m → Processed pr m
unfolding process_data
process_data-Processed pr m h = elim (Option-cases pr.head_owner) [
  | inl e ↦ absurd (let raised = rw e at h in cc)
  | inr (owner, e) ↦
      let same : metadata_of pr owner ≡ m =
        ap (λ o. elim o [ none ↦ m | some x ↦ x ]) (rw e at h) in
      subst (Processed pr) same (metadata_of-Processed pr owner)
]

pub process_data-owner :
    (pr : PrData) (owner : Text)
    → pr.head_owner ≡ some owner
    → process_data pr ≡ some (metadata_of pr owner)
unfolding process_data
process_data-owner pr owner e = rw e refl

pub process_data-no_owner : (pr : PrData) → pr.head_owner ≡ none → process_data pr ≡ none
unfolding process_data
process_data-no_owner pr e = rw e refl
