-- ===== src/RateBudget/Tests.antt =====
-- `choose_token` on three tokens: below the threshold, unknown and exhausted.
use queueboard_core.Prelude.{
  ◌≡◌, refl, if◌then◌else◌, keep, true, false, Option, none, some, List, [], ◌∷◌, contains,
  is_empty, arith,
}
use queueboard_core.Prelude.Int.{pos}
use queueboard_core.Prelude.Text.{Text, text_eq, text_beq, text_beq_iff, codes}
use queueboard_core.Prelude.Dict.{get, put}
use queueboard_core.RateBudget.Choose.{Snapshot, choose_token}
use queueboard_core.RateBudget.Preference.{Draws, is_no_better}
use queueboard_core.RateBudget.Chosen.{choose_token-is_no_better, budget}

abbrev tokens : List Text
tokens = codes "spent" ∷ codes "new" ∷ codes "" ∷ codes "low" ∷ []

-- A short stand-in for the hash.
abbrev itself : Text → Text
itself t = t

abbrev known : Text → Option Snapshot
known t =
    if text_beq t (codes "spent")
    then some (record { remaining = some (pos 0); reset_at = some 900 })
    else if text_beq t (codes "low")
    then some (record { remaining = some (pos 150); reset_at = some 700 })
    else none

abbrev first : List Text → Text
first [] = []
first (t ∷ ts) = t

first-Draws : Draws first
unfolding contains
first-Draws [] h = absurd (cc)
first-Draws (t ∷ ts) h = ground (arith, text_beq_iff t t)

low_first : choose_token itself known first (pos 200) 500 tokens ≡ some (codes "low")
unfolding choose_token keep text_beq put get
low_first = refl

above_first : choose_token itself known first (pos 100) 500 tokens ≡ some (codes "low")
unfolding choose_token keep text_beq put get
above_first = refl

no_token : choose_token itself known first (pos 100) 500 ([] ∷ []) ≡ none
unfolding choose_token keep text_beq put get
no_token = refl

listed : contains (codes "new") tokens ≡ true
unfolding contains text_beq
listed = refl

choose_token-is_no_better_example :
    (t : Text) × ((choose_token itself known first (pos 200) 500 tokens ≡ some t)
      × (contains t tokens ≡ true)
      × (is_empty t ≡ false)
      × ((s : Text)
          → contains s tokens ≡ true
          → is_empty s ≡ false
          → is_no_better (budget itself known first 200 500 s) (budget itself known first 200 500 t)
            ≡ true))
choose_token-is_no_better_example =
    choose_token-is_no_better itself known first 200 500 first-Draws tokens (λ s t m n f g e. e)
      (codes "new") listed refl
