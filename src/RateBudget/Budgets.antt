-- ===== src/RateBudget/Budgets.antt =====
-- What is known of each token, and where the loop over the tokens puts it.
use mathlib.Core.List.{Memᴰ}
use mathlib.Core.List.Memᴰ
use queueboard_core.Prelude.{
  ℕ, ◌≡◌, refl, not, Option, none, some, [], ◌∷◌, ◌++◌, if◌then◌else◌, nat_eq, arith,
}
use queueboard_core.Prelude.Int.{ℤ, pos}
use queueboard_core.Prelude.Text.{Text, text_eq}
use queueboard_core.RateBudget.Choose.{
  Snapshot, Found, lt_int, add_exhausted, take_remaining, take_token,
}

-- What is known of a token: more left than the threshold, less, nothing known, nothing left until a
-- time, nothing left.
pub data Budget : Type 0 where
  ample low : ℤ → Budget
  unknown : Budget
  exhausted : ℕ → Budget
  spent : Budget

abbrev pub until : Option ℕ → Budget
until none = spent
until (some t) = exhausted t

abbrev pub left_of : ℕ → Option ℤ → Option ℕ → Budget
left_of threshold none reset = unknown
left_of threshold (some rem) reset =
    if not (lt_int (pos 0) rem)
    then until reset
    else if lt_int (pos threshold) rem
    then ample rem
    else low rem

unfoldable pub budget_of : ℕ → Option Snapshot → Budget
budget_of threshold none = unknown
budget_of threshold (some snap) = left_of threshold snap.remaining snap.reset_at

unfoldable pub add_by : Budget → Text → Found → Found
add_by (ample r) t f = record f { above_threshold = f.above_threshold ++ (r, t) ∷ [] }
add_by (low r) t f = record f { low_budget = f.low_budget ++ (r, t) ∷ [] }
add_by unknown t f = record f { unknown = f.unknown ++ t ∷ [] }
add_by (exhausted d) t f = record f { exhausted = f.exhausted ++ (d, t) ∷ [] }
add_by spent t f = f

take_remaining-add_by :
    (threshold now : ℕ) (rem : ℤ) (reset : Option ℕ) (t : Text) (f : Found)
    → take_remaining (pos threshold) now (some rem) reset t f
      ≡ add_by (left_of threshold (some rem) reset) t f
unfolding take_remaining add_exhausted add_by
take_remaining-add_by threshold now rem none t f = ground arith
take_remaining-add_by threshold now rem (some d) t f = ground arith

pub take_token-add_by :
    (threshold now : ℕ) (snap : Option Snapshot) (t : Text) (f : Found)
    → take_token (pos threshold) now snap t f ≡ add_by (budget_of threshold snap) t f
unfolding take_token budget_of
take_token-add_by threshold now none t f = unfold add_by in refl
take_token-add_by threshold now (some snap) t f = by_remaining snap.remaining
  where
    by_remaining :
        (rem : Option ℤ)
        → take_remaining (pos threshold) now rem snap.reset_at t f
          ≡ add_by (left_of threshold rem snap.reset_at) t f
    by_remaining none = unfold add_by take_remaining in refl
    by_remaining (some rem) = take_remaining-add_by threshold now rem snap.reset_at t f

-- The token is where its budget says.
abbrev pub Holds : Budget → Text → Found → Type 0
Holds (ample r) t f = Memᴰ (r, t) f.above_threshold
Holds (low r) t f = Memᴰ (r, t) f.low_budget
Holds unknown t f = Memᴰ t f.unknown
Holds (exhausted d) t f = Memᴰ (d, t) f.exhausted
Holds spent t f = Unit

pub Holds-kept : (b c : Budget) (s t : Text) (f : Found) → Holds b s f → Holds b s (add_by c t f)
unfolding add_by
Holds-kept (ample r) (ample q) s t f h = Memᴰ.append_left _ h
Holds-kept (low r) (low q) s t f h = Memᴰ.append_left _ h
Holds-kept unknown unknown s t f h = Memᴰ.append_left _ h
Holds-kept (exhausted r) (exhausted q) s t f h = Memᴰ.append_left _ h
Holds-kept spent c s t f h = tt
Holds-kept (ample r) _ s t f h = h
Holds-kept (low r) _ s t f h = h
Holds-kept unknown _ s t f h = h
Holds-kept (exhausted r) _ s t f h = h

pub Holds-new : (b : Budget) (t : Text) (f : Found) → Holds b t (add_by b t f)
unfolding add_by
Holds-new (ample r) t f = Memᴰ.append_right f.above_threshold (Memᴰ.head refl)
Holds-new (low r) t f = Memᴰ.append_right f.low_budget (Memᴰ.head refl)
Holds-new unknown t f = Memᴰ.append_right f.unknown (Memᴰ.head refl)
Holds-new (exhausted d) t f = Memᴰ.append_right f.exhausted (Memᴰ.head refl)
Holds-new spent t f = tt
