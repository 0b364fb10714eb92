-- ===== src/Prelude/Text.antt =====
-- Text as code points. `strip` and `lower` are Python's `str.strip` and
-- `str.lower` on ASCII.
use Prim.Native.Nat.{ℕ, ◌+◌, ◌-◌}
use Prim.Native.Char.{code}
use Prim.Native.String.{String}
use mathlib.Core.Path.{◌≡◌, refl}
use mathlib.Core.Logic.{◌↔◌}
use mathlib.Core.Bool.{Bool, true, false, ◌&&◌, ◌||◌}
use mathlib.Core.List.{List, [], ◌∷◌, map}
use mathlib.Core.Option.{Option, none, some}
use native.Mathlib.Omega.{arith}
use queueboard_core.Prelude.Tests.{nat_beq, leb, if◌then◌else◌}
use queueboard_core.Prelude.Equality.{Eq, ◌==◌, nat_eq}

abbrev pub Text : Type 0
Text = List ℕ

abbrev pub codes : String → Text
codes String.[] = []
codes (String.◌∷◌ c s) = code c ∷ codes s

unfoldable pub text_beq : Text → Text → Bool
text_beq [] [] = true
text_beq (a ∷ s) (b ∷ t) = nat_beq a b && text_beq s t
text_beq _ _ = false

pub text_beq_iff : (s t : Text) → (text_beq s t ≡ true) ↔ (s ≡ t)
unfolding text_beq
text_beq_iff [] [] = (λ _. refl, λ _. refl)
text_beq_iff [] (b ∷ t) = (λ e. cc, λ e. cc)
text_beq_iff (a ∷ s) [] = (λ e. cc, λ e. cc)
text_beq_iff (a ∷ s) (b ∷ t) =
    (λ e. ground (arith, text_beq_iff s t), λ e. ground (arith, text_beq_iff s t))

instance abbrev pub text_eq : Eq Text
text_eq = record { beq = text_beq; beq_iff = text_beq_iff }

-- The ASCII characters that `str.strip` removes.
is_space : ℕ → Bool
is_space c = c == 32 || (leb 9 c && leb c 13) || (leb 28 c && leb c 31)

lower_code : ℕ → ℕ
lower_code c = if leb 65 c && leb c 90 then c + 32 else c

unfoldable pub lower : Text → Text
unfolding lower_code
lower s = map lower_code s

upper_code : ℕ → ℕ
upper_code c = if leb 97 c && leb c 122 then c - 32 else c

-- `str.upper` on ASCII.
unfoldable pub upper : Text → Text
unfolding upper_code
upper s = map upper_code s

lstrip : Text → Text
lstrip [] = []
lstrip (c ∷ s) = let rest = lstrip s in if is_space c then rest else c ∷ s

-- Drops the white space at the end.
rstrip_cons : ℕ → Text → Text
rstrip_cons c [] = if is_space c then [] else c ∷ []
rstrip_cons c (d ∷ s) = c ∷ d ∷ s

rstrip : Text → Text
rstrip [] = []
rstrip (c ∷ s) = rstrip_cons c (rstrip s)

unfoldable pub strip : Text → Text
unfolding is_space lstrip rstrip_cons rstrip
strip s = rstrip (lstrip s)

-- What is left after `\s*` of a pattern.
unfoldable pub skip_spaces : Text → Text
unfolding is_space lstrip
skip_spaces s = lstrip s

-- `s or ""`
abbrev pub or_empty : Option Text → Text
or_empty none = []
or_empty (some s) = s

unfoldable pub starts_with : Text → Text → Bool
starts_with [] t = true
starts_with (a ∷ s) [] = false
starts_with (a ∷ s) (b ∷ t) = a == b && starts_with s t

-- `fragment in name`
unfoldable pub is_infix : Text → Text → Bool
unfolding starts_with
is_infix s [] = starts_with s []
is_infix s (b ∷ t) = starts_with s (b ∷ t) || is_infix s t

-- `name.strip().lower()`
unfoldable pub normalize : Text → Text
unfolding strip lower
normalize s = lower (strip s)

-- Lowering keeps white space what it is, and lowers nothing twice.
lower_code_space : (c : ℕ) → is_space (lower_code c) ≡ is_space c
unfolding is_space lower_code
lower_code_space c = ground arith

lower_code_idem : (c : ℕ) → lower_code (lower_code c) ≡ lower_code c
unfolding lower_code
lower_code_idem c = ground arith

pub lower_idem : (s : Text) → lower (lower s) ≡ lower s
unfolding lower
lower_idem [] = refl
lower_idem (c ∷ s) = ground (arith, lower_code_idem c, lower_idem s)
