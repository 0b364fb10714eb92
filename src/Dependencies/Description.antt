-- ===== src/Dependencies/Description.antt =====
-- `parse_dependency_numbers`: what `DEPENDENCY_PATTERN` finds in the description of a PR.
use queueboard_core.Prelude.{
  ℕ, ◌+◌, ◌*◌, ◌-◌, Bool, ◌&&◌, Option, none, some, List, [], ◌∷◌, leb, if◌then◌else◌, insert, ◌==◌,
  nat_eq, ◌>>=◌,
}
use queueboard_core.Prelude.Text.{Text, text_eq, codes, lower, or_empty, skip_spaces}
use queueboard_core.Prelude.Sorting.{sorted}

-- A part of the pattern that is written out, where the case of a letter does not count.
unfoldable pub drop_word : Text → Text → Option Text
drop_word [] s = some s
drop_word (a ∷ word) [] = none
drop_word (a ∷ word) (c ∷ s) =
    let rest = drop_word word s in if lower (c ∷ []) == a ∷ [] then rest else none

-- `[ x]`
unfoldable pub drop_mark : Text → Option Text
drop_mark [] = none
drop_mark (c ∷ s) = if c == 32 then some s else if lower (c ∷ []) == codes "x" then some s else none

abbrev pub is_digit : ℕ → Bool
is_digit c = leb 48 c && leb c 57

-- The number that `\d+` and `int` read, after the digits that are read already.
unfoldable pub more_digits : ℕ → Text → ℕ
more_digits n [] = n
more_digits n (c ∷ s) =
    let rest = more_digits (n * 10 + (c - 48)) s in if is_digit c then rest else n

unfoldable pub digits : Text → Option ℕ
unfolding more_digits
digits [] = none
digits (c ∷ s) = if is_digit c then some (more_digits (c - 48) s) else none

-- The number of a match that starts here.
unfoldable pub match_here : Text → Option ℕ
unfolding drop_word drop_mark digits
match_here s = do
  a ← drop_word (codes "-") s
  b ← drop_word (codes "[") (skip_spaces a)
  c ← drop_mark b
  d ← drop_word (codes "]") c
  e ← drop_word (codes "depends on:") (skip_spaces d)
  f ← drop_word (codes "#") (skip_spaces e)
  digits f

abbrev pub add_found : Option ℕ → List ℕ → List ℕ
add_found none ns = ns
add_found (some n) ns = n ∷ ns

-- `findall` goes on behind a match; no match starts inside another one, since a match has no other
-- hyphen than its first character.
unfoldable pub find_all : Text → List ℕ
unfolding match_here
find_all [] = []
find_all (c ∷ s) = add_found (match_here (c ∷ s)) (find_all s)

unfoldable pub number_set : List ℕ → List ℕ
number_set [] = []
number_set (n ∷ ns) = insert n (number_set ns)

unfoldable pub parse_dependency_numbers : Option Text → List ℕ
unfolding find_all number_set
parse_dependency_numbers body = sorted leb (number_set (find_all (or_empty body)))
