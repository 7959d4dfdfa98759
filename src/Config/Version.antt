-- ===== src/Config/Version.antt =====
-- `version_lt` (src/config.cpp): dotted versions compared by their components.
pub mod Order
pub mod Padding
use abrek_mouse.Prelude.{
  ℕ, zero, suc, ◌+◌, ◌-◌, ◌*◌, ◌/◌, ◌%◌, ◌^◌, ◌≤◌, ◌<◌, min, max, ◌≡◌, refl, sym, ap, ◌∙◌, ◌≢◌, ◌↔◌,
  ◌⊎◌, inl, inr, Bool, true, false, not, ◌&&◌, ◌||◌, Option, none, some, List, [], ◌∷◌, ◌++◌, map,
  append-nil, append_assoc, arith, ltb, leb, ◌==◌, if◌then◌else◌, ltb→lt, lt→ltb, leb→le, ==_iff,
  tests, Bool-cases, Option-cases, length, get_or, take, drop, replicate, length-append,
  length-take, length-drop, length-replicate, take-append-drop, take-length, All, any_of, find_if,
  dec_lt, Text, codes, text_eq, text_eq_sound, text_eq_refl, is_empty, is_digit, to_lower,
}

abbrev int_max : ℕ
int_max = 2147483647

abbrev ulong_max : ℕ
ulong_max = 18446744073709551615

-- A character joins the text that it stands before.
split_first : ℕ → List Text → List Text
split_first c [] = (c ∷ []) ∷ []
split_first c (t ∷ ts) = (c ∷ t) ∷ ts

-- The texts between the dots: `find` and `substr` in the loop of `parse`.
unfoldable pub split_dots : Text → List Text
unfolding split_first
split_dots [] = [] ∷ []
split_dots (c ∷ s) = let rest = split_dots s in if c == b'.' then [] ∷ rest else split_first c rest

unfoldable pub all_digits : Text → Bool
unfolding is_digit
all_digits [] = true
all_digits (c ∷ s) = is_digit c && all_digits s

-- The number that `strtoull` reads from digits, before the test for a range error.
unfoldable pub decimal : ℕ → Text → ℕ
decimal n [] = n
decimal n (c ∷ s) = decimal (n * 10 + (c - b'0')) s

-- One component: digits only, and a number that fits an `int`.
unfoldable pub component : Text → Option ℕ
unfolding all_digits decimal
component [] = none
component (c ∷ s) =
    if c == b'-'
    then none
    else if not (all_digits (c ∷ s))
    then none
    else if ltb ulong_max (decimal 0 (c ∷ s))
    then none
    else if ltb int_max (decimal 0 (c ∷ s))
    then none
    else some (decimal 0 (c ∷ s))

unfoldable pub components : List Text → Option (List ℕ)
components [] = some []
components (t ∷ ts) = elim (component t) [
  | none ↦ none
  | some n ↦ elim (components ts) [ none ↦ none | some ns ↦ some (n ∷ ns) ]
]

unfoldable pub parse : Text → Option (List ℕ)
unfolding split_dots components
parse v = components (split_dots v)

-- The loop over the components: `n` rounds are left, the next is at `i`.
unfoldable pub compare_from : ℕ → ℕ → List ℕ → List ℕ → Bool
compare_from zero i a b = false
compare_from (suc n) i a b =
    let rest = compare_from n (suc i) a b in
    if get_or a i 0 == get_or b i 0 then rest else ltb (get_or a i 0) (get_or b i 0)

-- `version_lt`: an unreadable left side is older than all, an unreadable right side than none.
unfoldable pub version_lt : Text → Text → Bool
unfolding parse compare_from
version_lt lhs rhs = elim (parse lhs) [
  | none ↦ true
  | some a ↦ elim (parse rhs) [
    | none ↦ false
    | some b ↦ compare_from (max (length a) (length b)) 0 a b
  ]
]
