-- ===== src/Hidpp/Dpi.antt =====
-- The DPI list of a mouse (src/logitech_hidpp.cpp, decode_dpi_levels): big-endian words, where a
-- word from 0xE000 on is a step and the next word is the last level that the steps reach.
pub mod Ranges
pub mod Levels
use abrek_mouse.Prelude.{
  ℕ, zero, suc, ◌+◌, ◌-◌, ◌*◌, ◌/◌, ◌%◌, ◌^◌, ◌≤◌, ◌<◌, min, max, ◌≡◌, refl, sym, ap, ◌∙◌, ◌≢◌, ◌↔◌,
  ◌⊎◌, inl, inr, Bool, true, false, not, ◌&&◌, ◌||◌, Option, none, some, List, [], ◌∷◌, ◌++◌, map,
  append-nil, append_assoc, arith, ltb, leb, ◌==◌, if◌then◌else◌, ltb→lt, lt→ltb, leb→le, ==_iff,
  tests, Bool-cases, Option-cases, length, get_or, take, drop, replicate, length-append,
  length-take, length-drop, length-replicate, take-append-drop, take-length, All, any_of, find_if,
  dec_lt,
}
use abrek_mouse.Hidpp.Bytes.{
  IsByte, IsU16, at, bit, hi_byte, lo_byte, be16, read_be16, bounded_string, bytes_to_hex,
  at-IsByte,
}

-- `levels.back()`; the callers check that the vector is not empty.
abbrev pub back : List ℕ → ℕ
back [] = 0
back (x ∷ []) = x
back (x ∷ y ∷ l) = back (y ∷ l)

abbrev pub is_empty {ℓ} : {A : Type ℓ} → List A → Bool
is_empty [] = true
is_empty (x ∷ l) = false

-- `for (; next <= last; next += step)` with its two breaks. Each round pushes a level and stops at
-- 2048 of them, so 2049 rounds are enough.
pub step_loop : ℕ → ℕ → ℕ → ℕ → List ℕ → List ℕ
step_loop zero step last next levels = levels
step_loop (suc fuel) step last next levels =
    let more = step_loop fuel step last (next + step) (levels ++ next ∷ []) in
    if leb next last && leb next 0xFFFF && ltb (length levels) 2048 then more else levels

-- The last level need not lie on the grid of steps.
pub close_range : ℕ → List ℕ → List ℕ
close_range last levels =
    if ltb (length levels) 2048 && not (back levels == last) then levels ++ last ∷ [] else levels

pub expand_marker : ℕ → ℕ → List ℕ → List ℕ
expand_marker step last levels =
    if not (step == 0) && not (is_empty levels) && ltb (back levels) last
    then close_range last (step_loop 2049 step last (back levels + step) levels)
    else levels

-- The list is what `i` has not reached, and `levels` the vector so far. Without a companion a
-- marker is dropped.
pub decode_from : List ℕ → List ℕ → List ℕ
decode_from levels [] = levels
decode_from levels (hi ∷ []) = levels
decode_from levels (hi ∷ lo ∷ h2 ∷ l2 ∷ rest) =
    let value = be16 hi lo in
    let stepped = decode_from (expand_marker (value % 8192) (be16 h2 l2) levels) rest in
    let plain = decode_from (levels ++ value ∷ []) (h2 ∷ l2 ∷ rest) in
    if value == 0 then levels else if value / 8192 == 7 then stepped else plain
decode_from levels (hi ∷ lo ∷ rest) =
    let value = be16 hi lo in
    if value == 0 || value / 8192 == 7 then levels else levels ++ value ∷ []

unfoldable pub decode_dpi_levels : List ℕ → List ℕ
unfolding decode_from
decode_dpi_levels list_bytes = decode_from [] list_bytes
