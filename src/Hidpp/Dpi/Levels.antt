-- ===== src/Hidpp/Dpi/Levels.antt =====
-- What any byte string decodes to: proper levels, and not too many.
use abrek_mouse.Prelude.{
  ℕ, zero, suc, ◌+◌, ◌/◌, ◌%◌, ◌≤◌, ◌<◌, max, List, [], ◌∷◌, ◌++◌, arith, length, length-append,
  All,
}
use abrek_mouse.Hidpp.Bytes.{IsU16, be16}
use abrek_mouse.Hidpp.Dpi.{
  back, step_loop, close_range, expand_marker, decode_from, decode_dpi_levels,
}

-- A DPI value that the 16-bit wire format can carry, and not the terminator.
abbrev pub IsDpi : ℕ → Type 0
IsDpi v = (0 < v) × (v < 65536)

All-snoc : (l : List ℕ) (v : ℕ) → All IsDpi l → IsDpi v → All IsDpi (l ++ v ∷ [])
All-snoc [] v h d = (d, tt)
All-snoc (x ∷ l) v h d = (h.0, All-snoc l v h.1 d)

step_loop-IsDpi :
    (fuel step last next : ℕ) (levels : List ℕ)
    → All IsDpi levels
    → 0 < next
    → All IsDpi (step_loop fuel step last next levels)
unfolding step_loop
step_loop-IsDpi zero step last next levels h pos = h
step_loop-IsDpi (suc fuel) step last next levels h pos = ground (
  arith,
  All-snoc levels next h,
  step_loop-IsDpi fuel step last (next + step) (levels ++ next ∷ []),
)

close_range-IsDpi :
    (last : ℕ) (levels : List ℕ)
    → All IsDpi levels
    → IsDpi last
    → All IsDpi (close_range last levels)
unfolding close_range
close_range-IsDpi last levels h d = ground (arith, All-snoc levels last h d)

expand_marker-IsDpi :
    (step last : ℕ) (levels : List ℕ)
    → All IsDpi levels
    → IsU16 last
    → All IsDpi (expand_marker step last levels)
unfolding expand_marker
expand_marker-IsDpi step last levels h u =
    let stepped = step_loop 2049 step last (back levels + step) levels in
    ground (
      arith,
      step_loop-IsDpi 2049 step last (back levels + step) levels h,
      close_range-IsDpi last stepped,
    )

decode_from-IsDpi : (levels d : List ℕ) → All IsDpi levels → All IsDpi (decode_from levels d)
unfolding decode_from
decode_from-IsDpi levels [] h = h
decode_from-IsDpi levels (hi ∷ []) h = h
decode_from-IsDpi levels (hi ∷ lo ∷ h2 ∷ l2 ∷ rest) h =
    let step = be16 hi lo % 8192 in
    ground (
      arith,
      All-snoc levels (be16 hi lo) h,
      expand_marker-IsDpi step (be16 h2 l2) levels h,
      decode_from-IsDpi (expand_marker step (be16 h2 l2) levels) rest,
      decode_from-IsDpi (levels ++ be16 hi lo ∷ []) (h2 ∷ l2 ∷ rest),
    )
decode_from-IsDpi levels (hi ∷ lo ∷ []) h = ground (arith, All-snoc levels (be16 hi lo) h)
decode_from-IsDpi levels (hi ∷ lo ∷ x ∷ []) h = ground (arith, All-snoc levels (be16 hi lo) h)

-- Steps stop at 2048 levels.
step_loop_cap :
    (fuel step last next : ℕ) (levels : List ℕ)
    → length (step_loop fuel step last next levels) ≤ max (length levels) 2048
unfolding step_loop
step_loop_cap zero step last next levels = omega arith
step_loop_cap (suc fuel) step last next levels = ground (
  arith,
  length-append levels (next ∷ []),
  step_loop_cap fuel step last (next + step) (levels ++ next ∷ []),
)

expand_marker_cap :
    (step last : ℕ) (levels : List ℕ)
    → length (expand_marker step last levels) ≤ max (length levels) 2048
unfolding expand_marker close_range
expand_marker_cap step last levels =
    let stepped = step_loop 2049 step last (back levels + step) levels in
    ground (
      arith,
      step_loop_cap 2049 step last (back levels + step) levels,
      length-append stepped (last ∷ []),
    )

decode_from_cap :
    (levels d : List ℕ) → length (decode_from levels d) ≤ max (length levels) 2048 + length d / 2
unfolding decode_from
decode_from_cap levels [] = omega arith
decode_from_cap levels (hi ∷ []) = omega arith
decode_from_cap levels (hi ∷ lo ∷ h2 ∷ l2 ∷ rest) =
    let step = be16 hi lo % 8192 in
    ground (
      arith,
      length-append levels (be16 hi lo ∷ []),
      expand_marker_cap step (be16 h2 l2) levels,
      decode_from_cap (expand_marker step (be16 h2 l2) levels) rest,
      decode_from_cap (levels ++ be16 hi lo ∷ []) (h2 ∷ l2 ∷ rest),
    )
decode_from_cap levels (hi ∷ lo ∷ []) = ground (arith, length-append levels (be16 hi lo ∷ []))
decode_from_cap levels (hi ∷ lo ∷ x ∷ []) = ground (arith, length-append levels (be16 hi lo ∷ []))

-- Every level that a byte string decodes to is a positive 16-bit number, and there are at most 2048
-- of them beside one for each two bytes, however wide the ranges in the string are.
pub decode_dpi_levels_bounds :
    (d : List ℕ)
    → All IsDpi (decode_dpi_levels d) × (length (decode_dpi_levels d) ≤ 2048 + length d / 2)
unfolding decode_dpi_levels
decode_dpi_levels_bounds d = (decode_from-IsDpi [] d tt, omega (arith, decode_from_cap [] d))
