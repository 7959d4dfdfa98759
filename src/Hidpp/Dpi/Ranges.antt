-- ===== src/Hidpp/Dpi/Ranges.antt =====
-- The decoder against the meaning of a DPI list: single levels, and arithmetic progressions.
use abrek_mouse.Prelude.{
  ℕ, zero, suc, ◌+◌, ◌-◌, ◌*◌, ◌/◌, ◌%◌, ◌≤◌, ◌<◌, ◌≡◌, refl, ap, ◌∙◌, inl, inr, true, List, [],
  ◌∷◌, ◌++◌, append-nil, append_assoc, arith, ltb, ◌==◌, if◌then◌else◌, ltb→lt, Bool-cases, length,
  length-append, All,
}
use abrek_mouse.Hidpp.Dpi.{
  back, step_loop, decode_from, expand_marker, hi_byte, lo_byte, be16, close_range,
  decode_dpi_levels,
}

-- b + s, b + 2s, ..., b + ks.
abbrev pub progression : ℕ → ℕ → ℕ → List ℕ
progression b s zero = []
progression b s (suc k) = (b + s) ∷ progression (b + s) s k

length-progression : (b s k : ℕ) → length (progression b s k) ≡ k
length-progression b s zero = refl
length-progression b s (suc k) = ap suc (length-progression (b + s) s k)

step_loop-progression :
    (fuel step last b k : ℕ) (levels : List ℕ)
    → b + k * step ≤ last
    → last < b + k * step + step
    → last < 65536
    → k < fuel
    → length levels + k ≤ 2048
    → step_loop fuel step last (b + step) levels ≡ levels ++ progression b step k
unfolding step_loop
step_loop-progression zero step last b k levels lo hi u f fits = absurd (omega arith)
step_loop-progression (suc fuel) step last b zero levels lo hi u f fits =
    ground (arith, append-nil levels)
step_loop-progression (suc fuel) step last b (suc k) levels lo hi u f fits = ground (
  arith,
  length-append levels ((b + step) ∷ []),
  step_loop-progression fuel step last (b + step) k (levels ++ (b + step) ∷ []),
  append_assoc levels ((b + step) ∷ []) (progression (b + step) step k),
)

back-append : (l : List ℕ) (x : ℕ) (xs : List ℕ) → back (l ++ x ∷ xs) ≡ back (x ∷ xs)
back-append [] x xs = refl
back-append (y ∷ []) x xs = refl
back-append (y ∷ z ∷ l) x xs = back-append (z ∷ l) x xs

back-progression : (l : List ℕ) (b s k : ℕ) → back l ≡ b → back (l ++ progression b s k) ≡ b + k * s
back-progression l b s zero e = rw (append-nil l) (omega arith)
back-progression l b s (suc k) e = omega (
  arith,
  back-progression (l ++ (b + s) ∷ []) (b + s) s k (back-append l (b + s) []),
  ap back (append_assoc l ((b + s) ∷ []) (progression (b + s) s k)),
)

-- What a range adds after the level `b`: the steps up to `last`, and `last` itself.
abbrev pub reach : ℕ → ℕ → ℕ → List ℕ
reach step last b =
    progression b step ((last - b) / step) ++ (if (last - b) % step == 0 then [] else last ∷ [])

div_parts : (x s : ℕ) → 0 < s → (x / s * s + x % s ≡ x) × (x % s < s)
div_parts x s h = (grind arith, omega arith)

close_range-eq :
    (last b step k r : ℕ) (l : List ℕ)
    → length l + k < 2048
    → back l ≡ b
    → last ≡ b + k * step + r
    → close_range last (l ++ progression b step k)
      ≡ (l ++ progression b step k) ++ (if r == 0 then [] else last ∷ [])
unfolding close_range
close_range-eq last b step k r l fits e total = ground (
  arith,
  back-progression l b step k e,
  length-append l (progression b step k),
  length-progression b step k,
  append-nil (l ++ progression b step k),
)

-- A marker after a non-empty vector adds exactly the progression.
pub expand_marker-reach :
    (step last x : ℕ) (xs : List ℕ)
    → 0 < step
    → back (x ∷ xs) < last
    → last < 65536
    → length (x ∷ xs) + (last - back (x ∷ xs)) / step < 2048
    → expand_marker step last (x ∷ xs) ≡ (x ∷ xs) ++ reach step last (back (x ∷ xs))
unfolding expand_marker
expand_marker-reach step last x xs pos lt u fits =
    let b = back (x ∷ xs) in
    let k = (last - b) / step in
    let (whole, part) = div_parts (last - b) step pos in
    ground (
      arith,
      step_loop-progression 2049 step last b k (x ∷ xs) (omega arith) (omega arith) u (omega arith)
          (omega arith),
      close_range-eq last b step k ((last - b) % step) (x ∷ xs) fits refl (omega arith),
      append_assoc (x ∷ xs) (progression b step k)
          (if (last - b) % step == 0 then [] else last ∷ []),
    )

-- An item of the list as the device means it.
pub data Entry : Type 0 where
  level : ℕ → Entry
  range : ℕ → ℕ → Entry

-- Its bytes: a level, or a marker with its step and the last level.
pub encode : List Entry → List ℕ
encode [] = []
encode (level v ∷ es) = hi_byte v ∷ lo_byte v ∷ encode es
encode (range step last ∷ es) =
    hi_byte (0xE000 + step) ∷ lo_byte (0xE000 + step) ∷ hi_byte last ∷ lo_byte last ∷ encode es

-- A level is a word that is neither the terminator nor a marker.
abbrev pub IsEntry : Entry → Type 0
IsEntry (level v) = (0 < v) × (v < 0xE000)
IsEntry (range step last) = (0 < step) × (step < 8192) × (last < 65536)

-- The levels that an item adds to those before it. A range that does not rise, or that comes first,
-- adds nothing.
abbrev pub apply_range : ℕ → ℕ → List ℕ → List ℕ
apply_range step last [] = []
apply_range step last (x ∷ xs) =
    if ltb (back (x ∷ xs)) last then (x ∷ xs) ++ reach step last (back (x ∷ xs)) else x ∷ xs

abbrev pub apply_entry : List ℕ → Entry → List ℕ
apply_entry levels (level v) = levels ++ v ∷ []
apply_entry levels (range step last) = apply_range step last levels

abbrev pub meaning : List ℕ → List Entry → List ℕ
meaning levels [] = levels
meaning levels (e ∷ es) = meaning (apply_entry levels e) es

-- The defensive cap is not met on the way.
abbrev pub Fits : List ℕ → List Entry → Type 0
Fits levels [] = Unit
Fits levels (e ∷ es) = (length (apply_entry levels e) < 2048) × Fits (apply_entry levels e) es

decode_level :
    (levels t : List ℕ) (v : ℕ)
    → 0 < v
    → v < 0xE000
    → decode_from levels (hi_byte v ∷ lo_byte v ∷ t) ≡ decode_from (levels ++ v ∷ []) t
unfolding decode_from
decode_level levels [] v pos lt = ground arith
decode_level levels (x ∷ []) v pos lt = ground arith
decode_level levels (x ∷ y ∷ t) v pos lt =
    let e : be16 (hi_byte v) (lo_byte v) ≡ v = omega arith in rw e (ground arith)

decode_range :
    (levels t : List ℕ) (step last : ℕ)
    → step < 8192
    → last < 65536
    → decode_from levels (encode (range step last ∷ []) ++ t)
      ≡ decode_from (expand_marker step last levels) t
unfolding decode_from encode
decode_range levels t step last s u =
    let word : be16 (hi_byte (0xE000 + step)) (lo_byte (0xE000 + step)) ≡ 0xE000 + step =
      omega arith in
    let end : be16 (hi_byte last) (lo_byte last) ≡ last = omega arith in
    let low : (0xE000 + step) % 8192 ≡ step = omega arith in rw (word, end, low) (ground arith)

decode_end : (levels t : List ℕ) → decode_from levels (0 ∷ 0 ∷ t) ≡ levels
unfolding decode_from
decode_end levels [] = refl
decode_end levels (x ∷ []) = refl
decode_end levels (x ∷ y ∷ t) = refl

expand_marker-apply :
    (step last : ℕ) (levels : List ℕ)
    → IsEntry (range step last)
    → length (apply_range step last levels) < 2048
    → expand_marker step last levels ≡ apply_range step last levels
expand_marker-apply step last [] h fits = unfold expand_marker in ground arith
expand_marker-apply step last (x ∷ xs) h fits = elim (Bool-cases (ltb (back (x ∷ xs)) last)) [
  | inl up ↦
      let lt : back (x ∷ xs) < last = ltb→lt _ _ up in
      let b = back (x ∷ xs) in
      let k = (last - b) / step in
      let tail : List ℕ = if (last - b) % step == 0 then [] else last ∷ [] in
      let total : length (x ∷ xs) + length (reach step last b) < 2048 =
        omega (arith, length-append (x ∷ xs) (reach step last b), ap length (apply_up up)) in
      rw up (
        expand_marker-reach step last x xs h.0 lt h.2
          (omega (arith, length-append (progression b step k) tail, length-progression b step k)))
  | inr flat ↦ unfold expand_marker in ground arith
]
  where
    apply_up :
        ltb (back (x ∷ xs)) last ≡ true
        → apply_range step last (x ∷ xs) ≡ (x ∷ xs) ++ reach step last (back (x ∷ xs))
    apply_up up = ground arith

decode_from-encode :
    (levels : List ℕ) (es : List Entry) (rest : List ℕ)
    → All IsEntry es
    → Fits levels es
    → decode_from levels (encode es ++ 0 ∷ 0 ∷ rest) ≡ meaning levels es
unfolding encode
decode_from-encode levels [] rest h fits = decode_end levels rest
decode_from-encode levels (level v ∷ es) rest (h, hs) (fit, fits) =
    decode_level levels (encode es ++ 0 ∷ 0 ∷ rest) v h.0 h.1
    ∙ decode_from-encode (levels ++ v ∷ []) es rest hs fits
decode_from-encode levels (range step last ∷ es) rest (h, hs) (fit, fits) =
    decode_range levels (encode es ++ 0 ∷ 0 ∷ rest) step last h.1 h.2
    ∙ ap (λ l. decode_from l (encode es ++ 0 ∷ 0 ∷ rest))
        (expand_marker-apply step last levels h fit)
    ∙ decode_from-encode (apply_range step last levels) es rest hs fits

-- A list of levels in 1..0xDFFF and of ranges with a step in 1..8191 and a 16-bit end, written as
-- words and closed by the terminator, decodes to the levels that its items mean, whatever follows,
-- so long as there are fewer than 2048 levels on the way.
pub decode_dpi_levels-encode :
    (es : List Entry) (rest : List ℕ)
    → All IsEntry es
    → Fits [] es
    → decode_dpi_levels (encode es ++ 0 ∷ 0 ∷ rest) ≡ meaning [] es
unfolding decode_dpi_levels
decode_dpi_levels-encode es rest h fits = decode_from-encode [] es rest h fits
