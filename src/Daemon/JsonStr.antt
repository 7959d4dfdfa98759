-- ===== src/Daemon/JsonStr.antt =====
-- `json_str` (daemon/daemon.cpp): a byte string as a quoted JSON string. A mask of high bits that is
-- compared with a constant is a quotient here, as `c & 0xE0 == 0xC0` is `c / 32 == 6` for a byte.
pub mod Reader
pub mod RoundTrip
pub mod Escaped
pub mod Unicode
use abrek_mouse.Prelude.{
  ℕ, zero, suc, ◌+◌, ◌-◌, ◌*◌, ◌/◌, ◌%◌, ◌^◌, ◌≤◌, ◌<◌, min, max, ◌≡◌, refl, sym, ap, ◌∙◌, ◌≢◌, ◌↔◌,
  ◌⊎◌, inl, inr, Bool, true, false, not, ◌&&◌, ◌||◌, Option, none, some, List, [], ◌∷◌, ◌++◌, map,
  append-nil, append_assoc, arith, ltb, leb, ◌==◌, if◌then◌else◌, ltb→lt, lt→ltb, leb→le, ==_iff,
  tests, Bool-cases, Option-cases, length, get_or, take, drop, replicate, length-append,
  length-take, length-drop, length-replicate, take-append-drop, take-length, All, any_of, find_if,
  dec_lt, Text, codes, text_eq, text_eq_sound, text_eq_refl, is_empty, is_digit, to_lower, ℤ, pos,
  negsuc, ltz, Mem, All-mono, All-zip, All-append, append-All, Mem-append,
}

-- `%x` of a number below 16.
unfoldable pub hex_digit : ℕ → ℕ
hex_digit d = if ltb d 10 then b'0' + d else b'a' + (d - 10)

-- `\u%04x` of a byte.
unfoldable pub unicode_escape : ℕ → Text
unfolding hex_digit
unicode_escape c =
    b'\\'
    ∷ b'u'
    ∷ hex_digit (c / 4096 % 16)
    ∷ hex_digit (c / 256 % 16)
    ∷ hex_digit (c / 16 % 16)
    ∷ hex_digit (c % 16)
    ∷ []

-- The length of a UTF-8 sequence by its first byte.
unfoldable pub sequence_length : ℕ → ℕ
sequence_length c =
    if c / 32 == 6 then 2 else if c / 16 == 14 then 3 else if c / 8 == 30 then 4 else 0

-- The next `k` bytes exist and continue a sequence.
unfoldable pub continues : ℕ → Text → Bool
continues zero s = true
continues (suc k) [] = false
continues (suc k) (x ∷ s) = (x / 64 == 2) && continues k s

-- `valid`: a first byte, and as many continuation bytes as it wants.
unfoldable pub is_sequence : ℕ → Text → Bool
unfolding sequence_length continues
is_sequence c s = ltb 0 (sequence_length c) && continues (sequence_length c - 1) s

-- The loop, `k` bytes of a valid sequence being left to copy.
unfoldable pub escape : ℕ → Text → Text
escape k [] = []
escape (suc k) (c ∷ s) = c ∷ escape k s
escape zero (c ∷ s) =
    let rest = escape 0 s in
    let copied = escape (sequence_length c - 1) s in
    if c == b'"'
    then b'\\' ∷ b'"' ∷ rest
    else if c == b'\\'
    then b'\\' ∷ b'\\' ∷ rest
    else if c == b'\n'
    then b'\\' ∷ b'n' ∷ rest
    else if c == 13
    then b'\\' ∷ b'r' ∷ rest
    else if c == 9
    then b'\\' ∷ b't' ∷ rest
    else if ltb c 0x20
    then b' ' ∷ rest
    else if ltb c 0x80
    then c ∷ rest
    else if is_sequence c s
    then c ∷ copied
    else unicode_escape c ++ rest

-- `json_str`.
unfoldable pub json_str : Text → Text
unfolding escape is_sequence sequence_length unicode_escape
json_str s = b'"' ∷ (escape 0 s ++ b'"' ∷ [])
