-- ===== src/Daemon/JsonStr/Reader.antt =====
-- A reader of JSON strings, by which the output of `json_str` (daemon/daemon.cpp) is judged: bytes
-- from 0x80 on stand for themselves, and an escaped code point is read as its UTF-8 bytes.
use abrek_mouse.Prelude.{
  ℕ, ◌+◌, ◌-◌, ◌*◌, ◌/◌, ◌%◌, ◌&&◌, Option, none, some, [], ◌∷◌, ◌++◌, ltb, leb, ◌==◌,
  if◌then◌else◌, Text,
}

-- Inside the string, behind a backslash, and behind `\u` with `k` digits of value `n` read.
pub data State : Type 0 where
  inside : State
  escaped : State
  digits : ℕ → ℕ → State

unfoldable pub hex_value : ℕ → Option ℕ
hex_value c =
    if leb b'0' c && leb c b'9'
    then some (c - b'0')
    else if leb b'a' c && leb c b'f'
    then some (c - b'a' + 10)
    else if leb b'A' c && leb c b'F'
    then some (c - b'A' + 10)
    else none

-- The bytes of a code point in UTF-8.
unfoldable pub utf8 : ℕ → Text
utf8 n =
    if ltb n 0x80
    then n ∷ []
    else if ltb n 0x800
    then (192 + n / 64) ∷ (128 + n % 64) ∷ []
    else if ltb n 0x10000
    then (224 + n / 4096) ∷ (128 + n / 64 % 64) ∷ (128 + n % 64) ∷ []
    else (240 + n / 262144) ∷ (128 + n / 4096 % 64) ∷ (128 + n / 64 % 64) ∷ (128 + n % 64) ∷ []

-- What a letter behind a backslash stands for.
unfoldable pub unescape : ℕ → Option ℕ
unescape c =
    if c == b'"'
    then some b'"'
    else if c == b'\\'
    then some b'\\'
    else if c == b'/'
    then some b'/'
    else if c == b'n'
    then some 10
    else if c == b'r'
    then some 13
    else if c == b't'
    then some 9
    else if c == b'b'
    then some 8
    else if c == b'f'
    then some 12
    else none

unfoldable pub behind : Text → Option (Text × Text) → Option (Text × Text)
behind pre none = none
behind pre (some (t, rest)) = some (pre ++ t, rest)

-- The text of the string up to the closing quote, and what follows it.
unfoldable pub read : State → Text → Option (Text × Text)
unfolding hex_value utf8 unescape behind
read st [] = none
read inside (c ∷ s) =
    let escape = read escaped s in
    let more = behind (c ∷ []) (read inside s) in
    if c == b'"'
    then some ([], s)
    else if c == b'\\'
    then escape
    else if ltb c 0x20
    then none
    else more
read escaped (c ∷ s) =
    let code = read (digits 0 0) s in
    let more = read inside s in
    if c == b'u' then code else elim (unescape c) [ none ↦ none | some d ↦ behind (d ∷ []) more ]
read (digits k n) (c ∷ s) = elim (hex_value c) [
  | none ↦ none
  | some d ↦
      let last = behind (utf8 (n * 16 + d)) (read inside s) in
      let next = read (digits (k + 1) (n * 16 + d)) s in if k == 3 then last else next
]

-- A whole string, with its opening quote.
unfoldable pub read_string : Text → Option (Text × Text)
unfolding read
read_string [] = none
read_string (c ∷ s) = if c == b'"' then read inside s else none
