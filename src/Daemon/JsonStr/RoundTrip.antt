-- ===== src/Daemon/JsonStr/RoundTrip.antt =====
-- `json_str` (daemon/daemon.cpp) writes JSON strings.
use abrek_mouse.Daemon.JsonStr.{
  hex_digit, unicode_escape, sequence_length, continues, is_sequence, escape, json_str,
}
use abrek_mouse.Daemon.JsonStr.Reader.{
  inside, digits, hex_value, utf8, unescape, behind, read, read_string,
}
use abrek_mouse.Prelude.{
  ℕ, zero, suc, ◌+◌, ◌-◌, ◌*◌, ◌/◌, ◌%◌, ◌≤◌, ◌<◌, ◌≡◌, refl, ap, ◌∙◌, ◌≢◌, inl, inr, true, false,
  not, ◌&&◌, some, [], ◌∷◌, ◌++◌, append_assoc, arith, ltb, leb, ◌==◌, if◌then◌else◌, ==_iff,
  Bool-cases, All, Text,
}

-- The text that the string stands for: other controls are spaces, a byte that begins no sequence is
-- the code point of its value. `k` bytes of a sequence are left.
unfoldable pub cleaned : ℕ → Text → Text
cleaned k [] = []
cleaned (suc k) (c ∷ s) = c ∷ cleaned k s
cleaned zero (c ∷ s) =
    let rest = cleaned 0 s in
    let copied = cleaned (sequence_length c - 1) s in
    if leb 0x80 c
    then (if is_sequence c s then c ∷ copied else utf8 c ++ rest)
    else if (ltb c 0x20 && not (c == 9)) && (not (c == 10) && not (c == 13))
    then 32 ∷ rest
    else c ∷ rest

read_plain :
    (c : ℕ) (s t rest : Text)
    → 0x20 ≤ c
    → c ≢ b'"'
    → c ≢ b'\\'
    → read inside s ≡ some (t, rest)
    → read inside (c ∷ s) ≡ some (c ∷ t, rest)
unfolding read
read_plain c s t rest le q b h = ground arith

read_escaped :
    (c d : ℕ) (s t rest : Text)
    → (c == b'u') ≡ false
    → unescape c ≡ some d
    → read inside s ≡ some (t, rest)
    → read inside (b'\\' ∷ c ∷ s) ≡ some (d ∷ t, rest)
unfolding read
read_escaped c d s t rest u e h = rw u (rw e (rw h refl))

hex_value-hex_digit : (d : ℕ) → d < 16 → hex_value (hex_digit d) ≡ some d
unfolding hex_value hex_digit
hex_value-hex_digit d h = ground arith

read_digit :
    (k n x d : ℕ) (s : Text)
    → hex_value x ≡ some d
    → (k == 3) ≡ false
    → read (digits k n) (x ∷ s) ≡ read (digits (k + 1) (n * 16 + d)) s
unfolding read
read_digit k n x d s e b = rw (e, read) (rw b refl)

read_last :
    (n x d : ℕ) (s : Text)
    → hex_value x ≡ some d
    → read (digits 3 n) (x ∷ s) ≡ behind (utf8 (n * 16 + d)) (read inside s)
unfolding read
read_last n x d s e = rw (e, read) refl

read_u : (s : Text) → read inside (b'\\' ∷ b'u' ∷ s) ≡ read (digits 0 0) s
unfolding read
read_u s = refl

read_digits :
    (c : ℕ) (s t rest : Text)
    → c < 256
    → read inside s ≡ some (t, rest)
    → read inside (unicode_escape c ++ s) ≡ some (utf8 c ++ t, rest)
unfolding unicode_escape behind
read_digits c s t rest lt h =
    let d1 = c / 4096 % 16 in
    let d2 = c / 256 % 16 in
    let d3 = c / 16 % 16 in
    let d4 = c % 16 in
    let value : (((0 * 16 + d1) * 16 + d2) * 16 + d3) * 16 + d4 ≡ c = omega arith in
    read_u (hex_digit d1 ∷ hex_digit d2 ∷ hex_digit d3 ∷ hex_digit d4 ∷ s)
    ∙ read_digit 0 0 (hex_digit d1) d1 (hex_digit d2 ∷ hex_digit d3 ∷ hex_digit d4 ∷ s)
        (hex_value-hex_digit d1 (omega arith)) refl
    ∙ read_digit 1 (0 * 16 + d1) (hex_digit d2) d2 (hex_digit d3 ∷ hex_digit d4 ∷ s)
        (hex_value-hex_digit d2 (omega arith)) refl
    ∙ read_digit 2 ((0 * 16 + d1) * 16 + d2) (hex_digit d3) d3 (hex_digit d4 ∷ s)
        (hex_value-hex_digit d3 (omega arith)) refl
    ∙ read_last (((0 * 16 + d1) * 16 + d2) * 16 + d3) (hex_digit d4) d4 s
        (hex_value-hex_digit d4 (omega arith))
    ∙ ap (λ n. behind (utf8 n) (read inside s)) value
    ∙ ap (behind (utf8 c)) h

-- A first byte of a sequence, and what the sequence wants behind it.
is_sequence-continues :
    (c : ℕ) (s : Text) → is_sequence c s ≡ true → continues (sequence_length c - 1) s ≡ true
unfolding is_sequence
is_sequence-continues c s h = elim (Bool-cases (ltb 0 (sequence_length c))) [
  | inl e ↦ rw e at h
  | inr e ↦ absurd (let wrong : false ≡ true = rw e at h in cc)
]

read_continued :
    (c k : ℕ) (s : Text) → continues (suc k) (c ∷ s) ≡ true → (0x80 ≤ c) × (continues k s ≡ true)
unfolding continues
read_continued c k s h = elim (Bool-cases (c / 64 == 2)) [
  | inl e ↦ (omega (arith, (==_iff (c / 64) 2).0 e), rw e at h)
  | inr e ↦ absurd (let wrong : false ≡ true = rw e at h in cc)
]

-- The branches of the loop at a byte that is not part of a sequence begun before. `t` is what the
-- rest reads to.
module _ (s tail t rest : Text) (more : read inside (escape 0 s ++ tail) ≡ some (t, rest)) where
  at_escape :
      (c e : ℕ)
      → (e == b'u') ≡ false
      → unescape e ≡ some c
      → read inside (b'\\' ∷ e ∷ (escape 0 s ++ tail)) ≡ some (c ∷ t, rest)
  at_escape c e u d = read_escaped e c (escape 0 s ++ tail) t rest u d more

  at_plain :
      (c : ℕ)
      → 0x20 ≤ c
      → (c == b'"') ≡ false
      → (c == b'\\') ≡ false
      → read inside (c ∷ (escape 0 s ++ tail)) ≡ some (c ∷ t, rest)
  at_plain c le q b = read_plain c (escape 0 s ++ tail) t rest le (ground arith) (ground arith) more

  at_byte :
      (c : ℕ)
      → c < 256
      → read inside ((unicode_escape c ++ escape 0 s) ++ tail) ≡ some (utf8 c ++ t, rest)
  at_byte c lt =
      rw (append_assoc (unicode_escape c) (escape 0 s) tail)
        (read_digits c (escape 0 s ++ tail) t rest lt more)

-- The loop writes what the reader takes up to the quote behind it.
read-escape :
    (k : ℕ) (s rest : Text)
    → All (λ c. c < 256) s
    → continues k s ≡ true
    → read inside (escape k s ++ b'"' ∷ rest) ≡ some (cleaned k s, rest)
unfolding escape cleaned unescape continues
read-escape zero [] rest bytes h = unfold read in refl
read-escape (suc k) [] rest bytes h = cc
read-escape (suc k) (c ∷ s) rest (lt, bytes) h =
    let (le, h') = read_continued c k s h in
    read_plain c (escape k s ++ b'"' ∷ rest) (cleaned k s) rest (omega arith) (ground arith)
      (ground arith) (read-escape k s rest bytes h')
read-escape zero (c ∷ s) rest (lt, bytes) h =
    let more = read-escape 0 s rest bytes refl in
    let copied = read-escape (sequence_length c - 1) s rest bytes in
    let quoted = at_escape s (b'"' ∷ rest) (cleaned 0 s) rest more in
    let plain = at_plain s (b'"' ∷ rest) (cleaned 0 s) rest more in
    let byte = at_byte s (b'"' ∷ rest) (cleaned 0 s) rest more in
    elim (Bool-cases (c == b'"')) [
      | inl q ↦ rw ((==_iff c b'"').0 q) (quoted b'"' b'"' refl refl)
      | inr q ↦ elim (Bool-cases (c == b'\\')) [
        | inl b ↦ rw ((==_iff c b'\\').0 b) (quoted b'\\' b'\\' refl refl)
        | inr b ↦ elim (Bool-cases (c == 10)) [
          | inl n ↦ rw ((==_iff c 10).0 n) (quoted 10 b'n' refl refl)
          | inr n ↦ elim (Bool-cases (c == 13)) [
            | inl r ↦ rw ((==_iff c 13).0 r) (quoted 13 b'r' refl refl)
            | inr r ↦ elim (Bool-cases (c == 9)) [
              | inl t ↦ rw ((==_iff c 9).0 t) (quoted 9 b't' refl refl)
              | inr t ↦ elim (Bool-cases (ltb c 0x20)) [
                | inl l ↦
                    let low : leb 0x80 c ≡ false = ground arith in
                    rw (q, b, n, r, t, l, low) (plain 32 (omega arith) refl refl)
                | inr l ↦ elim (Bool-cases (ltb c 0x80)) [
                  | inl m ↦
                      let low : leb 0x80 c ≡ false = ground arith in
                      rw (q, b, n, r, t, l, m, low) (plain c (ground arith) q b)
                  | inr m ↦
                      let high : leb 0x80 c ≡ true = ground arith in
                      elim (Bool-cases (is_sequence c s)) [
                        | inl v ↦
                            rw (q, b, n, r, t, l, m, high, v)
                              (read_plain c (escape (sequence_length c - 1) s ++ b'"' ∷ rest)
                                (cleaned (sequence_length c - 1) s) rest (ground arith)
                                (ground arith) (ground arith)
                                (copied (is_sequence-continues c s v)))
                        | inr v ↦ rw (q, b, n, r, t, l, m, high, v) (byte c lt)
                      ]
                ]
              ]
            ]
          ]
        ]
      ]
    ]

-- Whatever the bytes, a reader that takes bytes from 0x80 on as they are reads what `json_str` writes
-- as one string, and no more of the text that stands behind it. The string reads as the given bytes,
-- except that control characters other than tab, line feed and carriage return are spaces, and a byte
-- from 0x80 on that begins no complete sequence is the code point of its value.
pub read_string-json_str :
    (s rest : Text)
    → All (λ c. c < 256) s
    → read_string (json_str s ++ rest) ≡ some (cleaned 0 s, rest)
unfolding json_str read_string
read_string-json_str s rest bytes =
    rw (append_assoc (escape 0 s) (b'"' ∷ []) rest) (read-escape 0 s rest bytes refl)
