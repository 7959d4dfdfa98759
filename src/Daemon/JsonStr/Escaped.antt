-- ===== src/Daemon/JsonStr/Escaped.antt =====
-- The code points that `json_str` (daemon/daemon.cpp) writes.
use abrek_mouse.Daemon.JsonStr.{sequence_length, continues, is_sequence, escape}
use abrek_mouse.Daemon.JsonStr.Reader.{utf8}
use abrek_mouse.Prelude.{
  ℕ, suc, ◌+◌, ◌-◌, ◌/◌, ◌%◌, ◌≤◌, ◌<◌, ◌≡◌, refl, sym, ap, ◌∙◌, inl, inr, true, false, List, [],
  ◌∷◌, ◌++◌, append-nil, append_assoc, arith, ltb, ◌==◌, if◌then◌else◌, Bool-cases, All, Text,
}

-- The text of a list of code points.
abbrev pub encoded : List ℕ → Text
encoded [] = []
encoded (p ∷ ps) = utf8 p ++ encoded ps

-- What stands for a code point inside a JSON string.
abbrev pub escaped_point : ℕ → List ℕ
escaped_point p =
    if p == b'"'
    then b'\\' ∷ b'"' ∷ []
    else if p == b'\\'
    then b'\\' ∷ b'\\' ∷ []
    else if p == 10
    then b'\\' ∷ b'n' ∷ []
    else if p == 13
    then b'\\' ∷ b'r' ∷ []
    else if p == 9
    then b'\\' ∷ b't' ∷ []
    else if ltb p 0x20
    then b' ' ∷ []
    else p ∷ []

abbrev pub escaped_points : List ℕ → List ℕ
escaped_points [] = []
escaped_points (p ∷ ps) = escaped_point p ++ escaped_points ps

pub encoded-append : (ps qs : List ℕ) → encoded (ps ++ qs) ≡ encoded ps ++ encoded qs
encoded-append [] qs = refl
encoded-append (p ∷ ps) qs =
    ap (λ t. utf8 p ++ t) (encoded-append ps qs)
    ∙ sym (append_assoc (utf8 p) (encoded ps) (encoded qs))

escape_high :
    (c : ℕ) (s : Text)
    → 0x80 ≤ c
    → is_sequence c s ≡ true
    → escape 0 (c ∷ s) ≡ c ∷ escape (sequence_length c - 1) s
unfolding escape
escape_high c s h v =
    let quote : (c == b'"') ≡ false = ground arith in
    let slash : (c == b'\\') ≡ false = ground arith in
    let feed : (c == b'\n') ≡ false = ground arith in
    let return : (c == 13) ≡ false = ground arith in
    let tab : (c == 9) ≡ false = ground arith in
    let control : ltb c 0x20 ≡ false = ground arith in
    let ascii : ltb c 0x80 ≡ false = ground arith in
    rw (quote, slash, feed, return, tab, control, ascii, v) refl

escape_ascii :
    (c : ℕ) (s : Text) → c < 0x80 → escape 0 (c ∷ s) ≡ encoded (escaped_point c) ++ escape 0 s
unfolding escape utf8
escape_ascii c s h = ground arith

-- A first byte, the length of its sequence, and the bytes behind it.
escape_sequence :
    (c k : ℕ) (s t : Text)
    → 0x80 ≤ c
    → sequence_length c ≡ suc k
    → continues k (s ++ t) ≡ true
    → escape 0 (c ∷ (s ++ t)) ≡ c ∷ escape k (s ++ t)
escape_sequence c k s t h l v =
    let less : suc k - 1 ≡ k = omega arith in
    let some_length : ltb 0 (suc k) ≡ true = ground arith in
    let complete : is_sequence c (s ++ t) ≡ true =
      unfold is_sequence in rw l (rw (some_length, less) v) in
    escape_high c (s ++ t) h complete
    ∙ ap (λ n. c ∷ escape (n - 1) (s ++ t)) l
    ∙ ap (λ n. c ∷ escape n (s ++ t)) less

continuation : (x : ℕ) → x / 64 ≡ 2 → (x / 64 == 2) ≡ true
continuation x h = ground arith

escape-utf8 :
    (p : ℕ) (s : Text)
    → p < 0x110000
    → escape 0 (utf8 p ++ s) ≡ encoded (escaped_point p) ++ escape 0 s
escape-utf8 p s h = elim (Bool-cases (ltb p 0x80)) [
  | inl a ↦
      let one : utf8 p ≡ p ∷ [] = unfold utf8 in rw a refl in
      rw one (escape_ascii p s (ground arith))
  | inr a ↦
      let kept : escaped_point p ≡ p ∷ [] = ground arith in
      rw (kept, append-nil (utf8 p))
        (elim (Bool-cases (ltb p 0x800)) [
          | inl b ↦
              let c = 192 + p / 64 in
              let x = 128 + p % 64 in
              let bytes : utf8 p ≡ c ∷ x ∷ [] = unfold utf8 in rw (a, b) refl in
              let size : sequence_length c ≡ 2 = unfold sequence_length in ground arith in
              rw bytes (
                escape_sequence c 1 (x ∷ []) s (omega arith) size
                  (unfold continues in rw (continuation x (omega arith)) refl)
                ∙ unfold escape in refl)
          | inr b ↦ elim (Bool-cases (ltb p 0x10000)) [
            | inl d ↦
                let c = 224 + p / 4096 in
                let x = 128 + p / 64 % 64 in
                let y = 128 + p % 64 in
                let bytes : utf8 p ≡ c ∷ x ∷ y ∷ [] = unfold utf8 in rw (a, b, d) refl in
                let size : sequence_length c ≡ 3 = unfold sequence_length in ground arith in
                rw bytes (
                  escape_sequence c 2 (x ∷ y ∷ []) s (omega arith) size (
                    unfold continues in
                    rw (continuation x (omega arith), continuation y (omega arith)) refl)
                  ∙ unfold escape in refl)
            | inr d ↦
                let c = 240 + p / 262144 in
                let x = 128 + p / 4096 % 64 in
                let y = 128 + p / 64 % 64 in
                let z = 128 + p % 64 in
                let bytes : utf8 p ≡ c ∷ x ∷ y ∷ z ∷ [] = unfold utf8 in rw (a, b, d) refl in
                let size : sequence_length c ≡ 4 = unfold sequence_length in ground arith in
                rw bytes (
                  escape_sequence c 3 (x ∷ y ∷ z ∷ []) s (omega arith) size (
                    unfold continues in
                    rw
                      (
                        continuation x (omega arith),
                        continuation y (omega arith),
                        continuation z (omega arith),
                      )
                      refl)
                  ∙ unfold escape in refl)
          ]
        ])
]

-- Inside the quotes `json_str` writes UTF-8 again: each code point escaped by itself.
pub escape-encoded :
    (ps : List ℕ) → All (λ p. p < 0x110000) ps → escape 0 (encoded ps) ≡ encoded (escaped_points ps)
escape-encoded [] a = unfold escape in refl
escape-encoded (p ∷ ps) (h, a) =
    escape-utf8 p (encoded ps) h
    ∙ ap (λ t. encoded (escaped_point p) ++ t) (escape-encoded ps a)
    ∙ sym (encoded-append (escaped_point p) (escaped_points ps))
