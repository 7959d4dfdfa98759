-- ===== src/Hidpp/Bytes.antt =====
-- Bytes and byte fields, as src/logitech_hidpp.cpp reads them: a buffer is a list of numbers, and
-- a shift, a mask or a cast is division or remainder by a power of two.
use abrek_mouse.Prelude.{
  ℕ, zero, suc, ◌+◌, ◌*◌, ◌/◌, ◌%◌, ◌^◌, ◌<◌, Bool, List, [], ◌∷◌, arith, ◌==◌, if◌then◌else◌,
  get_or, All,
}

abbrev pub IsByte : ℕ → Type 0
IsByte b = b < 256

abbrev pub IsU16 : ℕ → Type 0
IsU16 v = v < 65536

-- `data[i]`; the callers check the length first.
abbrev pub at : List ℕ → ℕ → ℕ
at d i = get_or d i 0

-- Bit `k` of `x`: `(x & (1 << k)) != 0`.
abbrev pub bit : ℕ → ℕ → Bool
bit x k = x / 2 ^ k % 2 == 1

-- `static_cast<uint8_t>(v >> 8)` and `static_cast<uint8_t>(v)`.
abbrev pub hi_byte : ℕ → ℕ
hi_byte v = v / 256 % 256

abbrev pub lo_byte : ℕ → ℕ
lo_byte v = v % 256

-- `(p[0] << 8) | p[1]` of two bytes, cast to uint16_t.
abbrev pub be16 : ℕ → ℕ → ℕ
be16 hi lo = (hi * 256 + lo) % 65536

unfoldable pub read_be16 : List ℕ → ℕ
read_be16 p = be16 (at p 0) (at p 1)

-- The NUL-terminated prefix of a buffer.
pub bounded_string : List ℕ → List ℕ
bounded_string [] = []
bounded_string (c ∷ cs) = if c == 0 then [] else c ∷ bounded_string cs

hex_digit : ℕ → ℕ
hex_digit n = if n / 10 == 0 then 48 + n else 55 + n

-- Two uppercase hexadecimal digits for each byte, as ASCII codes.
unfoldable pub bytes_to_hex : List ℕ → List ℕ
unfolding hex_digit
bytes_to_hex [] = []
bytes_to_hex (b ∷ bs) = hex_digit (b / 16 % 16) ∷ hex_digit (b % 16) ∷ bytes_to_hex bs

pub at-IsByte : (d : List ℕ) (i : ℕ) → All IsByte d → IsByte (at d i)
at-IsByte [] i h = omega arith
at-IsByte (x ∷ d) zero h = h.0
at-IsByte (x ∷ d) (suc i) h = at-IsByte d i h.1
