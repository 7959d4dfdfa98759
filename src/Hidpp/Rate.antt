-- ===== src/Hidpp/Rate.antt =====
-- Report-rate codes (src/logitech_hidpp.cpp, rate_code_to_hz and hz_to_rate_code).
use abrek_mouse.Prelude.{
  ℕ, ◌+◌, ◌≡◌, ◌↔◌, Bool, true, false, ◌&&◌, Option, none, some, List, [], ◌∷◌, arith, ltb, ◌==◌,
  if◌then◌else◌, get_or, drop,
}

-- EXTENDED_ADJUSTABLE_REPORT_RATE counts codes from 125 Hz up; REPORT_RATE stores the period in ms.
abbrev rates : Bool → List ℕ
rates true = 125 ∷ 250 ∷ 500 ∷ 1000 ∷ 2000 ∷ 4000 ∷ 8000 ∷ []
rates false = 0 ∷ 1000 ∷ 500 ∷ 333 ∷ 250 ∷ 200 ∷ 166 ∷ 142 ∷ 125 ∷ []

unfoldable pub rate_code_to_hz : Bool → ℕ → Option ℕ
rate_code_to_hz true code = if ltb code 7 then some (get_or (rates true) code 0) else none
rate_code_to_hz false code =
    if ltb 0 code && ltb code 9 then some (get_or (rates false) code 0) else none

-- The loop over a table, from the code `i` on.
unfoldable pub find_rate : ℕ → List ℕ → ℕ → Option ℕ
find_rate i [] hz = none
find_rate i (r ∷ rs) hz = if r == hz then some i else find_rate (i + 1) rs hz

unfoldable pub hz_to_rate_code : Bool → ℕ → Option ℕ
unfolding find_rate
hz_to_rate_code true hz = find_rate 0 (rates true) hz
hz_to_rate_code false hz = find_rate 1 (drop 1 (rates false)) hz

code→hz :
    (extended : Bool) (code hz : ℕ)
    → rate_code_to_hz extended code ≡ some hz
    → hz_to_rate_code extended hz ≡ some code
unfolding rate_code_to_hz hz_to_rate_code
code→hz true code hz e = ground arith
code→hz false code hz e = ground arith

hz→code :
    (extended : Bool) (code hz : ℕ)
    → hz_to_rate_code extended hz ≡ some code
    → rate_code_to_hz extended code ≡ some hz
unfolding rate_code_to_hz hz_to_rate_code
hz→code true code hz e = ground arith
hz→code false code hz e = ground arith

-- For both features: a code is found for a rate exactly when the code decodes to that rate.
pub rate_code_iff :
    (extended : Bool) (code hz : ℕ)
    → (rate_code_to_hz extended code ≡ some hz) ↔ (hz_to_rate_code extended hz ≡ some code)
rate_code_iff extended code hz = (code→hz extended code hz, hz→code extended code hz)
