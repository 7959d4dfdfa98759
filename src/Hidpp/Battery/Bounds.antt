-- ===== src/Hidpp/Battery/Bounds.antt =====
-- What a battery level can be.
use abrek_mouse.Prelude.{
  ℕ, zero, suc, ◌+◌, ◌-◌, ◌≤◌, ◌<◌, min, ◌≡◌, refl, ◌⊎◌, Bool, true, ◌&&◌, Option, none, some, List,
  arith, leb, length, dec_lt,
}
use abrek_mouse.Hidpp.Battery.{
  BatteryInfo, parse_unified_battery, parse_battery_status_feature, parse_battery_charge,
  parse_legacy_battery_status, parse_centurion_battery, battery_info_from_voltage,
}

-- A percentage, or the mark for an unknown level.
abbrev pub IsLevel : ℕ → Type 0
IsLevel l = (l ≤ 100) ⊎ (l ≡ 255)

-- A payload is answered exactly when it holds three bytes, and then by a level.
abbrev pub Answers : List ℕ → Option BatteryInfo → Type 0
Answers d none = length d < 3
Answers d (some info) = (3 ≤ length d) × IsLevel info.level

-- Whatever the payload, each of the five payload parsers answers nothing exactly when it has fewer
-- than three bytes, and otherwise reports a level that is a percentage or the mark 255.
pub parsers-Answers :
    (d : List ℕ)
    → Answers d (parse_unified_battery d)
      × Answers d (parse_battery_status_feature d)
      × Answers d (parse_battery_charge d)
      × Answers d (parse_legacy_battery_status d)
      × Answers d (parse_centurion_battery d)
unfolding parse_unified_battery parse_battery_status_feature parse_battery_charge
    parse_legacy_battery_status parse_centurion_battery
parsers-Answers d = (ground arith, ground arith, ground arith, ground arith, ground arith)

abbrev level_at : ℕ → ℕ
level_at v = (battery_info_from_voltage v 0).level

-- `f` does not fall between 0 and `n`.
rises : (ℕ → ℕ) → ℕ → Bool
rises f zero = true
rises f (suc n) = leb (f n) (f (suc n)) && rises f n

rises-le : (f : ℕ → ℕ) (n i k : ℕ) → rises f n ≡ true → i ≤ k → k ≤ n → f i ≤ f k
unfolding rises
rises-le f zero i k h le within = let e : i ≡ k = omega arith in rw e (omega arith)
rises-le f (suc n) i k h le within = elim (dec_lt k (suc n)) [
  | yes p ↦ rises-le f n i k (ground arith) le (omega arith)
  | no p ↦ elim (dec_lt i k) [
    | yes q ↦
        let last : k ≡ suc n = omega arith in
        rw last (ground (arith, rises-le f n i n (ground arith) (omega arith)))
    | no q ↦ let e : i ≡ k = omega arith in rw e (omega arith)
  ]
]

curve_table : rises (λ k. level_at (3500 + k)) 686 ≡ true
unfolding rises battery_info_from_voltage
curve_table = refl

-- Only the part of the voltage on the curve counts.
on_curve :
    (v flags : ℕ) → (battery_info_from_voltage v flags).level ≡ level_at (3500 + min (v - 3500) 686)
unfolding battery_info_from_voltage
on_curve v flags = elim (dec_lt v 3501) [
  | yes low ↦ let e : min (v - 3500) 686 ≡ 0 = omega arith in rw e (ground arith)
  | no up ↦ elim (dec_lt v 4186) [
    | yes mid ↦ let e : 3500 + min (v - 3500) 686 ≡ v = omega arith in rw e refl
    | no top ↦ let e : min (v - 3500) 686 ≡ 686 = omega arith in rw e (ground arith)
  ]
]

full_at_top : level_at (3500 + 686) ≡ 100
unfolding battery_info_from_voltage
full_at_top = refl

-- A higher voltage never decodes to a lower percentage, and no percentage is above 100.
pub battery_info_from_voltage_mono :
    (v w flags flags' : ℕ)
    → v ≤ w
    → ((battery_info_from_voltage v flags).level ≤ (battery_info_from_voltage w flags').level)
      × ((battery_info_from_voltage w flags').level ≤ 100)
battery_info_from_voltage_mono v w flags flags' le =
    rw (on_curve v flags, on_curve w flags')
      (
        rises-le curve 686 (min (v - 3500) 686) (min (w - 3500) 686) curve_table (omega arith)
            (omega arith),
        omega (
          arith,
          full_at_top,
          rises-le curve 686 (min (w - 3500) 686) 686 curve_table (omega arith) (omega arith),
        ),
      )
  where
    curve : ℕ → ℕ
    curve k = level_at (3500 + k)
