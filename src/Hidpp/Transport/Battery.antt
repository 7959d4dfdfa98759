-- ===== src/Hidpp/Transport/Battery.antt =====
-- `get_battery_status`: the battery features in order of preference, then the 1.0 registers.
use abrek_mouse.Prelude.{
  ℕ, Bool, true, false, Option, none, some, List, [], leb, if◌then◌else◌, length,
}
use abrek_mouse.Hidpp.Bytes.{at, read_be16}
use abrek_mouse.Hidpp.Battery.{
  BatteryInfo, battery_info_from_voltage, parse_unified_battery, parse_battery_status_feature,
  parse_battery_charge, parse_legacy_battery_status, parse_centurion_battery,
}
use abrek_mouse.Hidpp.Features.{FeatureIds, has_feature}
use abrek_mouse.Hidpp.Transport.Monad.{M, pure, ◌>>=◌}
use abrek_mouse.Hidpp.Transport.Request.{feature_request}
use abrek_mouse.Hidpp.Transport.Register.{read_register}
use abrek_mouse.Hidpp.Transport.Discovery.{get_feature_set}

-- BATTERY_VOLTAGE: a big-endian voltage and the flags.
abbrev pub parse_voltage : List ℕ → Option BatteryInfo
parse_voltage d =
    if leb 3 (length d) then some (battery_info_from_voltage (read_be16 d) (at d 2)) else none

abbrev parsed : (List ℕ → Option BatteryInfo) → Option (List ℕ) → Option BatteryInfo
parsed parse none = none
parsed parse (some d) = parse d

-- A feature is asked only if the device has it.
unfoldable pub ask_feature :
    Bool → ℕ → ℕ → (List ℕ → Option BatteryInfo) → ℕ → M (Option BatteryInfo)
ask_feature false feature function parse target = pure none
ask_feature true feature function parse target = do
  reply ← feature_request feature function [] target
  pure (parsed parse reply)

-- The first source that answers ends the search.
infixr 6 ◌<|>◌
abbrev ◌<|>◌ : M (Option BatteryInfo) → M (Option BatteryInfo) → M (Option BatteryInfo)
m <|> k = do a ← m; elim a [ some info ↦ pure (some info) | none ↦ k ]

-- A register that replies ends the search, whatever its payload decodes to.
ask_registers : ℕ → M (Option BatteryInfo)
ask_registers target = do
  charge ← read_register 0x0D [] target
  elim charge [
    | some d ↦ pure (parse_battery_charge d)
    | none ↦ do
      status ← read_register 0x07 [] target
      elim status [ some d ↦ pure (parse_legacy_battery_status d) | none ↦ pure none ]
  ]

unfoldable pub battery_sources : FeatureIds → List (ℕ × ℕ) → ℕ → M (Option BatteryInfo)
unfolding ask_registers
battery_sources ids fs target =
    ask_feature (has_feature fs ids.unified_battery) ids.unified_battery 0x10 parse_unified_battery
      target
    <|> ask_feature (has_feature fs ids.centurion_battery_soc) ids.centurion_battery_soc 0x00
        parse_centurion_battery target
    <|> ask_feature (has_feature fs ids.battery_status) ids.battery_status 0x00
        parse_battery_status_feature target
    <|> ask_feature (has_feature fs ids.battery_voltage) ids.battery_voltage 0x00 parse_voltage
        target
    <|> ask_registers target

unfoldable pub get_battery_status : FeatureIds → ℕ → M (Option BatteryInfo)
get_battery_status ids target = do
  features ← get_feature_set target
  battery_sources ids features target
