-- ===== src/Hidpp/Transport/Controls.antt =====
-- Host switching, LED brightness and reprogrammable buttons.
use abrek_mouse.Prelude.{
  ℕ, zero, suc, ◌+◌, ◌%◌, min, Bool, true, false, ◌||◌, Option, none, some, List, [], ◌∷◌, ◌++◌,
  ltb, ◌==◌, if◌then◌else◌, length,
}
use abrek_mouse.Hidpp.Bytes.{at, be16}
use abrek_mouse.Hidpp.Features.{FeatureIds}
use abrek_mouse.Hidpp.Transport.Monad.{M, pure, ◌>>=◌}
use abrek_mouse.Hidpp.Transport.Request.{send_feature_request, resolve_feature_index}
use abrek_mouse.Hidpp.Transport.Onboard.{has_value}

pub record HostInfo : Type 0 where
  pub current_host : ℕ
  pub host_count : ℕ
  pub flags : ℕ

abbrev parse_host : Option (List ℕ) → Option HostInfo
parse_host none = none
parse_host (some d) =
    if ltb (length d) 2
    then none
    else some (record {
      current_host = at d 0;
      host_count = at d 1;
      flags = if ltb 2 (length d) then at d 2 else 0;
    })

pub get_change_host_info : FeatureIds → ℕ → M (Option HostInfo)
get_change_host_info ids target = do
  index ← resolve_feature_index ids.change_host target
  elim index [
    | none ↦ pure none
    | some i ↦ do reply ← send_feature_request i 0x00 [] target; pure (parse_host reply)
  ]

pub set_change_host : FeatureIds → ℕ → ℕ → M Bool
set_change_host ids host_index target = do
  index ← resolve_feature_index ids.change_host target
  elim index [
    | none ↦ pure false
    | some i ↦ do
      reply ← send_feature_request i 0x10 (host_index ∷ []) target
      pure (has_value reply)
  ]

-- The first of the features that the device has; 0 if it has none.
first_supported : List ℕ → ℕ → M ℕ
first_supported [] target = pure 0
first_supported (f ∷ fs) target = do
  index ← resolve_feature_index f target
  elim index [ some i ↦ pure f | none ↦ first_supported fs target ]

pub led_feature_id : FeatureIds → ℕ → M ℕ
led_feature_id ids target =
    first_supported (ids.brightness_control ∷ ids.backlight2 ∷ ids.backlight ∷ []) target

-- Whether the level is supported, and the level: byte 3 of BACKLIGHT2, byte 1 otherwise.
abbrev parse_brightness : FeatureIds → ℕ → Option (List ℕ) → Option (Bool × ℕ)
parse_brightness ids feature none = none
parse_brightness ids feature (some []) = none
parse_brightness ids feature (some (b ∷ d)) = some (
  b % 2 == 1,
  if feature == ids.brightness_control
      then at (b ∷ d) 1
      else if feature == ids.backlight2
      then at (b ∷ d) 3
      else at (b ∷ d) 1,
)

pub get_led_brightness : FeatureIds → ℕ → M (Option (Bool × ℕ))
get_led_brightness ids target = do
  feature ← led_feature_id ids target
  elim (feature == 0) [
    | true ↦ pure none
    | false ↦ do
      index ← resolve_feature_index feature target
      elim index [
        | none ↦ pure none
        | some i ↦ do
          reply ← send_feature_request i 0x00 [] target
          pure (parse_brightness ids feature reply)
      ]
  ]

-- A brightness is a percentage.
pub set_led_brightness : FeatureIds → ℕ → ℕ → M Bool
set_led_brightness ids brightness target = do
  feature ← led_feature_id ids target
  elim (feature == 0 || ltb 100 brightness) [
    | true ↦ pure false
    | false ↦ do
      index ← resolve_feature_index feature target
      elim index [
        | none ↦ pure false
        | some i ↦ do
          reply ← send_feature_request i 0x10 (brightness ∷ []) target
          pure (has_value reply)
      ]
  ]

-- The number of controls stands in byte 1; at most 32 are read.
abbrev control_count : Option (List ℕ) → ℕ
control_count none = 0
control_count (some d) = if ltb (length d) 2 then 0 else min (at d 1) 32

abbrev with_control : Option (List ℕ) → List (ℕ × ℕ) → List (ℕ × ℕ)
with_control none acc = acc
with_control (some d) acc =
    if ltb (length d) 3 then acc else acc ++ (at d 0, be16 (at d 1) (at d 2)) ∷ []

read_controls : ℕ → ℕ → ℕ → ℕ → List (ℕ × ℕ) → M (List (ℕ × ℕ))
read_controls index target zero ctrl acc = pure acc
read_controls index target (suc left) ctrl acc = do
  reply ← send_feature_request index 0x10 (ctrl ∷ []) target
  read_controls index target left (ctrl + 1) (with_control reply acc)

pub get_reprog_controls : FeatureIds → ℕ → M (List (ℕ × ℕ))
get_reprog_controls ids target = do
  index ← resolve_feature_index ids.reprog_controls_v4 target
  elim index [
    | none ↦ pure []
    | some i ↦ do
      caps ← send_feature_request i 0x00 [] target
      read_controls i target (control_count caps) 0 []
  ]
