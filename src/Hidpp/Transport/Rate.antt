-- ===== src/Hidpp/Transport/Rate.antt =====
-- The report rate: `get_polling_rate` and `set_polling_rate`, over the extended feature (0x8061)
-- and the older one (0x8060).
use abrek_mouse.Prelude.{
  ℕ, ◌-◌, ◌/◌, ◌%◌, ◌^◌, Bool, true, false, Option, none, some, List, [], ◌∷◌, ltb, ◌==◌,
  if◌then◌else◌, length,
}
use abrek_mouse.Hidpp.Bytes.{read_be16}
use abrek_mouse.Hidpp.Rate.{rate_code_to_hz, hz_to_rate_code}
use abrek_mouse.Hidpp.Features.{FeatureIds}
use abrek_mouse.Hidpp.Transport.Monad.{M, pure, ◌>>=◌, ◌>>◌}
use abrek_mouse.Hidpp.Transport.Request.{send_feature_request, resolve_feature_index}
use abrek_mouse.Hidpp.Transport.Discovery.{first_byte}
use abrek_mouse.Hidpp.Transport.Onboard.{disable_onboard_profiles_for_write, has_value}

-- A big-endian mask, if the reply has two bytes.
abbrev mask_of : Option (List ℕ) → Option ℕ
mask_of none = none
mask_of (some d) = if ltb (length d) 2 then none else some (read_be16 d)

abbrev same_mask : ℕ → Option ℕ → Bool
same_mask mask none = false
same_mask mask (some m) = m == mask

-- The connection type, wired (0) or wireless (1), whose capabilities equal the live mask.
find_connection : ℕ → ℕ → ℕ → M (Option ℕ)
find_connection index mask target = do
  wired ← send_feature_request index 0x0 (0 ∷ []) target
  elim (same_mask mask (mask_of wired)) [
    | true ↦ pure (some 0)
    | false ↦ do
      wireless ← send_feature_request index 0x0 (1 ∷ []) target
      pure (if same_mask mask (mask_of wireless) then some 1 else none)
  ]

active_connection : ℕ → ℕ → M (Option ℕ)
active_connection index target = do
  actual ← send_feature_request index 0x1 [] target
  elim (mask_of actual) [ none ↦ pure none | some mask ↦ find_connection index mask target ]

abbrev rate_in : Bool → Option (List ℕ) → Option ℕ
rate_in extended reply = elim (first_byte reply) [
  | none ↦ none
  | some code ↦ rate_code_to_hz extended code
]

extended_rate : ℕ → ℕ → M (Option ℕ)
extended_rate index target = do
  connection ← active_connection index target
  elim connection [
    | none ↦ pure none
    | some c ↦ do reply ← send_feature_request index 0x2 (c ∷ []) target; pure (rate_in true reply)
  ]

legacy_rate : FeatureIds → ℕ → M (Option ℕ)
legacy_rate ids target = do
  index ← resolve_feature_index ids.report_rate target
  elim index [
    | none ↦ pure none
    | some i ↦ do reply ← send_feature_request i 0x1 [] target; pure (rate_in false reply)
  ]

-- An extended answer that names no known rate falls back to the older feature.
pub get_polling_rate : FeatureIds → ℕ → M (Option ℕ)
get_polling_rate ids target = do
  index ← resolve_feature_index ids.extended_adjustable_report_rate target
  elim index [
    | none ↦ legacy_rate ids target
    | some i ↦ do
      rate ← extended_rate i target
      elim rate [ some hz ↦ pure (some hz) | none ↦ legacy_rate ids target ]
  ]

-- Code `c` is offered by bit `c - 1` of the first byte (codes from 1 on).
unfoldable pub legacy_offers : ℕ → Option (List ℕ) → Bool
legacy_offers code reply = elim (first_byte reply) [
  | none ↦ false
  | some m ↦ m / 2 ^ (code - 1) % 2 == 1
]

-- Code `c` is offered by bit `c` of the big-endian mask.
unfoldable pub extended_offers : ℕ → Option (List ℕ) → Bool
extended_offers code reply = elim (mask_of reply) [ none ↦ false | some m ↦ m / 2 ^ code % 2 == 1 ]

-- One feature: ask for the codes that the device offers, and set an offered one. The result tells
-- "set", "refused" and "not tried" apart.
pub data SetResult : Type 0 where
  rate_set rate_refused rate_not_offered : SetResult

unfoldable pub set_code : ℕ → ℕ → ℕ → (Option (List ℕ) → Bool) → ℕ → ℕ → M SetResult
set_code feature query setter offers code target = do
  index ← resolve_feature_index feature target
  elim index [
    | none ↦ pure rate_not_offered
    | some i ↦ do
      supported ← send_feature_request i query [] target
      elim (offers supported) [
        | false ↦ pure rate_not_offered
        | true ↦ do
          reply ← send_feature_request i setter (code ∷ 0 ∷ 0 ∷ []) target
          pure (if has_value reply then rate_set else rate_refused)
      ]
  ]

unfoldable pub set_extended : FeatureIds → ℕ → ℕ → M Bool
set_extended ids hz target = elim (hz_to_rate_code true hz) [
  | none ↦ pure false
  | some code ↦ do
    result ← set_code ids.extended_adjustable_report_rate 0x1 0x3 (extended_offers code) code target
    elim result [ rate_set ↦ pure true | rate_refused ↦ pure false | rate_not_offered ↦ pure false ]
]

-- The older feature first; whatever it fails at, the extended one is tried.
unfoldable pub set_polling_rate : FeatureIds → ℕ → ℕ → M Bool
set_polling_rate ids hz target = do
  disable_onboard_profiles_for_write ids target
  elim (hz_to_rate_code false hz) [
    | none ↦ set_extended ids hz target
    | some code ↦ do
      result ← set_code ids.report_rate 0x0 0x2 (legacy_offers code) code target
      elim result [
        | rate_set ↦ pure true
        | rate_refused ↦ set_extended ids hz target
        | rate_not_offered ↦ set_extended ids hz target
      ]
  ]
