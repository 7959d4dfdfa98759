-- ===== src/Hidpp/Transport/Dpi.antt =====
-- DPI and lift-off distance: `get_dpi_info`, `set_dpi`, `get_lift_off_distance` and
-- `set_lift_off_distance`.
use abrek_mouse.Prelude.{
  ℕ, zero, suc, ◌+◌, ◌%◌, Bool, true, false, not, ◌&&◌, ◌||◌, Option, none, some, List, [], ◌∷◌,
  ◌++◌, ltb, leb, ◌==◌, if◌then◌else◌, length, drop,
}
use abrek_mouse.Hidpp.Bytes.{at, bit, hi_byte, lo_byte, be16}
use abrek_mouse.Hidpp.Dpi.{decode_dpi_levels, back}
use abrek_mouse.Hidpp.Header.{Header, DpiInfo}
use abrek_mouse.Hidpp.Transport.Monad.{M, pure, ◌>>=◌, ◌>>◌}
use abrek_mouse.Hidpp.Transport.State.{budget_spent}
use abrek_mouse.Hidpp.Transport.Request.{send_feature_request, resolve_feature_index}
use abrek_mouse.Hidpp.Transport.Discovery.{timeout_streak}
use abrek_mouse.Hidpp.Transport.Onboard.{disable_onboard_profiles_for_write, has_value}

-- The request closure of `get_dpi_info`.
unfoldable pub dpi_request : ℕ → ℕ → List ℕ → ℕ → M (Option (List ℕ))
dpi_request feature function params target = do
  index ← resolve_feature_index feature target
  elim index [ none ↦ pure none | some i ↦ send_feature_request i function params target ]

-- A reply of at least `n` bytes.
abbrev pub at_least : ℕ → Option (List ℕ) → Option (List ℕ)
at_least n none = none
at_least n (some d) = if ltb (length d) n then none else some d

-- The list ends with the word 0.
pub ends_with_zero : List ℕ → Bool
ends_with_zero [] = false
ends_with_zero (a ∷ []) = false
ends_with_zero (a ∷ b ∷ []) = a == 0 && b == 0
ends_with_zero (a ∷ b ∷ c ∷ l) = ends_with_zero (b ∷ c ∷ l)

-- The chunks of a DPI list from `chunk` on, `left` of the 256; `skip` bytes of each are no part of
-- the list, and a chunk without more counts as a miss.
unfoldable pub read_list : ℕ → ℕ → ℕ → ℕ → ℕ → ℕ → ℕ → List ℕ → M (List ℕ)
unfolding ends_with_zero
read_list feature function skip target zero chunk misses acc = pure acc
read_list feature function skip target (suc left) chunk misses acc = do
  late ← budget_spent
  elim late [
    | true ↦ pure acc
    | false ↦ do
      reply ← dpi_request feature function (0 ∷ 0 ∷ (chunk % 256) ∷ []) target
      elim (at_least (skip + 1) reply) [
        | none ↦ elim (leb timeout_streak (misses + 1)) [
          | true ↦ pure acc
          | false ↦ read_list feature function skip target left (chunk + 1) (misses + 1) acc
        ]
        | some d ↦ elim (ends_with_zero (acc ++ drop skip d)) [
          | true ↦ pure (acc ++ drop skip d)
          | false ↦ read_list feature function skip target left (chunk + 1) 0 (acc ++ drop skip d)
        ]
      ]
  ]

abbrev pub front : List ℕ → ℕ
front [] = 0
front (x ∷ l) = x

-- The bounds are set only from a non-empty list.
abbrev pub with_levels : List ℕ → DpiInfo → DpiInfo
with_levels [] info = record info { dpi_levels = [] }
with_levels (x ∷ l) info = record info { dpi_levels = x ∷ l; dpi_min = x; dpi_max = back (x ∷ l) }

-- The big-endian word at `i`.
abbrev pub word_at : List ℕ → ℕ → ℕ
word_at d i = be16 (at d i) (at d (i + 1))

abbrev pub or_default : ℕ → ℕ → ℕ
or_default v d = if v == 0 then d else v

-- The capability bits and the reply of GetDpi of the extended feature.
abbrev pub extended_info : DpiInfo → List ℕ → List ℕ → DpiInfo
extended_info blank caps current = record blank {
  extended = true;
  supports_y = bit (at caps 2) 0;
  supports_lift_off_distance = bit (at caps 2) 1;
  dpi_default = word_at current 3;
  dpi_current = or_default (word_at current 1) (word_at current 3);
  dpi_current_y =
      if bit (at caps 2) 0 && leb 9 (length current)
      then or_default (word_at current 5) (word_at current 7)
      else blank.dpi_current_y;
  lift_off_distance =
      if bit (at caps 2) 1 && leb 10 (length current)
      then at current 9
      else blank.lift_off_distance;
}

abbrev pub legacy_info : DpiInfo → List ℕ → DpiInfo
legacy_info blank current = record blank {
  dpi_default = word_at current 3;
  dpi_current = or_default (word_at current 1) (word_at current 3);
}

abbrev pub zeros : List ℕ
zeros = 0 ∷ 0 ∷ 0 ∷ []

module _ (h : Header) where
  open h use {ids, blank_dpi}

  -- ADJUSTABLE_DPI: one sensor, function 2 for the value and 1 for the list.
  unfoldable pub legacy_dpi : ℕ → M (Option DpiInfo)
  legacy_dpi target = do
    current ← dpi_request ids.adjustable_dpi 0x2 zeros target
    elim (at_least 5 current) [
      | none ↦ pure none
      | some d ↦ do
        bytes ← read_list ids.adjustable_dpi 0x1 1 target 256 0 0 []
        pure (some (with_levels (decode_dpi_levels bytes) (legacy_info blank_dpi d)))
    ]

  -- EXTENDED_ADJUSTABLE_DPI: function 1 for the capabilities, 5 for the value, 2 for the list. A
  -- device that does not answer one of the first two is asked through the older feature.
  unfoldable pub get_dpi_info : ℕ → M (Option DpiInfo)
  get_dpi_info target = do
    caps ← dpi_request ids.extended_adjustable_dpi 0x1 zeros target
    elim (at_least 3 caps) [
      | none ↦ legacy_dpi target
      | some c ↦ do
        current ← dpi_request ids.extended_adjustable_dpi 0x5 zeros target
        elim (at_least 5 current) [
          | none ↦ legacy_dpi target
          | some d ↦ do
            bytes ← read_list ids.extended_adjustable_dpi 0x2 3 target 256 0 0 []
            pure (some (with_levels (decode_dpi_levels bytes) (extended_info blank_dpi c d)))
        ]
    ]

  abbrev pub dpi_feature : DpiInfo → ℕ
  dpi_feature info = if info.extended then ids.extended_adjustable_dpi else ids.adjustable_dpi

abbrev pub contains : List ℕ → ℕ → Bool
contains [] v = false
contains (x ∷ l) v = x == v || contains l v

-- `std::clamp(lod, 1, 3)`, or 0 where the device has no such setting.
abbrev pub lod_byte : DpiInfo → ℕ
lod_byte info =
    if info.supports_lift_off_distance
    then (if ltb info.lift_off_distance 1
        then 1
        else if ltb 3 info.lift_off_distance
        then 3
        else info.lift_off_distance)
    else 0

-- The extended setter writes both axes.
abbrev pub dpi_function : DpiInfo → ℕ
dpi_function info = if info.extended then 0x6 else 0x3

abbrev pub dpi_params : DpiInfo → ℕ → List ℕ
dpi_params info dpi =
    if info.extended
    then 0 ∷ hi_byte dpi ∷ lo_byte dpi ∷ hi_byte dpi ∷ lo_byte dpi ∷ lod_byte info ∷ []
    else 0 ∷ hi_byte dpi ∷ lo_byte dpi ∷ []

-- A value that the device does not list is never sent.
unfoldable pub writable : ℕ → Option DpiInfo → Option DpiInfo
writable dpi none = none
writable dpi (some info) =
    if not (dpi == 0) && contains info.dpi_levels dpi then some info else none

module _ (h : Header) where
  open h use {ids}

  unfoldable pub write_dpi : ℕ → ℕ → DpiInfo → M Bool
  write_dpi dpi target info = do
    index ← resolve_feature_index (dpi_feature h info) target
    elim index [
      | none ↦ pure false
      | some i ↦ do
        reply ← send_feature_request i (dpi_function info) (dpi_params info dpi) target
        pure (has_value reply)
    ]

  unfoldable pub set_dpi : ℕ → ℕ → M Bool
  set_dpi dpi target = do
    disable_onboard_profiles_for_write ids target
    info ← get_dpi_info h target
    elim (writable dpi info) [ none ↦ pure false | some i ↦ write_dpi dpi target i ]

  -- The three levels are the bytes 1, 2 and 3.
  abbrev lod_of : Option DpiInfo → Option ℕ
  lod_of none = none
  lod_of (some info) =
      if info.supports_lift_off_distance
        && leb 1 info.lift_off_distance
        && leb info.lift_off_distance 3
      then some info.lift_off_distance
      else none

  pub get_lift_off_distance : ℕ → M (Option ℕ)
  get_lift_off_distance target = do info ← get_dpi_info h target; pure (lod_of info)

  abbrev pub lod_writable : ℕ → Option DpiInfo → Option DpiInfo
  lod_writable distance none = none
  lod_writable distance (some info) =
      if info.extended && info.supports_lift_off_distance && leb 1 distance && leb distance 3
      then some info
      else none

  -- The current levels are written back beside the distance.
  abbrev pub lod_params : DpiInfo → ℕ → List ℕ
  lod_params info distance =
      let y =
        if info.supports_y && not (info.dpi_current_y == 0)
        then info.dpi_current_y
        else info.dpi_current in
      0
      ∷ hi_byte info.dpi_current
      ∷ lo_byte info.dpi_current
      ∷ hi_byte y
      ∷ lo_byte y
      ∷ distance
      ∷ []

  unfoldable pub set_lift_off_distance : ℕ → ℕ → M Bool
  set_lift_off_distance distance target = do
    disable_onboard_profiles_for_write ids target
    info ← get_dpi_info h target
    elim (lod_writable distance info) [
      | none ↦ pure false
      | some i ↦ do
        index ← resolve_feature_index ids.extended_adjustable_dpi target
        elim index [
          | none ↦ pure false
          | some k ↦ do
            reply ← send_feature_request k 0x6 (lod_params i distance) target
            pure (has_value reply)
        ]
    ]
