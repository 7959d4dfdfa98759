-- ===== src/Hidpp/Transport/Onboard.antt =====
-- On-board profiles (feature 0x8100): switching them off for host writes and on again, their
-- descriptor and headers, and reading and writing of flash sectors.
use abrek_mouse.Prelude.{
  ℕ, zero, suc, ◌+◌, ◌-◌, ◌*◌, ◌%◌, min, Bool, true, false, not, ◌&&◌, ◌||◌, Option, none, some,
  List, [], ◌∷◌, ◌++◌, ltb, leb, ◌==◌, if◌then◌else◌, length, take, drop, replicate,
}
use abrek_mouse.Hidpp.Bytes.{at, hi_byte, lo_byte, be16, read_be16}
use abrek_mouse.Hidpp.Features.{FeatureIds}
use abrek_mouse.Hidpp.Transport.Monad.{M, pure, ◌>>=◌, ◌>>◌}
use abrek_mouse.Hidpp.Transport.State.{Transport, target_of}
use abrek_mouse.Hidpp.Transport.Request.{
  feature_request, send_feature_request, resolve_feature_index,
}

abbrev pub has_value {ℓ} : {A : Type ℓ} → Option A → Bool
has_value none = false
has_value (some a) = true

unfoldable pub mark_disabled : Bool → Transport → Unit {0} × Transport
mark_disabled b t = (tt, record t { onboard_profiles_disabled_by_us = b })

-- Only a reply that says otherwise counts as "no profile is active".
abbrev pub profile_active : Option (List ℕ) → Bool
profile_active none = true
profile_active (some []) = true
profile_active (some (b ∷ d)) = b == 0x01

abbrev pub resolved_target : ℕ → Transport → ℕ × Transport
resolved_target target t = (target_of t target, t)

-- Function 0x10 with 2 switches the profiles off, with 1 on; success is remembered.
unfoldable pub switch_profiles : ℕ → ℕ → Bool → ℕ → M Bool
switch_profiles index value disabled target = do
  reply ← send_feature_request index 0x10 (value ∷ []) target
  elim (has_value reply) [ false ↦ pure false | true ↦ do mark_disabled disabled; pure true ]

unfoldable pub disable_onboard_profiles_for_write : FeatureIds → ℕ → M Bool
disable_onboard_profiles_for_write ids target0 = do
  target ← resolved_target target0
  index ← resolve_feature_index ids.onboard_profiles target
  elim index [
    | none ↦ pure true
    | some i ↦ do
      state ← send_feature_request i 0x20 [] target
      elim (profile_active state) [ false ↦ pure true | true ↦ switch_profiles i 0x02 true target ]
  ]

restore_active : FeatureIds → ℕ → M Bool
restore_active ids target0 = do
  target ← resolved_target target0
  index ← resolve_feature_index ids.onboard_profiles target
  elim index [ none ↦ pure true | some i ↦ switch_profiles i 0x01 false target ]

-- Profiles that this transport did not switch off are left alone.
unfoldable pub restore_onboard_profiles : FeatureIds → ℕ → M Bool
unfolding restore_active
restore_onboard_profiles ids target t =
    let active = restore_active ids target t in
    if not t.onboard_profiles_disabled_by_us then (true, t) else active

pub record OnboardInfo : Type 0 where
  pub memory : ℕ
  pub active_profile : ℕ
  pub macro_profile : ℕ
  pub profile_count : ℕ
  pub out_of_bounds : ℕ
  pub button_count : ℕ
  pub sector_count : ℕ
  pub profile_size : ℕ
  pub shift : ℕ

-- Only the normal layout is accepted.
unfoldable pub parse_onboard_info : List ℕ → Option OnboardInfo
parse_onboard_info d =
    if ltb (length d) 10
    then none
    else if not (at d 0 == 0x01) || ltb 0x05 (at d 3) || at d 6 == 0 || be16 (at d 7) (at d 8) == 0
    then none
    else some (record {
      memory = at d 0;
      active_profile = at d 1;
      macro_profile = at d 2;
      profile_count = at d 3;
      out_of_bounds = at d 4;
      button_count = at d 5;
      sector_count = at d 6;
      profile_size = be16 (at d 7) (at d 8);
      shift = at d 9;
    })

abbrev parse_info_reply : Option (List ℕ) → Option OnboardInfo
parse_info_reply none = none
parse_info_reply (some d) = parse_onboard_info d

unfoldable pub get_onboard_profile_info : FeatureIds → ℕ → M (Option OnboardInfo)
get_onboard_profile_info ids target = do
  reply ← feature_request ids.onboard_profiles 0 [] target
  pure (parse_info_reply reply)

pub record ProfileHeader : Type 0 where
  pub number : ℕ
  pub sector : ℕ
  pub enabled : ℕ

-- What a header reply means: the end of the list, or the sector and its flag.
pub data HeaderReply : Type 0 where
  last_header : HeaderReply
  header_at : ℕ → ℕ → HeaderReply

unfoldable pub parse_header : OnboardInfo → Option (List ℕ) → HeaderReply
parse_header info none = last_header
parse_header info (some d) =
    if ltb (length d) 3
    then last_header
    else if at d 0 == 0xFF && at d 1 == 0xFF
    then last_header
    else if read_be16 d == 0 || leb info.sector_count (read_be16 d)
    then last_header
    else header_at (read_be16 d) (at d 2)

-- The headers from index `i` on in one storage, 0 for RAM and 1 for ROM.
unfoldable pub read_headers :
    FeatureIds → OnboardInfo → ℕ → ℕ → ℕ → ℕ → List ProfileHeader → M (List ProfileHeader)
read_headers ids info storage target zero i acc = pure acc
read_headers ids info storage target (suc left) i acc = do
  reply ← feature_request ids.onboard_profiles 0x50 (storage ∷ 0 ∷ 0 ∷ (i * 4 % 256) ∷ []) target
  elim (parse_header info reply) [
    | last_header ↦ pure acc
    | header_at sector flag ↦
        read_headers ids info storage target left (i + 1)
          (acc ++ record { number = (i + 1) % 256; sector = sector; enabled = flag } ∷ [])
  ]

unfoldable pub get_onboard_profile_headers : FeatureIds → ℕ → M (List ProfileHeader)
get_onboard_profile_headers ids target = do
  info ← get_onboard_profile_info ids target
  elim info [
    | none ↦ pure []
    | some i ↦ do
      ram ← read_headers ids i 0x00 target i.profile_count 0 []
      elim ram [ [] ↦ read_headers ids i 0x01 target i.profile_count 0 [] | x ∷ l ↦ pure (x ∷ l) ]
  ]

-- A reply holds the bytes that are wanted, and no fewer.
abbrev pub enough : Option (List ℕ) → ℕ → Option (List ℕ)
enough none wanted = none
enough (some []) wanted = none
enough (some (b ∷ d)) wanted =
    if ltb (length (b ∷ d)) wanted then none else some (take wanted (b ∷ d))

-- The sector from `offset` on, 16 bytes to a request; the fuel counts the requests.
unfoldable pub read_sector_from : FeatureIds → ℕ → ℕ → ℕ → ℕ → ℕ → List ℕ → M (Option (List ℕ))
read_sector_from ids sector target zero offset size acc = pure none
read_sector_from ids sector target (suc fuel) offset size acc = elim (ltb offset size) [
  | false ↦ pure (some acc)
  | true ↦ do
    reply ←
        feature_request ids.onboard_profiles 0x50
          (hi_byte sector ∷ lo_byte sector ∷ hi_byte offset ∷ lo_byte offset ∷ []) target
    elim (enough reply (min 16 (size - offset))) [
      | none ↦ pure none
      | some chunk ↦ read_sector_from ids sector target fuel (offset + 16) size (acc ++ chunk)
    ]
]

unfoldable pub sector_readable : OnboardInfo → ℕ → ℕ → Bool
sector_readable info sector size =
    not (sector == 0)
    && ltb sector info.sector_count
    && not (size == 0)
    && leb size info.profile_size
    && leb size 4096

-- A sector has at most 4096 bytes, so 257 rounds are enough.
unfoldable pub read_onboard_profile_sector : FeatureIds → ℕ → ℕ → ℕ → M (Option (List ℕ))
read_onboard_profile_sector ids sector size target = do
  info ← get_onboard_profile_info ids target
  elim info [
    | none ↦ pure none
    | some i ↦ elim (sector_readable i sector size) [
      | false ↦ pure none
      | true ↦ read_sector_from ids sector target 257 0 size []
    ]
  ]

-- HIDPP_ONBOARD_SECTOR_DATA_CHUNK: with the sector number a chunk fills the 16 parameter bytes.
abbrev pub sector_chunk : ℕ
sector_chunk = 14

abbrev pub sector_params : ℕ → List ℕ → List ℕ
sector_params sector part =
    hi_byte sector ∷ lo_byte sector ∷ (part ++ replicate (sector_chunk - length part) 0)

-- The loop over the data that is still to be written. Each round takes 14 bytes at most and one at
-- least, so as many rounds as bytes are enough.
unfoldable pub write_sector_from : ℕ → ℕ → ℕ → ℕ → List ℕ → M Bool
write_sector_from index sector target fuel [] = pure true
write_sector_from index sector target zero (b ∷ d) = pure false
write_sector_from index sector target (suc fuel) (b ∷ d) = do
  reply ← send_feature_request index 0x70 (sector_params sector (take sector_chunk (b ∷ d))) target
  elim (has_value reply) [
    | false ↦ pure false
    | true ↦ write_sector_from index sector target fuel (drop sector_chunk (b ∷ d))
  ]

unfoldable pub write_onboard_profile_sector : FeatureIds → ℕ → List ℕ → ℕ → M Bool
write_onboard_profile_sector ids sector bytes target = do
  index ← resolve_feature_index ids.onboard_profiles target
  elim index [ none ↦ pure false | some i ↦ write_sector_from i sector target (length bytes) bytes ]
