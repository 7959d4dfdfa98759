-- ===== src/Hidpp/Transport/Info.antt =====
-- `get_device_info`: names, firmware records and the identity block of a device.
use abrek_mouse.Prelude.{
  ℕ, zero, suc, ◌+◌, ◌-◌, ◌*◌, ◌%◌, ◌^◌, min, Bool, true, false, not, ◌&&◌, ◌||◌, Option, none,
  some, List, [], ◌∷◌, ◌++◌, ltb, leb, ◌==◌, if◌then◌else◌, length, take, drop,
}
use abrek_mouse.Hidpp.Bytes.{at, bit, bytes_to_hex}
use abrek_mouse.Hidpp.Features.{has_feature}
use abrek_mouse.Hidpp.Header.{Header, DeviceInfo}
use abrek_mouse.Hidpp.Records.{FirmwareRecord, parse_firmware_record}
use abrek_mouse.Hidpp.Transport.Monad.{M, pure, ◌>>=◌}
use abrek_mouse.Hidpp.Transport.State.{Transport, target_of}
use abrek_mouse.Hidpp.Transport.Request.{feature_request}
use abrek_mouse.Hidpp.Transport.Discovery.{get_feature_set, timeout_streak, first_byte}

-- The chunks of a name from `offset` on, 16 bytes to a chunk; a length is at most 255, so 16 chunks
-- are enough. `skip` leading bytes of a chunk are no part of the name (the echoed offset of
-- DEVICE_FRIENDLY_NAME), and a chunk without a byte behind them ends the loop.
read_chunks : ℕ → ℕ → ℕ → ℕ → ℕ → ℕ → List ℕ → M (List ℕ)
read_chunks zero skip feature target offset size name = pure name
read_chunks (suc left) skip feature target offset size name = elim (ltb offset size) [
  | false ↦ pure name
  | true ↦ do
    reply ← feature_request feature 0x10 ((offset % 256) ∷ []) target
    elim reply [
      | none ↦ pure name
      | some chunk ↦ elim (leb (length chunk) skip) [
        | true ↦ pure name
        | false ↦
            read_chunks left skip feature target (offset + 16) size
              (name ++ take (min 16 (size - offset)) (drop skip chunk))
      ]
    ]
]

-- Function 0 gives the length, of which at most 255 bytes are read.
read_name : ℕ → ℕ → ℕ → M (Option (ℕ × List ℕ))
read_name skip feature target = do
  reply ← feature_request feature 0 [] target
  elim (first_byte reply) [
    | none ↦ pure none
    | some n ↦ do
      name ← read_chunks 16 skip feature target 0 (min n 255) []
      pure (some (min n 255, name))
  ]

with_name : Option (ℕ × List ℕ) → DeviceInfo → DeviceInfo
with_name none info = info
with_name (some (size, name)) info = record info { name = name }

-- A friendly name counts only when all of it was read.
with_friendly_name : Option (ℕ × List ℕ) → DeviceInfo → DeviceInfo
with_friendly_name none info = info
with_friendly_name (some (size, name)) info =
    if length name == size then record info { friendly_name = name } else info

with_kind : Option ℕ → DeviceInfo → DeviceInfo
with_kind none info = info
with_kind (some k) info = record info { device_kind = k }

-- The next two characters of the model id, if the transport's flag is set and they are there.
take_id : Bool → List ℕ → ℕ → List ℕ × ℕ
take_id present model offset =
    if not present || ltb (length model) (offset + 2)
    then ([], offset)
    else (take 2 (drop offset model), offset + 2)

abbrev if_nil : List ℕ → List ℕ → List ℕ
if_nil [] other = other
if_nil (x ∷ l) other = x ∷ l

-- The identity block behind the record count: unit id, transport flags, model ids.
with_identity : List ℕ → DeviceInfo → DeviceInfo
with_identity d info =
    let unit = bytes_to_hex (take 4 (drop 1 d)) in
    let flags = at d 6 in
    let model = bytes_to_hex (take 6 (drop 7 d)) in
    let (bt, o1) = take_id (bit flags 0) model 0 in
    let (ble, o2) = take_id (bit flags 1) model o1 in
    let (wpid, o3) = take_id (bit flags 2) model o2 in
    let (usb, o4) = take_id (bit flags 3) model o3 in
    if ltb (length d) 13 then info else record info {
      unit_id = unit;
      transport_flags = flags;
      model_id = model;
      serial = if_nil info.serial unit;
      bluetooth_id = bt;
      bluetooth_le_id = ble;
      wireless_pid = wpid;
      usb_id = usb;
    }

abbrev is_nil : List ℕ → Bool
is_nil [] = true
is_nil (x ∷ l) = false

-- The first record of level 0 or 1 names the firmware. Major and minor are bytes and the build has
-- 16 bits, so the shifted fields share no bit.
with_firmware : FirmwareRecord → DeviceInfo → DeviceInfo
with_firmware r info0 =
    let info = record info0 { firmware_records = info0.firmware_records ++ r ∷ [] } in
    if is_nil info.firmware_name && (r.level == 0 || r.level == 1)
    then record info {
      firmware_name = r.name;
      firmware_major = r.major;
      firmware_minor = r.minor;
      firmware_build = r.build;
      firmware_version = r.major * 2 ^ 24 + r.minor * 2 ^ 16 + r.build;
    }
    else info

with_record : Option FirmwareRecord → DeviceInfo → DeviceInfo
with_record none info = info
with_record (some r) info = with_firmware r info

module _ (h : Header) where
  open h use {ids, blank_info, blank_firmware}

  -- The firmware records from `index` on, with the misses in a row.
  read_firmware : ℕ → ℕ → ℕ → ℕ → DeviceInfo → M DeviceInfo
  read_firmware zero index misses target info = pure info
  read_firmware (suc left) index misses target info = do
    reply ← feature_request ids.device_fw_version 0x10 (index ∷ []) target
    elim reply [
      | none ↦ elim (leb timeout_streak (misses + 1)) [
        | true ↦ pure info
        | false ↦ read_firmware left (index + 1) (misses + 1) target info
      ]
      | some d ↦
          read_firmware left (index + 1) 0 target
            (with_record (parse_firmware_record blank_firmware d) info)
    ]

  abbrev when : Bool → (DeviceInfo → M DeviceInfo) → DeviceInfo → M DeviceInfo
  when true step info = step info
  when false step info = pure info

  names_step : ℕ → DeviceInfo → M DeviceInfo
  names_step target info = do
    name ← read_name 0 ids.device_name target
    kind ← feature_request ids.device_name 0x20 [] target
    pure (with_kind (first_byte kind) (with_name name info))

  friendly_step : ℕ → DeviceInfo → M DeviceInfo
  friendly_step target info = do
    name ← read_name 1 ids.device_friendly_name target
    pure (with_friendly_name name info)

  -- At most 8 firmware records are read.
  firmware_step : ℕ → DeviceInfo → M DeviceInfo
  firmware_step target info = do
    reply ← feature_request ids.device_fw_version 0 [] target
    elim reply [
      | none ↦ pure info
      | some d ↦ elim d [
        | [] ↦ pure info
        | count ∷ rest ↦ read_firmware (min count 8) 0 0 target (with_identity (count ∷ rest) info)
      ]
    ]

  unit_step : ℕ → DeviceInfo → M DeviceInfo
  unit_step target info = do
    reply ← feature_request ids.device_unit_id 0 [] target
    pure (elim reply [
      | none ↦ info
      | some d ↦
          if leb 4 (length d) then record info { unit_id = bytes_to_hex (take 4 d) } else info
    ])

  fresh_info : ℕ → Transport → DeviceInfo × Transport
  fresh_info target t = (record blank_info { protocol_version = 2; target = target_of t target }, t)

  describe : List (ℕ × ℕ) → ℕ → M (Option DeviceInfo)
  describe features target = do
    start ← fresh_info target
    named ← when (has_feature features ids.device_name) (names_step target) start
    friendly ← when (has_feature features ids.device_friendly_name) (friendly_step target) named
    versioned ← when (has_feature features ids.device_fw_version) (firmware_step target) friendly
    united ← when (has_feature features ids.device_unit_id) (unit_step target) versioned
    pure (some (record united { serial = if_nil united.serial united.unit_id }))

  pub get_device_info : ℕ → M (Option DeviceInfo)
  get_device_info target = do
    features ← get_feature_set target
    elim (has_feature features ids.device_fw_version || has_feature features ids.device_name) [
      | false ↦ pure none
      | true ↦ describe features target
    ]
