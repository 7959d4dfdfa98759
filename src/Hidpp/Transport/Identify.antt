-- ===== src/Hidpp/Transport/Identify.antt =====
-- Identification of the devices behind one hidraw node. Opening the node and the kernel's name for
-- it (`export_name`) are outside; the functions start from the opened transport, and the destructor
-- at their end is `close_transport`.
use abrek_mouse.Prelude.{
  ℕ, Bool, true, false, ◌&&◌, Option, none, some, List, [], ◌∷◌, ◌++◌, ◌==◌, if◌then◌else◌, any_of,
}
use abrek_mouse.Receiver.{is_known_non_hidpp_receiver}
use abrek_mouse.Hidpp.Header.{Header, DeviceInfo, Device}
use abrek_mouse.Hidpp.Transport.Monad.{M, pure, ◌>>=◌, ◌>>◌}
use abrek_mouse.Hidpp.Transport.State.{Transport, budget_spent, set_device_index}
use abrek_mouse.Hidpp.Transport.Register.{probe_hidpp10, write_register}
use abrek_mouse.Hidpp.Transport.Discovery.{get_feature_set, get_feature_metadata}
use abrek_mouse.Hidpp.Transport.Info.{get_device_info}
use abrek_mouse.Hidpp.Transport.Onboard.{restore_onboard_profiles}

abbrev same_codes : List ℕ → List ℕ → Bool
same_codes [] [] = true
same_codes (x ∷ xs) (y ∷ ys) = x == y && same_codes xs ys
same_codes _ _ = false

-- One device that answers at two indices is listed once.
unfoldable pub same_identified_device : Device → Device → Bool
same_identified_device a b =
    a.product_id == b.product_id
    && same_codes a.info.serial b.info.serial
    && same_codes a.info.model_id b.info.model_id

abbrev retarget : ℕ → M (Unit {0})
retarget target t = (tt, set_device_index target t)

module _ (h : Header) (hidraw_path export_name : List ℕ) where
  open h use {ids, blank_device}

  -- The restore of the destructor; an exception in it is swallowed.
  pub close_transport : M (Unit {0})
  close_transport t =
      let restored = restore_onboard_profiles ids h.default_target t in
      (tt, if t.is_open then restored.1 else t)

  abbrev plain_device : Transport → Device
  plain_device t = record blank_device {
    hidraw_path = hidraw_path;
    vendor_id = t.vendor_id;
    product_id = t.product_id;
  }

  -- A node that speaks neither protocol, surfaced as disconnected.
  bare_device : ℕ → Device → Device
  bare_device target d = record d {
    info = record d.info { protocol_version = 0; target = target; name = export_name };
    connected = false;
  }

  legacy_device : ℕ → Device → Device
  legacy_device target d = record d {
    device_index = target;
    info = record d.info { protocol_version = 1; target = target; name = export_name };
    connected = true;
  }

  full_device : ℕ → DeviceInfo → List (ℕ × ℕ) → M Device
  full_device target info features = do
    metadata ← get_feature_metadata target
    λ t. (
      record (plain_device t) {
        device_index = target;
        info = info;
        features = features;
        feature_metadata = metadata;
        connected = true;
      },
      t,
    )

  identify_hidpp20_target : ℕ → M (Option Device)
  identify_hidpp20_target target = do
    retarget target
    features ← get_feature_set target
    elim features [
      | [] ↦ pure none
      | f ∷ fs ↦ do
        info ← get_device_info h target
        elim info [
          | none ↦ pure none
          | some i ↦ do device ← full_device target i (f ∷ fs); pure (some device)
        ]
    ]

  abbrev add_device : Option Device → List Device → List Device
  add_device none out = out
  add_device (some d) out =
      if any_of (λ e. same_identified_device e d) out then out else out ++ d ∷ []

  -- The sweep over the candidate indices, under one budget.
  sweep : List ℕ → List Device → M (List Device)
  sweep [] out = pure out
  sweep (candidate ∷ rest) out = do
    late ← budget_spent
    elim late [
      | true ↦ pure out
      | false ↦ do device ← identify_hidpp20_target candidate; sweep rest (add_device device out)
    ]

  -- HID++ 1.0 at 0xFF and then at 0: the index that answered.
  find_hidpp10 : M (Option ℕ)
  find_hidpp10 = do
    retarget 0xFF
    receiver ← probe_hidpp10 0xFF
    elim receiver [
      | true ↦ pure (some 0xFF)
      | false ↦ do
        retarget 0x00
        direct ← probe_hidpp10 0x00
        pure (if direct then some 0x00 else none)
    ]

  abbrev plain : M Device
  plain t = (plain_device t, t)

  abbrev fallback : Option ℕ → Device → Device
  fallback (some target) d = legacy_device target d
  fallback none d = bare_device 0x00 d

  identify_known : M (List Device)
  identify_known = do
    found ← sweep (0xFF ∷ 0x00 ∷ 0x01 ∷ 0x02 ∷ 0x03 ∷ 0x04 ∷ 0x05 ∷ 0x06 ∷ []) []
    elim found [
      | d ∷ ds ↦ pure (d ∷ ds)
      | [] ↦ do v10 ← find_hidpp10; device ← plain; pure (fallback v10 device ∷ [])
    ]

  identify_devices : M (List Device)
  identify_devices t =
      let known = identify_known t in
      if is_known_non_hidpp_receiver t.product_id
      then (bare_device 0x00 (plain_device t) ∷ [], t)
      else known

  pub identify_logitech_devices : M (List Device)
  identify_logitech_devices t =
      let run : M (List Device) = do devices ← identify_devices; close_transport; pure devices
      in if t.is_open then run t else ([], t)

  -- The single probe: at the transport's own index and then at 0.
  find_features : ℕ → M (ℕ × List (ℕ × ℕ))
  find_features target = do
    features ← get_feature_set target
    elim features [
      | f ∷ fs ↦ pure (target, f ∷ fs)
      | [] ↦ elim (target == 0x00) [
        | true ↦ pure (target, [])
        | false ↦ do retarget 0x00; direct ← get_feature_set 0x00; pure (0x00, direct)
      ]
    ]

  -- A HID++ 1.0 device is asked for battery, link and configuration notifications.
  identify_legacy : ℕ → Device → M (Option Device)
  identify_legacy target device = do
    v10 ← find_hidpp10
    elim v10 [
      | none ↦ pure (some (bare_device target device))
      | some v10_target ↦ do
        write_register 0x00 (0x00 ∷ 0x02 ∷ 0x04 ∷ []) h.default_target
        pure (some (legacy_device v10_target device))
    ]

  identify_one : ℕ → M (Option Device)
  identify_one index = do
    (target, features) ← find_features index
    start ← plain
    elim features [
      | [] ↦ identify_legacy target (record start { device_index = target })
      | f ∷ fs ↦ do
        info ← get_device_info h target
        elim info [
          | none ↦ pure none
          | some i ↦ do device ← full_device target i (f ∷ fs); pure (some device)
        ]
    ]

  identify_device : M (Option Device)
  identify_device t =
      let known = identify_one t.device_index t in
      if is_known_non_hidpp_receiver t.product_id
      then (some (bare_device 0x00 (plain_device t)), t)
      else known

  pub identify_logitech_device : M (Option Device)
  identify_logitech_device t =
      let run : M (Option Device) = do device ← identify_device; close_transport; pure device
      in if t.is_open then run t else (none, t)
