-- ===== src/Hidpp/Header.antt =====
-- What the client takes from its header, which stands outside the modelled sources: the feature
-- identifiers, and the defaults of the structs that the code fills in.
use abrek_mouse.Prelude.{ℕ, Bool, List}
use abrek_mouse.Hidpp.Features.{FeatureIds}
use abrek_mouse.Hidpp.Records.{FirmwareRecord, PairingSlot, Metadata}

pub record DpiInfo : Type 0 where
  pub extended : Bool
  pub supports_y : Bool
  pub supports_lift_off_distance : Bool
  pub dpi_default : ℕ
  pub dpi_current : ℕ
  pub dpi_current_y : ℕ
  pub lift_off_distance : ℕ
  pub dpi_levels : List ℕ
  pub dpi_min : ℕ
  pub dpi_max : ℕ

pub record DeviceInfo : Type 0 where
  pub protocol_version : ℕ
  pub target : ℕ
  pub name : List ℕ
  pub device_kind : ℕ
  pub friendly_name : List ℕ
  pub unit_id : List ℕ
  pub transport_flags : ℕ
  pub model_id : List ℕ
  pub serial : List ℕ
  pub bluetooth_id : List ℕ
  pub bluetooth_le_id : List ℕ
  pub wireless_pid : List ℕ
  pub usb_id : List ℕ
  pub firmware_records : List FirmwareRecord
  pub firmware_name : List ℕ
  pub firmware_major : ℕ
  pub firmware_minor : ℕ
  pub firmware_build : ℕ
  pub firmware_version : ℕ

pub record Device : Type 0 where
  pub hidraw_path : List ℕ
  pub vendor_id : ℕ
  pub product_id : ℕ
  pub device_index : ℕ
  pub info : DeviceInfo
  pub features : List (ℕ × ℕ)
  pub feature_metadata : List Metadata
  pub connected : Bool

-- `default_target` is the default argument `target_device_index` of the methods.
pub record Header : Type 0 where
  pub ids : FeatureIds
  pub blank_dpi : DpiInfo
  pub blank_info : DeviceInfo
  pub blank_firmware : FirmwareRecord
  pub blank_slot : PairingSlot
  pub blank_device : Device
  pub default_target : ℕ
