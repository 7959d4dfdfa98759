-- ===== src/Config/Model.antt =====
-- The configuration as src/config.cpp reads and writes it. The acceleration settings of a profile
-- are a parameter here, since the daemon and the command line only pass them on.
use abrek_mouse.Prelude.{ℕ, Bool, List, Text, codes, ℤ}

-- `device_config`; the two rates are `int`s.
pub record DeviceConfig : Type 0 where
  pub dpi : ℤ
  pub polling_rate : ℤ
  pub disable : Bool

-- `device_profile`.
pub record DeviceProfile (P : Type 0) : Type 0 where
  pub name : Text
  pub device_id : Text
  pub match_app : Text
  pub dev_cfg : DeviceConfig
  pub prof : P

-- `app_config`.
pub record AppConfig (P : Type 0) : Type 0 where
  pub version : Text
  pub active_profile : Text
  pub use_raw_input : Bool
  pub profiles : List (DeviceProfile P)

-- `MAX_NAME_LEN` and `MAX_PROFILES` (include/rawaccel-base.hpp).
abbrev pub max_name_len : ℕ
max_name_len = 256

abbrev pub max_profiles : ℕ
max_profiles = 256

-- `POLL_RATE_MIN` and `POLL_RATE_MAX`.
abbrev pub poll_rate_min : ℕ
poll_rate_min = 125

abbrev pub poll_rate_max : ℕ
poll_rate_max = 8000

-- `RAWACCEL_VERSION`.
abbrev pub rawaccel_version : Text
rawaccel_version = codes "1.2.8"
