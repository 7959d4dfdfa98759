-- ===== src/Hidpp/Notification/Accept.antt =====
-- Which reports are notifications, and of which kind.
use abrek_mouse.Prelude.{
  ℕ, ◌%◌, ◌≤◌, ◌<◌, ◌≡◌, sym, ◌⊎◌, true, none, some, List, arith, length, drop, All,
}
use abrek_mouse.Hidpp.Bytes.{IsByte, at, at-IsByte}
use abrek_mouse.Hidpp.Packet.{is_hidpp_error}
use abrek_mouse.Hidpp.Notification.{
  Kind, hidpp10, hidpp20, legacy_battery, legacy_illumination, Notification,
  notification_from_bytes, is_report_size, is_report_id, kind_of,
}

-- What each kind says of the report that it was read from.
abbrev pub Shape : Kind → List ℕ → Type 0
Shape legacy_battery d = ((at d 2 ≡ 0x07) ⊎ (at d 2 ≡ 0x0D)) × (length d ≡ 7) × (at d 6 ≡ 0)
Shape legacy_illumination d = (at d 2 ≡ 0x17) × (length d ≡ 7)
Shape hidpp20 d = (at d 2 < 0x40) × (at d 3 % 16 ≡ 0)
Shape hidpp10 d = 0x40 ≤ at d 2

kind_of-Shape :
    (d : List ℕ) (n : Notification) → notification_from_bytes d ≡ some n → Shape (kind_of d) d
unfolding notification_from_bytes kind_of
kind_of-Shape d n e = ground arith

fields :
    (d : List ℕ) (n : Notification)
    → at d 2 < 256
    → notification_from_bytes d ≡ some n
    → (is_report_size (length d) ≡ true)
      × (is_report_id (at d 0) ≡ true)
      × (0 < n.sub_id)
      × (n.sub_id < 128)
      × (n.sub_id ≡ at d 2)
      × (n.device_index ≡ at d 1)
      × (n.payload ≡ drop 4 d)
      × (n.report_id ≡ at d 0)
      × (n.address ≡ at d 3)
      × (n.feature_index ≡ at d 2)
      × (n.type ≡ kind_of d)
unfolding notification_from_bytes
fields d n byte e = ground arith

-- A report of bytes that is read as a notification is one of the three sizes and ids, its sub-id is in 1..127, its
-- fields and payload are those of the report, and its kind has the shape of that kind.
pub notification_from_bytes-Shape :
    (d : List ℕ) (n : Notification)
    → All IsByte d
    → notification_from_bytes d ≡ some n
    → (is_report_size (length d) ≡ true)
      × (is_report_id (at d 0) ≡ true)
      × (0 < n.sub_id)
      × (n.sub_id < 128)
      × (n.sub_id ≡ at d 2)
      × (n.device_index ≡ at d 1)
      × (n.payload ≡ drop 4 d)
      × (n.report_id ≡ at d 0)
      × (n.address ≡ at d 3)
      × (n.feature_index ≡ at d 2)
      × Shape n.type d
notification_from_bytes-Shape d n bytes e =
    let (a, b, c, x, f, g, h, l, m, o, k) = fields d n (at-IsByte d 2 bytes) e in
    (a, b, c, x, f, g, h, l, m, o, rw k (kind_of-Shape d n e))

type_lem : (d : List ℕ) (n : Notification) → notification_from_bytes d ≡ some n → n.type ≡ kind_of d
unfolding notification_from_bytes
type_lem d n e = ground arith

pub hidpp20_lem :
    (d : List ℕ) (n : Notification)
    → notification_from_bytes d ≡ some n
    → n.type ≡ hidpp20
    → at d 3 % 16 ≡ 0
hidpp20_lem d n e same =
    let shape = kind_of-Shape d n e in (rw (sym (type_lem d n e), same) at shape).1

-- An error report is never read as a notification, whatever its size.
pub error-ne-notification :
    (d : List ℕ) → is_hidpp_error d ≡ true → notification_from_bytes d ≡ none
unfolding is_hidpp_error notification_from_bytes
error-ne-notification d e = ground arith
