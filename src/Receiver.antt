-- ===== src/Receiver.antt =====
-- Logitech USB receivers (src/logitech_receiver.cpp): the table of known products, and the
-- discovery over a sysfs directory.
pub mod Table
pub mod Found
use abrek_mouse.Prelude.{
  ℕ, zero, suc, ◌+◌, ◌-◌, ◌*◌, ◌/◌, ◌%◌, ◌^◌, ◌≤◌, ◌<◌, min, max, ◌≡◌, refl, sym, ap, ◌∙◌, ◌≢◌, ◌↔◌,
  ◌⊎◌, inl, inr, Bool, true, false, not, ◌&&◌, ◌||◌, Option, none, some, List, [], ◌∷◌, ◌++◌, map,
  append-nil, append_assoc, arith, ltb, leb, ◌==◌, if◌then◌else◌, ltb→lt, lt→ltb, leb→le, ==_iff,
  tests, Bool-cases, Option-cases, length, get_or, take, drop, replicate, length-append,
  length-take, length-drop, length-replicate, take-append-drop, take-length, All, any_of, find_if,
  dec_lt,
}
use Prim.Native.String.{String}

pub data ReceiverKind : Type 0 where
  nano unifying bolt lightspeed legacy_27mhz unknown : ReceiverKind

pub record ReceiverSpec : Type 0 where
  pub product_id : ℕ
  pub kind : ReceiverKind
  pub slots : ℕ
  pub hidpp : Bool

abbrev spec : ℕ → ReceiverKind → ℕ → Bool → ReceiverSpec
spec p k s h = record { product_id = p; kind = k; slots = s; hidpp = h }

abbrev pub receivers : List ReceiverSpec
receivers =
    spec 0xc517 legacy_27mhz 4 true
    ∷ spec 0xc518 nano 1 true
    ∷ spec 0xc51a nano 1 true
    ∷ spec 0xc51b nano 1 true
    ∷ spec 0xc521 nano 1 true
    ∷ spec 0xc525 nano 1 true
    ∷ spec 0xc526 nano 1 true
    ∷ spec 0xc52e nano 1 true
    ∷ spec 0xc52f nano 1 true
    ∷ spec 0xc52b unifying 6 true
    ∷ spec 0xc532 unifying 6 true
    ∷ spec 0xc531 nano 1 true
    ∷ spec 0xc534 nano 2 true
    ∷ spec 0xc535 nano 1 true
    ∷ spec 0xc537 nano 2 true
    ∷ spec 0xc542 nano 1 false
    ∷ spec 0xc539 lightspeed 1 true
    ∷ spec 0xc53a lightspeed 1 true
    ∷ spec 0xc53d lightspeed 1 true
    ∷ spec 0xc53f lightspeed 1 true
    ∷ spec 0xc541 lightspeed 1 true
    ∷ spec 0xc545 lightspeed 1 true
    ∷ spec 0xc547 lightspeed 1 true
    ∷ spec 0xc54d lightspeed 1 true
    ∷ spec 0xc548 bolt 6 true
    ∷ []

unfoldable pub find_spec : List ReceiverSpec → ℕ → Option ReceiverSpec
find_spec [] p = none
find_spec (s ∷ ss) p = if s.product_id == p then some s else find_spec ss p

unfoldable pub receiver_for : ℕ → Option ReceiverSpec
unfolding find_spec
receiver_for p = find_spec receivers p

unfoldable pub is_known_non_hidpp_receiver : ℕ → Bool
is_known_non_hidpp_receiver p = elim (receiver_for p) [ none ↦ false | some s ↦ not s.hidpp ]

pub kind_name : ReceiverKind → String
kind_name nano = "Nano"
kind_name unifying = "Unifying"
kind_name bolt = "Bolt"
kind_name lightspeed = "Lightspeed"
kind_name legacy_27mhz = "27MHz"
kind_name unknown = "Unknown"

-- A hexadecimal digit as an ASCII code.
abbrev hex_value : ℕ → Option ℕ
hex_value c =
    if leb 48 c && leb c 57
    then some (c - 48)
    else if leb 65 c && leb c 70
    then some (c - 55)
    else if leb 97 c && leb c 102
    then some (c - 87)
    else none

-- `from_chars` in base 16 over the whole text into a 32-bit number.
unfoldable pub hex_from : ℕ → List ℕ → Option ℕ
hex_from acc [] = some acc
hex_from acc (c ∷ cs) = elim (hex_value c) [
  | none ↦ none
  | some v ↦ if ltb (acc * 16 + v) (2 ^ 32) then hex_from (acc * 16 + v) cs else none
]

unfoldable pub read_hex : List ℕ → Option ℕ
unfolding hex_from
read_hex [] = none
read_hex (c ∷ cs) = hex_from 0 (c ∷ cs)

-- A directory entry: its path and the first lines of its `idVendor`, `idProduct` and `product`
-- files, empty where a file cannot be read.
pub record SysfsEntry : Type 0 where
  pub path : List ℕ
  pub id_vendor : List ℕ
  pub id_product : List ℕ
  pub product : List ℕ

pub record ReceiverInfo : Type 0 where
  pub sysfs_path : List ℕ
  pub product_name : List ℕ
  pub vendor : ℕ
  pub product : ℕ
  pub kind : ReceiverKind
  pub max_paired_devices : ℕ
  pub hidpp_supported : Bool

abbrev with_spec : Option ReceiverSpec → ReceiverInfo → ReceiverInfo
with_spec none info = info
with_spec (some s) info = record info {
  kind = s.kind;
  max_paired_devices = s.slots;
  hidpp_supported = s.hidpp;
}

-- One entry: a Logitech product, or nothing. `blank` holds the defaults of the struct.
unfoldable pub receiver_info : ReceiverInfo → SysfsEntry → Option ReceiverInfo
receiver_info blank e = elim (read_hex e.id_vendor) [
  | none ↦ none
  | some v ↦ elim (read_hex e.id_product) [
    | none ↦ none
    | some p ↦
        if v == 0x046d
        then some (
            with_spec (receiver_for p) (record blank {
              sysfs_path = e.path;
              product_name = e.product;
              vendor = v;
              product = p;
            }))
        else none
  ]
]

-- What the directory iterator gives: an entry and whether advancing past it failed, which ends the
-- loop before the entry is read.
unfoldable pub discover_logitech_receivers :
    ReceiverInfo → List (SysfsEntry × Bool) → List ReceiverInfo
discover_logitech_receivers blank [] = []
discover_logitech_receivers blank ((e, failed) ∷ es) =
    let rest = discover_logitech_receivers blank es in
    if failed then [] else elim (receiver_info blank e) [ none ↦ rest | some info ↦ info ∷ rest ]
