-- ===== src/Hidpp/Transport/Pairing.antt =====
-- `get_pairing_info`: the slots of a receiver, from its pairing registers.
use abrek_mouse.Prelude.{
  ℕ, zero, suc, ◌+◌, ◌-◌, ◌%◌, min, Bool, true, false, not, ◌&&◌, ◌||◌, Option, none, some, List,
  [], ◌∷◌, ◌++◌, leb, ◌==◌, if◌then◌else◌, length, take, drop,
}
use abrek_mouse.Hidpp.Bytes.{at, bounded_string, bytes_to_hex}
use abrek_mouse.Hidpp.Records.{PairingSlot, parse_receiver_pairing}
use abrek_mouse.Hidpp.Transport.Monad.{M, pure, ◌>>=◌}
use abrek_mouse.Hidpp.Transport.State.{budget_spent}
use abrek_mouse.Hidpp.Transport.Register.{read_register}
use abrek_mouse.Hidpp.Transport.Discovery.{timeout_streak}

-- The product ids of single-slot receivers.
abbrev single_slot : List ℕ
single_slot =
    0xc518 ∷ 0xc51a ∷ 0xc51b ∷ 0xc521 ∷ 0xc525 ∷ 0xc526 ∷ 0xc52e ∷ 0xc52f ∷ 0xc531 ∷ 0xc535 ∷ 0xc539
    ∷ 0xc53a ∷ 0xc53d ∷ 0xc53f ∷ 0xc541 ∷ 0xc545 ∷ 0xc547 ∷ 0xc54d ∷ []

abbrev one_of : List ℕ → ℕ → Bool
one_of [] p = false
one_of (q ∷ qs) p = p == q || one_of qs p

-- The slots that the product table promises; 0 for a product that is not probed.
unfoldable pub slot_count : ℕ → ℕ
slot_count product =
    if product == 0xc517
    then 4
    else if product == 0xc52b || product == 0xc532 || product == 0xc548
    then 6
    else if product == 0xc534 || product == 0xc537
    then 2
    else if one_of single_slot product
    then 1
    else 0

-- The receiver's own count, if it reports one in 1..6.
abbrev reported_count : Option (List ℕ) → ℕ → ℕ
reported_count none count = count
reported_count (some d) count =
    if leb 7 (length d) && leb 1 (at d 6) && leb (at d 6) 6 then at d 6 else count

-- Byte 1 of the name register is the length, and the text stands behind it.
abbrev with_slot_name : Option (List ℕ) → PairingSlot → PairingSlot
with_slot_name none s = s
with_slot_name (some d) s =
    if leb 2 (length d)
    then record s { name = bounded_string (take (min (at d 1) (length d - 2)) (drop 2 d)) }
    else s

abbrev with_slot_serial : Option (List ℕ) → PairingSlot → PairingSlot
with_slot_serial none s = s
with_slot_serial (some d) s =
    if leb 5 (length d) then record s { serial = bytes_to_hex (take 4 (drop 1 d)) } else s

-- An occupied slot of a Unifying or Nano receiver has a name and a serial register.
describe_slot : ℕ → Bool → PairingSlot → M PairingSlot
describe_slot slot bolt s = elim (not bolt && s.occupied) [
  | false ↦ pure s
  | true ↦ do
    name ← read_register 0x02B5 ((0x40 + slot - 1) % 256 ∷ []) 0xFF
    serial ← read_register 0x02B5 ((0x30 + slot - 1) % 256 ∷ []) 0xFF
    pure (with_slot_serial serial (with_slot_name name s))
]

abbrev subregister : Bool → ℕ → ℕ
subregister true slot = (0x50 + slot) % 256
subregister false slot = (0x20 + slot - 1) % 256

-- The loop over the slots from `slot` on, `left` of them, with the misses in a row.
read_slots : PairingSlot → Bool → ℕ → ℕ → ℕ → List PairingSlot → M (List PairingSlot)
read_slots blank bolt zero slot misses slots = pure slots
read_slots blank bolt (suc left) slot misses slots = do
  late ← budget_spent
  elim late [
    | true ↦ pure slots
    | false ↦ do
      reply ← read_register 0x02B5 (subregister bolt slot ∷ []) 0xFF
      elim reply [
        | none ↦ elim (leb timeout_streak (misses + 1)) [
          | true ↦ pure slots
          | false ↦ read_slots blank bolt left (slot + 1) (misses + 1) slots
        ]
        | some d ↦ elim (parse_receiver_pairing blank d slot bolt) [
          | none ↦ read_slots blank bolt left (slot + 1) 0 slots
          | some s ↦ do
            full ← describe_slot slot bolt s
            read_slots blank bolt left (slot + 1) 0 (slots ++ full ∷ [])
        ]
      ]
  ]

ask_count : Bool → ℕ → M ℕ
ask_count true count = pure count
ask_count false count = do
  reply ← read_register 0x02B5 (0x03 ∷ []) 0xFF
  pure (reported_count reply count)

pub get_pairing_info : PairingSlot → M (List PairingSlot)
get_pairing_info blank t =
    let bolt = t.product_id == 0xc548 in
    let count = slot_count t.product_id in
    let probe : M (List PairingSlot) = do n ← ask_count bolt count; read_slots blank bolt n 1 0 []
    in if count == 0 then ([], t) else probe t
