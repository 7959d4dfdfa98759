-- ===== src/Hidpp/Records/Pairing.antt =====
-- Pairing slots and their product ids.
use abrek_mouse.Prelude.{ℕ, ◌<◌, ◌≡◌, ◌≢◌, ◌⊎◌, Bool, true, false, some, List, arith, All}
use abrek_mouse.Hidpp.Bytes.{IsByte, IsU16, at-IsByte}
use abrek_mouse.Hidpp.Records.{PairingSlot, parse_receiver_pairing}

-- A slot that is read from bytes keeps the number it was asked for and fits 16 bits; on a Unifying or Nano
-- receiver it is occupied exactly when its product id is not 0, and on a Bolt receiver a product id
-- other than 0 makes it occupied.
parse_receiver_pairing_lem :
    (blank s : PairingSlot) (d : List ℕ) (slot : ℕ) (bolt : Bool)
    → All IsByte d
    → parse_receiver_pairing blank d slot bolt ≡ some s
    → (s.slot ≡ slot)
      × (0 < s.slot)
      × IsU16 s.pid
      × ((s.pid ≡ 0) ⊎ (s.occupied ≡ true))
      × ((bolt ≡ true) ⊎ (s.occupied ≡ false) ⊎ (s.pid ≢ 0))
unfolding parse_receiver_pairing
parse_receiver_pairing_lem blank s d slot true bytes e =
    ground (arith, at-IsByte d 2 bytes, at-IsByte d 3 bytes)
parse_receiver_pairing_lem blank s d slot false bytes e =
    ground (arith, at-IsByte d 3 bytes, at-IsByte d 4 bytes)
