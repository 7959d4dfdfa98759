-- ===== src/Hidpp/Packet/RoundTrip.antt =====
-- Packets survive the wire: printing and parsing are inverse on both sides.
use abrek_mouse.Prelude.{ℕ, ◌≡◌, some, List, [], ◌∷◌, arith, length-take, take-length, All}
use abrek_mouse.Hidpp.Bytes.{IsByte}
use abrek_mouse.Hidpp.Packet.{
  Packet, IsWire, normalize_function_id, short_to_bytes, short_from_bytes, long_to_bytes,
  long_from_bytes, very_long_to_bytes, very_long_from_bytes,
}

short_round : (p : Packet) → IsWire 0x10 3 p → short_from_bytes (short_to_bytes p) ≡ some p
unfolding short_from_bytes short_to_bytes normalize_function_id
short_round p w = ground (arith, take-length 3 p.params, length-take 3 p.params)

long_round : (p : Packet) → IsWire 0x11 16 p → long_from_bytes (long_to_bytes p) ≡ some p
unfolding long_from_bytes long_to_bytes normalize_function_id
long_round p w =
    rw (take-length 16 p.params (omega arith)) (ground (arith, take-length 16 p.params))

very_long_round :
    (p : Packet) → IsWire 0x12 60 p → very_long_from_bytes (very_long_to_bytes p) ≡ some p
unfolding very_long_from_bytes very_long_to_bytes normalize_function_id
very_long_round p w =
    rw (take-length 60 p.params (omega arith)) (ground (arith, take-length 60 p.params))

-- For each of the three report layouts: a packet whose fields fit the wire is parsed back from the
-- bytes that it prints as.
pub from_bytes-to_bytes :
    (p q r : Packet)
    → IsWire 0x10 3 p
    → IsWire 0x11 16 q
    → IsWire 0x12 60 r
    → (short_from_bytes (short_to_bytes p) ≡ some p)
      × (long_from_bytes (long_to_bytes q) ≡ some q)
      × (very_long_from_bytes (very_long_to_bytes r) ≡ some r)
from_bytes-to_bytes p q r wp wq wr = (short_round p wp, long_round q wq, very_long_round r wr)

-- Bytes that the short parser accepts print again from the packet, whose fields fit the wire.
pub to_bytes-from_bytes :
    (d : List ℕ) (p : Packet)
    → All IsByte d
    → short_from_bytes d ≡ some p
    → (short_to_bytes p ≡ d) × IsWire 0x10 3 p
unfolding short_from_bytes short_to_bytes normalize_function_id
to_bytes-from_bytes (a ∷ b ∷ c ∷ e ∷ f ∷ g ∷ h ∷ []) p bytes parsed = ground arith
to_bytes-from_bytes _ p bytes parsed = ground arith
