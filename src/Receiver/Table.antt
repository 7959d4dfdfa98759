-- ===== src/Receiver/Table.antt =====
-- The slot counts of `get_pairing_info` (src/logitech_hidpp.cpp) against the receiver table.
use abrek_mouse.Prelude.{
  ℕ, ◌≡◌, refl, sym, inl, inr, false, Option, none, some, List, [], ◌∷◌, arith, ◌==◌, if◌then◌else◌,
  Bool-cases, Option-cases, All,
}
use abrek_mouse.Receiver.{ReceiverSpec, receiver_for, receivers, find_spec}
use abrek_mouse.Hidpp.Transport.Pairing.{slot_count}

-- The slots that the table promises for a product that speaks HID++.
abbrev promised : Option ReceiverSpec → ℕ
promised none = 0
promised (some s) = if s.hidpp then s.slots else 0

find_spec-All :
    (P : ReceiverSpec → Type 0) (ss : List ReceiverSpec) (p : ℕ) (s : ReceiverSpec)
    → All P ss
    → find_spec ss p ≡ some s
    → P s × (s.product_id ≡ p)
unfolding find_spec
find_spec-All P [] p s a e = cc
find_spec-All P (x ∷ ss) p s (h, a) e = elim (Bool-cases (x.product_id == p)) [
  | inl b ↦
      let found : x ≡ s = ground arith in
      let same : x.product_id ≡ p = ground arith in rw (sym found) (h, same)
  | inr b ↦ find_spec-All P ss p s a (rw b at e)
]

find_spec-none :
    (ss : List ReceiverSpec) (p : ℕ)
    → find_spec ss p ≡ none
    → All (λ s. (p == s.product_id) ≡ false) ss
unfolding find_spec
find_spec-none [] p e = tt
find_spec-none (x ∷ ss) p e = (ground arith, find_spec-none ss p (ground arith))

table_agrees : All (λ s. slot_count s.product_id ≡ promised (some s)) receivers
unfolding slot_count
table_agrees = (
  refl,
  (
    refl,
    (
      refl,
      (
        refl,
        (
          refl,
          (
            refl,
            (
              refl,
              (
                refl,
                (
                  refl,
                  (
                    refl,
                    (
                      refl,
                      (
                        refl,
                        (
                          refl,
                          (
                            refl,
                            (
                              refl,
                              (
                                refl,
                                (
                                  refl,
                                  (
                                    refl,
                                    (refl, (refl, (refl, (refl, (refl, (refl, (refl, tt))))))),
                                  ),
                                ),
                              ),
                            ),
                          ),
                        ),
                      ),
                    ),
                  ),
                ),
              ),
            ),
          ),
        ),
      ),
    ),
  ),
)

unknown_product : (p : ℕ) → All (λ s. (p == s.product_id) ≡ false) receivers → slot_count p ≡ 0
unfolding slot_count
unknown_product p h =
    rw
      (
        h.0, h.1.0, h.1.1.0, h.1.1.1.0, h.1.1.1.1.0, h.1.1.1.1.1.0, h.1.1.1.1.1.1.0,
        h.1.1.1.1.1.1.1.0, h.1.1.1.1.1.1.1.1.0, h.1.1.1.1.1.1.1.1.1.0, h.1.1.1.1.1.1.1.1.1.1.0,
        h.1.1.1.1.1.1.1.1.1.1.1.0, h.1.1.1.1.1.1.1.1.1.1.1.1.0, h.1.1.1.1.1.1.1.1.1.1.1.1.1.0,
        h.1.1.1.1.1.1.1.1.1.1.1.1.1.1.0, h.1.1.1.1.1.1.1.1.1.1.1.1.1.1.1.1.0,
        h.1.1.1.1.1.1.1.1.1.1.1.1.1.1.1.1.1.0, h.1.1.1.1.1.1.1.1.1.1.1.1.1.1.1.1.1.1.0,
        h.1.1.1.1.1.1.1.1.1.1.1.1.1.1.1.1.1.1.1.0, h.1.1.1.1.1.1.1.1.1.1.1.1.1.1.1.1.1.1.1.1.0,
        h.1.1.1.1.1.1.1.1.1.1.1.1.1.1.1.1.1.1.1.1.1.0,
        h.1.1.1.1.1.1.1.1.1.1.1.1.1.1.1.1.1.1.1.1.1.1.0,
        h.1.1.1.1.1.1.1.1.1.1.1.1.1.1.1.1.1.1.1.1.1.1.1.0,
        h.1.1.1.1.1.1.1.1.1.1.1.1.1.1.1.1.1.1.1.1.1.1.1.1.0,
      )
      refl

-- For every product id, the pairing query probes as many slots as the receiver table promises: none
-- for a product outside the table or one that does not speak HID++.
slot_count-receiver_for : (product : ℕ) → slot_count product ≡ promised (receiver_for product)
unfolding receiver_for
slot_count-receiver_for product = elim (Option-cases (find_spec receivers product)) [
  | inl e ↦ rw e (unknown_product product (find_spec-none receivers product e))
  | inr (s, e) ↦
      let (agrees, same) =
        find_spec-All (λ x. slot_count x.product_id ≡ promised (some x)) receivers product s
          table_agrees e in
      rw e (rw same at agrees)
]
