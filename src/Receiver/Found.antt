-- ===== src/Receiver/Found.antt =====
-- What the discovery of receivers lists.
use abrek_mouse.Prelude.{
  ℕ, ◌≡◌, refl, sym, ap, ◌∙◌, ◌≢◌, ◌⊎◌, inl, inr, Bool, true, false, Option, none, some, List, [],
  ◌∷◌, arith, ◌==◌, ==_iff, Bool-cases, Option-cases, All, Mem,
}
use abrek_mouse.Receiver.{
  receivers, find_spec, ReceiverSpec, receiver_for, read_hex, SysfsEntry, ReceiverInfo, with_spec,
  receiver_info, discover_logitech_receivers,
}

-- The table has an entry of the product, and the record repeats it.
abbrev pub IsKnown : ReceiverInfo → Type 0
IsKnown info =
    (s : ReceiverSpec) × Mem s receivers
    × (s.product_id ≡ info.product)
    × (info.kind ≡ s.kind)
    × (info.max_paired_devices ≡ s.slots)
    × (info.hidpp_supported ≡ s.hidpp)

-- The table has no entry of the product, and the record has the defaults.
abbrev pub IsUnknown : ReceiverInfo → ReceiverInfo → Type 0
IsUnknown blank info =
    ((s : ReceiverSpec) → Mem s receivers → s.product_id ≢ info.product)
    × (info.kind ≡ blank.kind)
    × (info.max_paired_devices ≡ blank.max_paired_devices)
    × (info.hidpp_supported ≡ blank.hidpp_supported)

-- The entry is a Logitech product, and the record tells what the table knows of it.
abbrev pub IsFrom : ReceiverInfo → SysfsEntry → ReceiverInfo → Type 0
IsFrom blank e info =
    (read_hex e.id_vendor ≡ some 0x046d)
    × (read_hex e.id_product ≡ some info.product)
    × (info.vendor ≡ 0x046d)
    × (info.sysfs_path ≡ e.path)
    × (info.product_name ≡ e.product)
    × (IsKnown info ⊎ IsUnknown blank info)

find_spec-some :
    (ss : List ReceiverSpec) (p : ℕ) (s : ReceiverSpec)
    → find_spec ss p ≡ some s
    → Mem s ss × (s.product_id ≡ p)
unfolding find_spec
find_spec-some [] p s h = cc
find_spec-some (x ∷ ss) p s h = elim (Bool-cases (x.product_id == p)) [
  | inl e ↦
      let same : x ≡ s = cc (rw e at h) in
      (inl (sym same), ap (λ y. y.product_id) (sym same) ∙ (==_iff x.product_id p).0 e)
  | inr e ↦ let (m, q) = find_spec-some ss p s (rw e at h) in (inr m, q)
]

find_spec-none :
    (ss : List ReceiverSpec) (p : ℕ)
    → find_spec ss p ≡ none
    → (s : ReceiverSpec) → Mem s ss
    → s.product_id ≢ p
unfolding find_spec
find_spec-none [] p h s m = absurd m
find_spec-none (x ∷ ss) p h s m = elim (Bool-cases (x.product_id == p)) [
  | inl e ↦ absurd (let wrong : some x ≡ none = rw e at h in cc)
  | inr e ↦ elim m [
    | inl same ↦
        let here : s.product_id ≡ x.product_id = ap (λ y. y.product_id) same in ground arith
    | inr later ↦ find_spec-none ss p (rw e at h) s later
  ]
]

with_spec_keeps :
    (o : Option ReceiverSpec) (info : ReceiverInfo)
    → ((with_spec o info).product ≡ info.product)
      × ((with_spec o info).vendor ≡ info.vendor)
      × ((with_spec o info).sysfs_path ≡ info.sysfs_path)
      × ((with_spec o info).product_name ≡ info.product_name)
with_spec_keeps none info = (refl, refl, refl, refl)
with_spec_keeps (some s) info = (refl, refl, refl, refl)

-- The record before the table is asked.
abbrev plain : ReceiverInfo → SysfsEntry → ℕ → ReceiverInfo
plain blank e p = record blank {
  sysfs_path = e.path;
  product_name = e.product;
  vendor = 0x046d;
  product = p;
}

-- What the table knows of the product stands in the record.
looked_up :
    (blank : ReceiverInfo) (e : SysfsEntry) (p : ℕ)
    → IsKnown (with_spec (receiver_for p) (plain blank e p))
      ⊎ IsUnknown blank (with_spec (receiver_for p) (plain blank e p))
unfolding receiver_for
looked_up blank e p = elim (Option-cases (find_spec receivers p)) [
  | inl n ↦ rw n (inr (find_spec-none receivers p n, refl, refl, refl))
  | inr (s, n) ↦
      let (m, q) = find_spec-some receivers p s n in rw n (inl (s, m, q, refl, refl, refl))
]

built :
    (blank : ReceiverInfo) (e : SysfsEntry) (p : ℕ)
    → read_hex e.id_vendor ≡ some 0x046d
    → read_hex e.id_product ≡ some p
    → IsFrom blank e (with_spec (receiver_for p) (plain blank e p))
built blank e p n m =
    let (product, vendor, path, name) = with_spec_keeps (receiver_for p) (plain blank e p) in
    (n, rw product m, vendor, path, name, looked_up blank e p)

receiver_info-some :
    (blank info : ReceiverInfo) (e : SysfsEntry)
    → receiver_info blank e ≡ some info
    → (p : ℕ) × (read_hex e.id_vendor ≡ some 0x046d)
      × (read_hex e.id_product ≡ some p)
      × (with_spec (receiver_for p) (plain blank e p) ≡ info)
unfolding receiver_info
receiver_info-some blank info e h = elim (Option-cases (read_hex e.id_vendor)) [
  | inl n ↦ cc (rw (n, receiver_info) at h)
  | inr (v, n) ↦ elim (Option-cases (read_hex e.id_product)) [
    | inl m ↦ cc (rw (n, receiver_info, m) at h)
    | inr (p, m) ↦ elim (Bool-cases (v == 0x046d)) [
      | inl b ↦
          let same : v ≡ 0x046d = ground arith in
          (p, n ∙ ap some same, m, cc (rw (n, receiver_info, m, same) at h))
      | inr b ↦ cc (rw (n, receiver_info, m, b) at h)
    ]
  ]
]

receiver_info-IsFrom :
    (blank info : ReceiverInfo) (e : SysfsEntry)
    → receiver_info blank e ≡ some info
    → IsFrom blank e info
receiver_info-IsFrom blank info e h =
    let (p, n, m, same) = receiver_info-some blank info e h in rw (sym same) (built blank e p n m)

-- The entry `e` was read and gave the record.
abbrev pub Listed : ReceiverInfo → List (SysfsEntry × Bool) → ReceiverInfo → Type 0
Listed blank [] info = ⊥
Listed blank ((e, failed) ∷ es) info = IsFrom blank e info ⊎ Listed blank es info

All-weaken :
    (blank : ReceiverInfo) (e : SysfsEntry) (failed : Bool) (es : List (SysfsEntry × Bool))
    (infos : List ReceiverInfo)
    → All (Listed blank es) infos
    → All (Listed blank ((e, failed) ∷ es)) infos
All-weaken blank e failed es [] a = tt
All-weaken blank e failed es (x ∷ infos) (h, a) = (inr h, All-weaken blank e failed es infos a)

-- Each receiver that the discovery lists stands for an entry of the directory whose vendor file
-- reads 046d: it has the entry's path and name and the product id of its file, and its kind, slots
-- and HID++ flag are those of the product's entry in the table, or the defaults where the table has
-- no such product.
pub discover_logitech_receivers-Listed :
    (blank : ReceiverInfo) (es : List (SysfsEntry × Bool))
    → All (Listed blank es) (discover_logitech_receivers blank es)
unfolding discover_logitech_receivers
discover_logitech_receivers-Listed blank [] = tt
discover_logitech_receivers-Listed blank ((e, true) ∷ es) = tt
discover_logitech_receivers-Listed blank ((e, false) ∷ es) =
    let rest =
      All-weaken blank e false es (discover_logitech_receivers blank es)
        (discover_logitech_receivers-Listed blank es) in
    elim (Option-cases (receiver_info blank e)) [
      | inl n ↦ rw n rest
      | inr (info, n) ↦ rw n (inl (receiver_info-IsFrom blank info e n), rest)
    ]
