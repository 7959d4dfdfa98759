-- ===== src/Cli/Profiles/Names.antt =====
-- The names in a list of profiles, through the changes of cli/main.cpp.
use mathlib.Core.Path.{subst}
use abrek_mouse.Config.Model.{DeviceProfile}
use abrek_mouse.Cli.Profiles.{has_name, remove_named, rename_first}
use abrek_mouse.Prelude.{
  suc, ◌≤◌, ◌≡◌, refl, sym, ap, inl, inr, true, false, List, [], ◌∷◌, ◌++◌, arith, Bool-cases,
  length, All, Text, text_eq, text_eq_sound, text_eq_refl,
}

text_eq-false : (s t : Text) → text_eq s t ≡ false → text_eq t s ≡ false
text_eq-false s t h = elim (Bool-cases (text_eq t s)) [
  | inl e ↦ absurd (
      let same : text_eq s t ≡ text_eq t t = ap (λ u. text_eq u t) (sym (text_eq_sound t s e)) in
      cc (text_eq_refl t))
  | inr e ↦ e
]

text_eq-trans_false :
    (a b c : Text) → text_eq a b ≡ true → text_eq a c ≡ false → text_eq b c ≡ false
text_eq-trans_false a b c h k = subst (λ x. text_eq x c ≡ false) (text_eq_sound a b h) k

module _ {P : Type 0} where
  -- No two profiles share a name.
  abbrev pub Distinct : List (DeviceProfile P) → Type 0
  Distinct [] = Unit
  Distinct (p ∷ ps) = (has_name p.name ps ≡ false) × Distinct ps

  has_name-cons_false :
      (n : Text) (p : DeviceProfile P) (ps : List (DeviceProfile P))
      → has_name n (p ∷ ps) ≡ false
      → (text_eq p.name n ≡ false) × (has_name n ps ≡ false)
  unfolding has_name
  has_name-cons_false n p ps h = ground arith

  has_name-append_false :
      (n : Text) (ps : List (DeviceProfile P)) (q : DeviceProfile P)
      → has_name n ps ≡ false
      → text_eq q.name n ≡ false
      → has_name n (ps ++ q ∷ []) ≡ false
  unfolding has_name
  has_name-append_false n [] q h k = ground arith
  has_name-append_false n (p ∷ ps) q h k =
      let (e, h') = has_name-cons_false n p ps h in rw e (has_name-append_false n ps q h' k)

  pub has_name-append_true :
      (n : Text) (ps qs : List (DeviceProfile P))
      → has_name n ps ≡ true
      → has_name n (ps ++ qs) ≡ true
  unfolding has_name
  has_name-append_true n [] qs h = cc
  has_name-append_true n (p ∷ ps) qs h = elim (Bool-cases (text_eq p.name n)) [
    | inl e ↦ rw e refl
    | inr e ↦ rw e (has_name-append_true n ps qs (rw e at h))
  ]

  pub append-Distinct :
      (ps : List (DeviceProfile P)) (q : DeviceProfile P)
      → Distinct ps
      → has_name q.name ps ≡ false
      → Distinct (ps ++ q ∷ [])
  unfolding has_name
  append-Distinct [] q h k = (refl, tt)
  append-Distinct (p ∷ ps) q (n, h) k =
      let (e, k') = has_name-cons_false q.name p ps k in
      (
        has_name-append_false p.name ps q n (text_eq-false p.name q.name e),
        append-Distinct ps q h k',
      )

  -- Removing the profiles of a name.
  has_name-remove_named-false :
      (m n : Text) (ps : List (DeviceProfile P))
      → has_name m ps ≡ false
      → has_name m (remove_named n ps) ≡ false
  unfolding has_name remove_named
  has_name-remove_named-false m n [] h = refl
  has_name-remove_named-false m n (p ∷ ps) h =
      let (e, h') = has_name-cons_false m p ps h in
      let rest = has_name-remove_named-false m n ps h' in
      elim (Bool-cases (text_eq p.name n)) [ inl b ↦ rw b rest | inr b ↦ rw b (rw e rest) ]

  pub has_name-remove_named :
      (m n : Text) (ps : List (DeviceProfile P))
      → text_eq m n ≡ false
      → has_name m ps ≡ true
      → has_name m (remove_named n ps) ≡ true
  unfolding has_name remove_named
  has_name-remove_named m n [] d h = cc
  has_name-remove_named m n (p ∷ ps) d h = elim (Bool-cases (text_eq p.name m)) [
    | inl e ↦
        let kept : text_eq p.name n ≡ false =
          subst (λ x. text_eq x n ≡ false) (sym (text_eq_sound p.name m e)) d in
        rw kept (rw e refl)
    | inr e ↦
        let rest = has_name-remove_named m n ps d (rw e at h) in
        elim (Bool-cases (text_eq p.name n)) [ inl b ↦ rw b rest | inr b ↦ rw b (rw e rest) ]
  ]

  pub remove_named-Distinct :
      (n : Text) (ps : List (DeviceProfile P)) → Distinct ps → Distinct (remove_named n ps)
  unfolding remove_named
  remove_named-Distinct n [] h = tt
  remove_named-Distinct n (p ∷ ps) (k, h) =
      let rest = remove_named-Distinct n ps h in
      elim (Bool-cases (text_eq p.name n)) [
        | inl b ↦ rw b rest
        | inr b ↦ rw b (has_name-remove_named-false p.name n ps k, rest)
      ]

  pub remove_named-All :
      (Q : DeviceProfile P → Type 0) (n : Text) (ps : List (DeviceProfile P))
      → All Q ps
      → All Q (remove_named n ps)
  unfolding remove_named
  remove_named-All Q n [] h = tt
  remove_named-All Q n (p ∷ ps) (q, h) =
      let rest = remove_named-All Q n ps h in
      elim (Bool-cases (text_eq p.name n)) [ inl b ↦ rw b rest | inr b ↦ rw b (q, rest) ]

  pub length-remove_named :
      (n : Text) (ps : List (DeviceProfile P)) → length (remove_named n ps) ≤ length ps
  unfolding remove_named
  length-remove_named n [] = omega arith
  length-remove_named n (p ∷ ps) =
      let rest = length-remove_named n ps in
      elim (Bool-cases (text_eq p.name n)) [
        | inl b ↦ rw b (omega arith)
        | inr b ↦ rw b (omega arith)
      ]

  -- Renaming the first profile of a name.
  has_name-rename_first-false :
      (m old new : Text) (ps : List (DeviceProfile P))
      → text_eq new m ≡ false
      → has_name m ps ≡ false
      → has_name m (rename_first old new ps) ≡ false
  unfolding has_name rename_first
  has_name-rename_first-false m old new [] d h = refl
  has_name-rename_first-false m old new (p ∷ ps) d h =
      let (e, h') = has_name-cons_false m p ps h in
      let rest = has_name-rename_first-false m old new ps d h' in
      elim (Bool-cases (text_eq p.name old)) [ inl b ↦ rw b (rw d h') | inr b ↦ rw b (rw e rest) ]

  pub has_name-rename_first :
      (m old new : Text) (ps : List (DeviceProfile P))
      → text_eq m old ≡ false
      → has_name m ps ≡ true
      → has_name m (rename_first old new ps) ≡ true
  unfolding has_name rename_first
  has_name-rename_first m old new [] d h = cc
  has_name-rename_first m old new (p ∷ ps) d h = elim (Bool-cases (text_eq p.name m)) [
    | inl e ↦
        let kept : text_eq p.name old ≡ false =
          subst (λ x. text_eq x old ≡ false) (sym (text_eq_sound p.name m e)) d in
        rw kept (rw e refl)
    | inr e ↦
        let h' = rw e at h in
        elim (Bool-cases (text_eq p.name old)) [
          | inl b ↦ rw b (elim (Bool-cases (text_eq new m)) [ inl c ↦ rw c refl | inr c ↦ rw c h' ])
          | inr b ↦ rw b (rw e (has_name-rename_first m old new ps d h'))
        ]
  ]

  pub has_name-rename_first_new :
      (old new : Text) (ps : List (DeviceProfile P))
      → has_name old ps ≡ true
      → has_name new (rename_first old new ps) ≡ true
  unfolding has_name rename_first
  has_name-rename_first_new old new [] h = cc
  has_name-rename_first_new old new (p ∷ ps) h = elim (Bool-cases (text_eq p.name old)) [
    | inl b ↦ rw b (rw (text_eq_refl new) refl)
    | inr b ↦
        let rest = has_name-rename_first_new old new ps (rw b at h) in
        rw b (elim (Bool-cases (text_eq p.name new)) [ inl c ↦ rw c refl | inr c ↦ rw c rest ])
  ]

  pub rename_first-Distinct :
      (old new : Text) (ps : List (DeviceProfile P))
      → has_name new ps ≡ false
      → Distinct ps
      → Distinct (rename_first old new ps)
  unfolding rename_first
  rename_first-Distinct old new [] f h = tt
  rename_first-Distinct old new (p ∷ ps) f (k, h) =
      let (e, f') = has_name-cons_false new p ps f in
      elim (Bool-cases (text_eq p.name old)) [
        | inl b ↦ rw b (f', h)
        | inr b ↦ rw b (
          has_name-rename_first-false p.name old new ps (text_eq-false p.name new e) k,
          rename_first-Distinct old new ps f' h,
        )
      ]

  pub rename_first-All :
      (Q : Text → Type 0) (old new : Text) (ps : List (DeviceProfile P))
      → Q new
      → All (λ p. Q p.name) ps
      → All (λ p. Q p.name) (rename_first old new ps)
  unfolding rename_first
  rename_first-All Q old new [] n h = tt
  rename_first-All Q old new (p ∷ ps) n (q, h) = elim (Bool-cases (text_eq p.name old)) [
    | inl b ↦ rw b (n, h)
    | inr b ↦ rw b (q, rename_first-All Q old new ps n h)
  ]

  pub length-rename_first :
      (old new : Text) (ps : List (DeviceProfile P)) → length (rename_first old new ps) ≡ length ps
  unfolding rename_first
  length-rename_first old new [] = refl
  length-rename_first old new (p ∷ ps) = elim (Bool-cases (text_eq p.name old)) [
    | inl b ↦ rw b refl
    | inr b ↦ rw b (ap suc (length-rename_first old new ps))
  ]
