-- ===== src/Config/Version/Padding.antt =====
-- Versions with a missing last component (src/config.cpp, `version_lt`).
use mathlib.Core.Option
use abrek_mouse.Config.Version.{
  split_dots, split_first, component, components, parse, version_lt, all_digits, decimal,
}
use abrek_mouse.Config.Version.Order.{
  Agree, Older, version_lt-Older, version_lt-none, version_lt-unreadable,
}
use abrek_mouse.Prelude.{
  ℕ, zero, suc, ◌≡◌, refl, sym, ap, ◌∙◌, ◌≢◌, ◌↔◌, inl, inr, Bool, true, false, Option, none, some,
  List, [], ◌∷◌, ◌++◌, arith, ◌==◌, Bool-cases, Option-cases, get_or, Text, codes, is_digit,
}

-- A text with a dot in it splits into the pieces of the two sides.
split_first-append :
    (c : ℕ) (ts us : List Text) → ts ≢ [] → split_first c (ts ++ us) ≡ split_first c ts ++ us
unfolding split_first
split_first-append c [] us h = absurd (h refl)
split_first-append c (t ∷ ts) us h = refl

split_dots-ne-nil : (s : Text) → split_dots s ≢ []
unfolding split_dots split_first
split_dots-ne-nil [] e = cc
split_dots-ne-nil (c ∷ s) e = elim (Bool-cases (c == b'.')) [
  | inl q ↦ let wrong : [] ∷ split_dots s ≡ [] = rw q at e in absurd (cc)
  | inr q ↦
      elim (split_dots s) as (λ ts. ¬ split_first c ts ≡ []) [ [] ↦ λ w. cc | t ∷ ts ↦ λ w. cc ]
        (rw q at e)
]

split_dots-append : (s t : Text) → split_dots (s ++ b'.' ∷ t) ≡ split_dots s ++ split_dots t
unfolding split_dots
split_dots-append [] t = refl
split_dots-append (c ∷ s) t = elim (Bool-cases (c == b'.')) [
  | inl q ↦ rw q (ap (◌∷◌ []) (split_dots-append s t))
  | inr q ↦ rw q (
      ap (split_first c) (split_dots-append s t)
      ∙ split_first-append c (split_dots s) (split_dots t) (split_dots-ne-nil s))
]

-- A readable list of pieces with a readable piece behind it reads to the numbers with one behind.
components-append :
    (ts : List Text) (t : Text) {n : ℕ}
    → component t ≡ some n
    → components (ts ++ t ∷ []) ≡ Option.map (λ ns. ns ++ n ∷ []) (components ts)
unfolding components
components-append [] t e = rw (e, components)
components-append (u ∷ ts) t {n} e = elim (Option-cases (component u)) [
  | inl p ↦ rw (p, components)
  | inr (m, p) ↦ rw (p, components) (rw (components-append ts t e) (spread m (components ts)))
]
  where
    spread :
        (m : ℕ) (o : Option (List ℕ))
        → (elim (Option.map (λ ns. ns ++ n ∷ []) o) [ none ↦ none | some ns ↦ some (m ∷ ns) ])
          ≡ Option.map (λ ns. ns ++ n ∷ []) (elim o [ none ↦ none | some ns ↦ some (m ∷ ns) ])
    spread m none = refl
    spread m (some ns) = refl

parse-append_zero : (s : Text) → parse (s ++ codes ".0") ≡ Option.map (λ ns. ns ++ 0 ∷ []) (parse s)
unfolding parse component all_digits decimal is_digit split_dots split_first
parse-append_zero s =
    rw (split_dots-append s (codes "0")) (components-append (split_dots s) (codes "0") refl)

get_or-append_zero : (a : List ℕ) (i : ℕ) → get_or (a ++ 0 ∷ []) i 0 ≡ get_or a i 0
get_or-append_zero [] zero = refl
get_or-append_zero [] (suc i) = refl
get_or-append_zero (x ∷ a) zero = refl
get_or-append_zero (x ∷ a) (suc i) = get_or-append_zero a i

Agree-get_or_eq :
    (n : ℕ) (a b c d : List ℕ)
    → ((i : ℕ) → get_or a i 0 ≡ get_or c i 0)
    → ((i : ℕ) → get_or b i 0 ≡ get_or d i 0)
    → Agree n a b
    → Agree n c d
Agree-get_or_eq zero a b c d p q h = tt
Agree-get_or_eq (suc n) a b c d p q (h, e) = (Agree-get_or_eq n a b c d p q h, sym (p n) ∙ e ∙ q n)

-- The order reads the lists only through their padded components.
Older-get_or :
    (a b c d : List ℕ)
    → ((i : ℕ) → get_or a i 0 ≡ get_or c i 0)
    → ((i : ℕ) → get_or b i 0 ≡ get_or d i 0)
    → Older a b
    → Older c d
Older-get_or a b c d p q (i, h, lt) = (i, Agree-get_or_eq i a b c d p q h, omega (arith, p i, q i))

eq_of_iff : (x y : Bool) → (x ≡ true) ↔ (y ≡ true) → x ≡ y
eq_of_iff true y h = sym (h.0 refl)
eq_of_iff false true h = h.1 refl
eq_of_iff false false h = refl

-- Texts that read to lists with the same padded components, or not at all, compare alike.
module _ (a c : List ℕ) (same : (i : ℕ) → get_or a i 0 ≡ get_or c i 0) (l m r : Text)
    (p : parse l ≡ some a) (q : parse m ≡ some c) where
  version_lt_left : version_lt l r ≡ version_lt m r
  version_lt_left = elim (Option-cases (parse r)) [
    | inl e ↦ version_lt-none l r p e ∙ sym (version_lt-none m r q e)
    | inr (b, e) ↦ eq_of_iff (version_lt l r) (version_lt m r) (
      λ h.
          (version_lt-Older m r q e).1
            (Older-get_or a b c b same (λ i. refl) ((version_lt-Older l r p e).0 h)),
      λ h.
          (version_lt-Older l r p e).1
            (Older-get_or c b a b (λ i. sym (same i)) (λ i. refl) ((version_lt-Older m r q e).0 h)),
    )
  ]

  version_lt_right : version_lt r l ≡ version_lt r m
  version_lt_right = elim (Option-cases (parse r)) [
    | inl e ↦ version_lt-unreadable r l e ∙ sym (version_lt-unreadable r m e)
    | inr (b, e) ↦ eq_of_iff (version_lt r l) (version_lt r m) (
      λ h.
          (version_lt-Older r m e q).1
            (Older-get_or b a b c (λ i. refl) same ((version_lt-Older r l e p).0 h)),
      λ h.
          (version_lt-Older r l e p).1
            (Older-get_or b c b a (λ i. refl) (λ i. sym (same i)) ((version_lt-Older r m e q).0 h)),
    )
  ]

version_lt_unreadable_right :
    (r l m : Text) → parse l ≡ none → parse m ≡ none → version_lt r l ≡ version_lt r m
version_lt_unreadable_right r l m p q = elim (Option-cases (parse r)) [
  | inl e ↦ version_lt-unreadable r l e ∙ sym (version_lt-unreadable r m e)
  | inr (b, e) ↦ version_lt-none r l e p ∙ sym (version_lt-none r m e q)
]

-- A missing component counts as 0: whatever the texts, `.0` written behind a version changes neither
-- what it is older than nor what is older than it.
pub version_lt-append_zero :
    (s r : Text)
    → (version_lt (s ++ codes ".0") r ≡ version_lt s r)
      × (version_lt r (s ++ codes ".0") ≡ version_lt r s)
version_lt-append_zero s r = elim (Option-cases (parse s)) [
  | inl e ↦
      let e' : parse (s ++ codes ".0") ≡ none =
        parse-append_zero s ∙ ap (Option.map (λ ns. ns ++ 0 ∷ [])) e in
      (
        version_lt-unreadable (s ++ codes ".0") r e' ∙ sym (version_lt-unreadable s r e),
        version_lt_unreadable_right r (s ++ codes ".0") s e' e,
      )
  | inr (a, e) ↦
      let e' : parse (s ++ codes ".0") ≡ some (a ++ 0 ∷ []) =
        parse-append_zero s ∙ ap (Option.map (λ ns. ns ++ 0 ∷ [])) e in
      (
        version_lt_left (a ++ 0 ∷ []) a (get_or-append_zero a) (s ++ codes ".0") s r e' e,
        version_lt_right (a ++ 0 ∷ []) a (get_or-append_zero a) (s ++ codes ".0") s r e' e,
      )
]
