-- ===== src/Config/Version/Order.antt =====
-- `version_lt` (src/config.cpp) is the strict order of the component lists, padded with zeros.
use abrek_mouse.Config.Version.{parse, compare_from, version_lt}
use abrek_mouse.Prelude.{
  ℕ, zero, suc, ◌+◌, ◌≤◌, ◌<◌, max, ◌≡◌, ◌∙◌, ◌↔◌, inl, inr, true, false, none, some, List, [], ◌∷◌,
  arith, ◌==◌, ltb→lt, ==_iff, Bool-cases, Option-cases, length, get_or, dec_lt, Text,
}

-- The lists agree on the first `n` components, missing ones counted as 0.
abbrev pub Agree : ℕ → List ℕ → List ℕ → Type 0
Agree zero a b = Unit
Agree (suc n) a b = Agree n a b × (get_or a n 0 ≡ get_or b n 0)

-- The first component at which the lists differ is smaller on the left.
abbrev pub Older : List ℕ → List ℕ → Type 0
Older a b = (i : ℕ) × Agree i a b × (get_or a i 0 < get_or b i 0)

Agree-get_or : (n i : ℕ) (a b : List ℕ) → Agree n a b → i < n → get_or a i 0 ≡ get_or b i 0
Agree-get_or zero i a b h lt = absurd (omega arith)
Agree-get_or (suc n) i a b (h, e) lt = elim (dec_lt i n) [
  | yes p ↦ Agree-get_or n i a b h p
  | no p ↦ let same : i ≡ n = omega arith in rw same e
]

Agree-le : (n i : ℕ) (a b : List ℕ) → Agree n a b → i ≤ n → Agree i a b
Agree-le n zero a b h le = tt
Agree-le n (suc i) a b h le =
    (Agree-le n i a b h (omega arith), Agree-get_or n i a b h (omega arith))

Agree-trans : (n : ℕ) (a b c : List ℕ) → Agree n a b → Agree n b c → Agree n a c
Agree-trans zero a b c h k = tt
Agree-trans (suc n) a b c (h, e) (k, f) = (Agree-trans n a b c h k, e ∙ f)

get_or-lt-length : (b : List ℕ) (i : ℕ) → 0 < get_or b i 0 → i < length b
get_or-lt-length [] i h = absurd (omega arith)
get_or-lt-length (x ∷ b) zero h = omega arith
get_or-lt-length (x ∷ b) (suc i) h = omega (arith, get_or-lt-length b i h)

compare_from-Older :
    (n i : ℕ) (a b : List ℕ) → Agree i a b → compare_from n i a b ≡ true → Older a b
unfolding compare_from
compare_from-Older zero i a b h e = cc
compare_from-Older (suc n) i a b h e = elim (Bool-cases (get_or a i 0 == get_or b i 0)) [
  | inl q ↦
      compare_from-Older n (suc i) a b (h, (==_iff (get_or a i 0) (get_or b i 0)).0 q) (rw q at e)
  | inr q ↦ (i, h, ltb→lt (get_or a i 0) (get_or b i 0) (rw q at e))
]

Older-compare_from :
    (n i k : ℕ) (a b : List ℕ)
    → Agree k a b
    → get_or a k 0 < get_or b k 0
    → i ≤ k
    → k < i + n
    → compare_from n i a b ≡ true
unfolding compare_from
Older-compare_from zero i k a b h lt le end = absurd (omega arith)
Older-compare_from (suc n) i k a b h lt le end = elim (dec_lt i k) [
  | yes p ↦
      rw ((==_iff (get_or a i 0) (get_or b i 0)).1 (Agree-get_or k i a b h p))
        (Older-compare_from n (suc i) k a b h lt (omega arith) (omega arith))
  | no p ↦ let same : i ≡ k = omega arith in rw same (ground arith)
]

-- When both versions can be read, the left one is older exactly if, at the first component where
-- the two differ, it has the smaller number, a missing component being 0.
pub version_lt-Older :
    (l r : Text) {a b : List ℕ}
    → parse l ≡ some a
    → parse r ≡ some b
    → (version_lt l r ≡ true) ↔ Older a b
unfolding version_lt
version_lt-Older l r {a} {b} p q =
    rw (p, version_lt)
      (rw (q, version_lt)
        (
          λ e. compare_from-Older (max (length a) (length b)) 0 a b tt e,
          λ o.
              Older-compare_from (max (length a) (length b)) 0 o.0 a b o.1 o.2 (omega arith)
                (omega (arith, get_or-lt-length b o.0 (omega (arith, o.2)))),
        ))

pub Older-trans : (a b c : List ℕ) → Older a b → Older b c → Older a c
Older-trans a b c (i, h, lt) (j, k, lt') = elim (dec_lt i j) [
  | yes p ↦ (
    i,
    Agree-trans i a b c h (Agree-le j i b c k (omega arith)),
    omega (arith, Agree-get_or j i b c k p),
  )
  | no p ↦
      let le : get_or a j 0 ≤ get_or b j 0 = elim (dec_lt j i) [
        | yes q ↦ omega (arith, Agree-get_or i j a b h q)
        | no q ↦ let same : i ≡ j = omega arith in rw (← same) (omega arith)
      ] in
      (j, Agree-trans j a b c (Agree-le i j a b h (omega arith)) k, omega arith)
]

Older-irrefl : (a : List ℕ) → ¬ Older a a
Older-irrefl a (i, h, lt) = absurd (omega arith)

pub version_lt-unreadable : (l r : Text) → parse l ≡ none → version_lt l r ≡ true
unfolding version_lt
version_lt-unreadable l r p = rw (p, version_lt)

pub version_lt-none :
    (l r : Text) {a : List ℕ} → parse l ≡ some a → parse r ≡ none → version_lt l r ≡ false
unfolding version_lt
version_lt-none l r p q = rw (p, version_lt) (rw (q, version_lt))

version_lt-readable :
    (l r : Text) {a : List ℕ}
    → parse l ≡ some a
    → version_lt l r ≡ true
    → (b : List ℕ) × (parse r ≡ some b)
version_lt-readable l r p e = elim (Option-cases (parse r)) [
  | inl q ↦ absurd (cc (version_lt-none l r p q))
  | inr found ↦ found
]

-- The order is transitive on all texts, unreadable ones included.
pub version_lt_trans :
    (l m r : Text) → version_lt l m ≡ true → version_lt m r ≡ true → version_lt l r ≡ true
version_lt_trans l m r h k = elim (Option-cases (parse l)) [
  | inl p ↦ version_lt-unreadable l r p
  | inr (a, p) ↦
      let (b, q) = version_lt-readable l m p h in
      let (c, s) = version_lt-readable m r q k in
      (version_lt-Older l r p s).1
        (Older-trans a b c ((version_lt-Older l m p q).0 h) ((version_lt-Older m r q s).0 k))
]

-- A readable version is not older than itself.
pub version_lt_irrefl : (l : Text) {a : List ℕ} → parse l ≡ some a → version_lt l l ≡ false
version_lt_irrefl l {a} p = elim (Bool-cases (version_lt l l)) [
  | inl e ↦ absurd (Older-irrefl a ((version_lt-Older l l p p).0 e))
  | inr e ↦ e
]
