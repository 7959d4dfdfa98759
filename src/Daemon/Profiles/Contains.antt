-- ===== src/Daemon/Profiles/Contains.antt =====
-- `ascii_icontains` (daemon/daemon.cpp) finds exactly the substrings, up to the case of letters.
use mathlib.Core.Path.{subst}
use abrek_mouse.Daemon.Profiles.{matches_at, scan, ascii_icontains}
use abrek_mouse.Prelude.{
  ℕ, zero, suc, ◌+◌, ◌-◌, ◌<◌, ◌≡◌, refl, sym, ap, ◌↔◌, inl, inr, Bool, true, false, [], ◌∷◌, ◌++◌,
  map, arith, ltb, ◌==◌, if◌then◌else◌, ltb→lt, ==_iff, Bool-cases, length, length-append, Text,
  to_lower,
}

-- The text is a prefix, the needle in any case, and a rest.
abbrev pub Contains : Text → Text → Type 0
Contains h n =
    (pre : Text) × (mid : Text) × (post : Text) × (h ≡ pre ++ mid ++ post)
    × (map to_lower mid ≡ map to_lower n)

matches_at_sound :
    (h n : Text)
    → matches_at h n ≡ true
    → (mid : Text) × (post : Text) × (h ≡ mid ++ post) × (map to_lower mid ≡ map to_lower n)
unfolding matches_at
matches_at_sound h [] e = ([], h, refl, refl)
matches_at_sound [] (y ∷ n) e = cc
matches_at_sound (x ∷ h) (y ∷ n) e = elim (Bool-cases (to_lower x == to_lower y)) [
  | inl q ↦
      let (mid, post, p, c) = matches_at_sound h n (rw q at e) in
      (
        x ∷ mid,
        post,
        ap (◌∷◌ x) p,
        let head : to_lower x ≡ to_lower y = (==_iff (to_lower x) (to_lower y)).0 q in cc,
      )
  | inr q ↦ absurd (let wrong : false ≡ true = rw q at e in cc)
]

matches_at_complete :
    (mid n post : Text) → map to_lower mid ≡ map to_lower n → matches_at (mid ++ post) n ≡ true
unfolding matches_at
matches_at_complete mid [] post c = refl
matches_at_complete [] (y ∷ n) post c = cc
matches_at_complete (x ∷ mid) (y ∷ n) post c =
    let head : to_lower x ≡ to_lower y = cc in
    let tail : map to_lower mid ≡ map to_lower n = cc in
    rw ((==_iff (to_lower x) (to_lower y)).1 head) (matches_at_complete mid n post tail)

scan_sound : (k : ℕ) (h n : Text) → scan k h n ≡ true → Contains h n
unfolding scan
scan_sound zero h n e = cc
scan_sound (suc k) [] n e = elim (Bool-cases (matches_at [] n)) [
  | inl q ↦ let (mid, post, p, c) = matches_at_sound [] n q in ([], mid, post, p, c)
  | inr q ↦ scan_sound k [] n (rw q at e)
]
scan_sound (suc k) (x ∷ h) n e = elim (Bool-cases (matches_at (x ∷ h) n)) [
  | inl q ↦ let (mid, post, p, c) = matches_at_sound (x ∷ h) n q in ([], mid, post, p, c)
  | inr q ↦
      let (pre, mid, post, p, c) = scan_sound k h n (rw q at e) in
      (x ∷ pre, mid, post, ap (◌∷◌ x) p, c)
]

if_true : (b : Bool) → (if b then true else true) ≡ true
if_true true = refl
if_true false = refl

scan_complete :
    (k : ℕ) (pre mid post n : Text)
    → map to_lower mid ≡ map to_lower n
    → length pre < k
    → scan k (pre ++ mid ++ post) n ≡ true
unfolding scan
scan_complete zero pre mid post n c lt = absurd (omega arith)
scan_complete (suc k) [] mid post n c lt = rw (matches_at_complete mid n post c)
scan_complete (suc k) (x ∷ pre) mid post n c lt =
    rw (scan_complete k pre mid post n c (omega arith)) (if_true _)

length-map : (s : Text) → length (map to_lower s) ≡ length s
length-map [] = refl
length-map (c ∷ s) = ap suc (length-map s)

-- The parts have the lengths that the outer loop counts on.
parts_length :
    (pre mid post n : Text)
    → map to_lower mid ≡ map to_lower n
    → length (pre ++ mid ++ post) ≡ length pre + length n + length post
parts_length pre mid post n c = omega (
  arith,
  length-append (pre ++ mid) post,
  length-append pre mid,
  length-map mid,
  length-map n,
  ap length c,
)

found_at :
    (h pre mid post n : Text)
    → h ≡ pre ++ mid ++ post
    → map to_lower mid ≡ map to_lower n
    → scan (suc (length h - length n)) h n ≡ true
found_at h pre mid post n p c =
    subst (λ t. scan (suc (length t - length n)) t n ≡ true) (sym p)
      (scan_complete (suc (length (pre ++ mid ++ post) - length n)) pre mid post n c
        (omega (arith, parts_length pre mid post n c)))

-- A needle is found exactly if some part of the text equals it up to the case of ASCII letters; the
-- empty needle is found in every text.
pub ascii_icontains-Contains : (h n : Text) → (ascii_icontains h n ≡ true) ↔ Contains h n
unfolding ascii_icontains
ascii_icontains-Contains h [] = (λ e. ([], [], h, refl, refl), λ c. refl)
ascii_icontains-Contains h (y ∷ n) = elim (Bool-cases (ltb (length h) (length (y ∷ n)))) [
  | inl q ↦ rw q (
    λ e. absurd (cc),
    λ (pre, mid, post, p, c). absurd (
        omega (
          arith,
          ltb→lt (length h) (suc (length n)) q,
          ap length p,
          parts_length pre mid post (y ∷ n) c,
        )),
  )
  | inr q ↦ rw q (
    λ e. scan_sound (suc (length h - length (y ∷ n))) h (y ∷ n) e,
    λ (pre, mid, post, p, c). found_at h pre mid post (y ∷ n) p c,
  )
]
