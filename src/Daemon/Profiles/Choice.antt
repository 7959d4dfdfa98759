-- ===== src/Daemon/Profiles/Choice.antt =====
-- `find_profile` (daemon/daemon.cpp) chooses the first profile of the best rank that the focused
-- application lets apply.
use mathlib.Core.Path.{subst}
use abrek_mouse.Config.Model.{DeviceProfile, AppConfig}
use abrek_mouse.Daemon.Profiles.{
  profile_matches_app, for_device, for_all_devices, is_active, find_profile, or_else,
}
use abrek_mouse.Prelude.{
  ℕ, suc, ◌≤◌, ◌≡◌, ap, ◌⊎◌, inl, inr, Bool, true, false, not, ◌&&◌, Option, none, some, List, [],
  ◌∷◌, ◌++◌, arith, if◌then◌else◌, Bool-cases, Option-cases, All, find_if, Text, text_eq, is_empty,
  All-zip, All-append,
}

module _ {ℓ} {A : Type ℓ} where
  -- What a search found, with the elements before it, which fail the test.
  find_if-some :
      (t : A → Bool) (xs : List A) {x : A}
      → find_if t xs ≡ some x
      → (before : List A) × (after : List A) × (xs ≡ before ++ x ∷ after)
        × (t x ≡ true)
        × All (λ y. t y ≡ false) before
  unfolding find_if
  find_if-some t [] e = cc
  find_if-some t (y ∷ xs) {x} e = elim (Bool-cases (t y)) [
    | inl q ↦
        let same : y ≡ x = let found : some y ≡ some x = rw (q, find_if) at e in cc in
        ([], xs, ap (λ z. z ∷ xs) same, rw (← same) q, tt)
    | inr q ↦
        let (before, after, p, holds, rest) = find_if-some t xs (rw (q, find_if) at e) in
        (y ∷ before, after, ap (◌∷◌ y) p, holds, (q, rest))
  ]

  find_if-none : (t : A → Bool) (xs : List A) → find_if t xs ≡ none → All (λ y. t y ≡ false) xs
  unfolding find_if
  find_if-none t [] e = tt
  find_if-none t (y ∷ xs) e = elim (Bool-cases (t y)) [
    | inl q ↦ absurd (let wrong : some y ≡ none = rw (q, find_if) at e in cc)
    | inr q ↦ (q, find_if-none t xs (rw (q, find_if) at e))
  ]

-- How well a profile fits: bound to the device, to all devices, the active one, any other.
abbrev pub rank_of : Bool → Bool → Bool → ℕ
rank_of here everywhere active =
    if here then 0 else if everywhere then 1 else if active then 2 else 3

module _ (e t n g : Bool) where
  level_0 : ((not e && t) && g) ≡ true → (g ≡ true) × (rank_of (not e && t) e n ≤ 0)
  level_0 h = ground arith

  level_1 : (e && g) ≡ true → (g ≡ true) × (rank_of (not e && t) e n ≤ 1)
  level_1 h = ground arith

  level_2 : (n && g) ≡ true → (g ≡ true) × (rank_of (not e && t) e n ≤ 2)
  level_2 h = ground arith

  level_3 : rank_of (not e && t) e n ≤ 3
  level_3 = ground arith

  past_0 : ((not e && t) && g) ≡ false → (g ≡ false) ⊎ (1 ≤ rank_of (not e && t) e n)
  past_0 h = ground arith

  past_1 :
      (g ≡ false) ⊎ (1 ≤ rank_of (not e && t) e n)
      → (e && g) ≡ false
      → (g ≡ false) ⊎ (2 ≤ rank_of (not e && t) e n)
  past_1 b h = ground arith

  past_2 :
      (g ≡ false) ⊎ (2 ≤ rank_of (not e && t) e n)
      → (n && g) ≡ false
      → (g ≡ false) ⊎ (3 ≤ rank_of (not e && t) e n)
  past_2 b h = ground arith

module _ {P : Type 0} (config : AppConfig P) (app dev : Text) where
  abbrev pub rank : DeviceProfile P → ℕ
  rank p =
      rank_of (not (is_empty p.device_id) && text_eq p.device_id dev) (is_empty p.device_id)
        (text_eq p.name config.active_profile)

  -- The application forbids the profile, or its rank is `k` at least.
  abbrev pub Behind : ℕ → DeviceProfile P → Type 0
  Behind k q = (profile_matches_app q app ≡ false) ⊎ (k ≤ rank q)

  -- The first profile of the best rank among those that the application lets apply; none if there
  -- is no such profile.
  abbrev pub IsChoice : Option (DeviceProfile P) → Type 0
  IsChoice none = All (λ q. profile_matches_app q app ≡ false) config.profiles
  IsChoice (some p) =
      (before : List (DeviceProfile P)) × (after : List (DeviceProfile P)) × (config.profiles
        ≡ before ++ p ∷ after)
      × (profile_matches_app p app ≡ true)
      × All (Behind (suc (rank p))) before
      × All (Behind (rank p)) after

  -- A profile found at a level where all profiles are behind, the earlier ones behind the next.
  IsChoice-level :
      (k : ℕ) (t : DeviceProfile P → Bool)
      → ((q : DeviceProfile P) → t q ≡ true → (profile_matches_app q app ≡ true) × (rank q ≤ k))
      → ((q : DeviceProfile P) → Behind k q → t q ≡ false → Behind (suc k) q)
      → All (Behind k) config.profiles
      → (p : DeviceProfile P) → find_if t config.profiles ≡ some p
      → IsChoice (some p)
  IsChoice-level k t good past behind p found =
      let (before, after, split, holds, failed) = find_if-some t config.profiles found in
      let (gate, le) = good p holds in
      let (b, (h, a)) =
        All-append (Behind k) before (p ∷ after) (subst (All (Behind k)) split behind) in
      let eq : k ≡ rank p = elim h [ inl no_gate ↦ absurd (cc) | inr ge ↦ omega arith ] in
      (
        before,
        after,
        split,
        gate,
        subst (λ r. All (Behind (suc r)) before) eq
            (All-zip (Behind k) (λ q. t q ≡ false) (Behind (suc k)) past before b failed),
        subst (λ r. All (Behind r) after) eq a,
      )

  at_0 :
      (q : DeviceProfile P)
      → for_device dev app q ≡ true
      → (profile_matches_app q app ≡ true) × (rank q ≤ 0)
  unfolding for_device
  at_0 q h =
      level_0 (is_empty q.device_id) (text_eq q.device_id dev)
        (text_eq q.name config.active_profile) (profile_matches_app q app) h

  at_1 :
      (q : DeviceProfile P)
      → for_all_devices app q ≡ true
      → (profile_matches_app q app ≡ true) × (rank q ≤ 1)
  unfolding for_all_devices
  at_1 q h =
      level_1 (is_empty q.device_id) (text_eq q.device_id dev)
        (text_eq q.name config.active_profile) (profile_matches_app q app) h

  at_2 :
      (q : DeviceProfile P)
      → is_active config.active_profile app q ≡ true
      → (profile_matches_app q app ≡ true) × (rank q ≤ 2)
  unfolding is_active
  at_2 q h =
      level_2 (is_empty q.device_id) (text_eq q.device_id dev)
        (text_eq q.name config.active_profile) (profile_matches_app q app) h

  after_0 : (q : DeviceProfile P) → Behind 0 q → for_device dev app q ≡ false → Behind 1 q
  unfolding for_device
  after_0 q b h =
      past_0 (is_empty q.device_id) (text_eq q.device_id dev) (text_eq q.name config.active_profile)
        (profile_matches_app q app) h

  after_1 : (q : DeviceProfile P) → Behind 1 q → for_all_devices app q ≡ false → Behind 2 q
  unfolding for_all_devices
  after_1 q b h =
      past_1 (is_empty q.device_id) (text_eq q.device_id dev) (text_eq q.name config.active_profile)
        (profile_matches_app q app) b h

  after_2 :
      (q : DeviceProfile P)
      → Behind 2 q
      → is_active config.active_profile app q ≡ false
      → Behind 3 q
  unfolding is_active
  after_2 q b h =
      past_2 (is_empty q.device_id) (text_eq q.device_id dev) (text_eq q.name config.active_profile)
        (profile_matches_app q app) b h

  -- A search that fails puts all profiles behind the next level.
  next_level :
      (k : ℕ) (t : DeviceProfile P → Bool)
      → ((q : DeviceProfile P) → Behind k q → t q ≡ false → Behind (suc k) q)
      → All (Behind k) config.profiles
      → find_if t config.profiles ≡ none
      → All (Behind (suc k)) config.profiles
  next_level k t past behind e =
      All-zip (Behind k) (λ q. t q ≡ false) (Behind (suc k)) past config.profiles behind
        (find_if-none t config.profiles e)

  start_level : (xs : List (DeviceProfile P)) → All (Behind 0) xs
  start_level [] = tt
  start_level (q ∷ xs) = (inr (omega arith), start_level xs)

  last_level :
      All (Behind 3) config.profiles
      → IsChoice (find_if (λ p. profile_matches_app p app) config.profiles)
  last_level behind =
      elim (Option-cases (find_if (λ p. profile_matches_app p app) config.profiles)) [
        | inl e ↦ rw e (find_if-none (λ p. profile_matches_app p app) config.profiles e)
        | inr (p, e) ↦ rw e (
            IsChoice-level 3 (λ q. profile_matches_app q app)
              (λ q h. (
                h,
                level_3 (is_empty q.device_id) (text_eq q.device_id dev)
                    (text_eq q.name config.active_profile) (profile_matches_app q app),
              ))
              (λ q b h. inl h) behind p e)
      ]

  -- A loop that may return, over the loops behind it.
  choose :
      (k : ℕ) (t : DeviceProfile P → Bool) (o : Option (DeviceProfile P))
      → ((q : DeviceProfile P) → t q ≡ true → (profile_matches_app q app ≡ true) × (rank q ≤ k))
      → ((q : DeviceProfile P) → Behind k q → t q ≡ false → Behind (suc k) q)
      → All (Behind k) config.profiles
      → (All (Behind (suc k)) config.profiles → IsChoice o)
      → IsChoice (or_else (find_if t config.profiles) o)
  choose k t o good past behind rest = elim (Option-cases (find_if t config.profiles)) [
    | inl e ↦ rw e (rest (next_level k t past behind e))
    | inr (p, e) ↦ rw e (IsChoice-level k t good past behind p e)
  ]

  -- The choice is the first profile of the best rank among those that the focused application lets
  -- apply: bound to the device, then bound to all devices, then active, then any other. No profile
  -- is chosen exactly if the application lets none apply.
  pub find_profile-IsChoice : IsChoice (find_profile config app dev)
  unfolding find_profile
  find_profile-IsChoice =
      choose 0 (for_device dev app)
        (or_else (find_if (for_all_devices app) config.profiles) (
          or_else (find_if (is_active config.active_profile app) config.profiles)
            (find_if (λ p. profile_matches_app p app) config.profiles)))
        at_0 after_0 (start_level config.profiles)
        (λ b.
          choose 1 (for_all_devices app)
            (or_else (find_if (is_active config.active_profile app) config.profiles)
              (find_if (λ p. profile_matches_app p app) config.profiles))
            at_1 after_1 b
            (λ c.
              choose 2 (is_active config.active_profile app)
                (find_if (λ p. profile_matches_app p app) config.profiles) at_2 after_2 c
                last_level))
