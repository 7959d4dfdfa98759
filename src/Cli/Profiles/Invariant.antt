-- ===== src/Cli/Profiles/Invariant.antt =====
-- Every profile command of cli/main.cpp keeps the configuration consistent, in memory and on disk.
use abrek_mouse.Config.Numbers.{Numbers}
use abrek_mouse.Config.Accel.{Profile, Limits}
use abrek_mouse.Config.Migrate.{save_config, sanitize_all, sanitize_device_profile}
use abrek_mouse.Config.Model.{max_name_len, max_profiles, DeviceProfile, AppConfig}
use abrek_mouse.Cli.Profiles.{
  Outcome, Session, has_name, find_name, remove_named, rename_first, save_and_apply, with_profiles,
  with_active, cmd_set, active_after, cmd_delete, is_new, new_profile, add_profile, cmd_create,
  copy_of, cmd_duplicate, cmd_rename, Command, set_active, create, delete, duplicate, rename,
  run_command,
}
use abrek_mouse.Cli.Profiles.Names.{
  Distinct, has_name-append_true, append-Distinct, has_name-remove_named, remove_named-Distinct,
  remove_named-All, length-remove_named, has_name-rename_first, has_name-rename_first_new,
  rename_first-Distinct, rename_first-All, length-rename_first,
}
use abrek_mouse.Prelude.{
  ℕ, ◌≤◌, ◌<◌, ◌≡◌, refl, ◌∙◌, ◌⊎◌, inl, inr, true, false, Option, none, some, List, [], ◌∷◌, ◌++◌,
  map, arith, leb, if◌then◌else◌, Bool-cases, length, length-append, All, Text, text_eq,
  text_eq_refl, append-All,
}

module _ (N : Numbers) (L : Limits N) where
  abbrev pub IsGoodName : Text → Type 0
  IsGoodName n = (0 < length n) × (length n ≤ max_name_len)

  -- The names are distinct, not empty and not too long, there are not too many profiles, and the
  -- active name is empty or the name of a profile.
  pub record IsValid (c : AppConfig (Profile N)) : Type 0 where
    pub distinct : Distinct c.profiles
    pub named : All (λ p. IsGoodName p.name) c.profiles
    pub bounded : length c.profiles ≤ max_profiles
    pub active : (c.active_profile ≡ []) ⊎ (has_name c.active_profile c.profiles ≡ true)

  abbrev pub IsValidSession : Session N L → Type 0
  IsValidSession s = IsValid s.cfg × IsValid s.disk

  -- The file holds what `save_config` makes of the configuration in memory: every profile clamped and
  -- the version stamped. Or it is as before and the exit code is 1.
  abbrev pub Saved : Session N L → Session N L × ℕ → Type 0
  Saved s r = (r.0.disk ≡ save_config N L r.0.cfg) ⊎ ((r.0.disk ≡ s.disk) × (r.1 ≡ 1))

  abbrev Keeps : Session N L → Session N L × ℕ → Type 0
  Keeps s r = IsValidSession r.0 × Saved s r

  refused : (s : Session N L) → IsValidSession s → Keeps s (s, 1)
  refused s v = (v, inr (refl, refl))

  -- Clamping the profiles keeps their names.
  has_name-sanitize :
      (n : Text) (ps : List (DeviceProfile (Profile N)))
      → has_name n (map (sanitize_device_profile N L) ps) ≡ has_name n ps
  unfolding has_name sanitize_device_profile
  has_name-sanitize n [] = refl
  has_name-sanitize n (p ∷ ps) = rw (has_name-sanitize n ps) refl

  sanitize-Distinct :
      (ps : List (DeviceProfile (Profile N)))
      → Distinct ps
      → Distinct (map (sanitize_device_profile N L) ps)
  unfolding sanitize_device_profile
  sanitize-Distinct [] d = tt
  sanitize-Distinct (p ∷ ps) (free, d) =
      (unfold sanitize_device_profile in has_name-sanitize p.name ps ∙ free, sanitize-Distinct ps d)

  sanitize-named :
      (ps : List (DeviceProfile (Profile N)))
      → All (λ p. IsGoodName p.name) ps
      → All (λ p. IsGoodName p.name) (map (sanitize_device_profile N L) ps)
  unfolding sanitize_device_profile
  sanitize-named [] a = tt
  sanitize-named (p ∷ ps) (g, a) = (g, sanitize-named ps a)

  length-sanitize :
      (ps : List (DeviceProfile (Profile N)))
      → length (map (sanitize_device_profile N L) ps) ≡ length ps
  length-sanitize [] = refl
  length-sanitize (p ∷ ps) = omega (arith, length-sanitize ps)

  save_config-IsValid : (c : AppConfig (Profile N)) → IsValid c → IsValid (save_config N L c)
  unfolding save_config sanitize_all
  save_config-IsValid c v = record {
    distinct = sanitize-Distinct c.profiles v.distinct;
    named = sanitize-named c.profiles v.named;
    bounded = omega (arith, length-sanitize c.profiles, v.bounded);
    active = elim v.active [
      | inl none_active ↦ inl none_active
      | inr h ↦ inr (has_name-sanitize c.active_profile c.profiles ∙ h)
    ];
  }

  save_and_apply-Keeps :
      (o : Outcome) (s : Session N L) (c : AppConfig (Profile N))
      → IsValidSession s
      → IsValid c
      → Keeps s (save_and_apply N L o (record s { cfg = c }))
  unfolding save_and_apply
  save_and_apply-Keeps o s c v w = elim (Bool-cases o.saves) [
    | inl e ↦ simp e ((w, save_config-IsValid c w), inl refl)
    | inr e ↦ simp e ((w, v.1), inr (refl, refl))
  ]

  cmd_set-Keeps :
      (n : Text) (o : Outcome) (s : Session N L) → IsValidSession s → Keeps s (cmd_set N L n o s)
  unfolding cmd_set with_active
  cmd_set-Keeps n o s v = elim (Bool-cases (has_name n s.cfg.profiles)) [
    | inl e ↦ rw e (
        save_and_apply-Keeps o s (with_active n s.cfg) v (record {
          distinct = v.0.distinct;
          named = v.0.named;
          bounded = v.0.bounded;
          active = inr e;
        }))
    | inr e ↦ rw e (refused s v)
  ]

  -- A name that passes the tests.
  is_new_sound :
      (n : Text) (ps : List (DeviceProfile (Profile N)))
      → is_new n ps ≡ true
      → IsGoodName n × (has_name n ps ≡ false)
  unfolding is_new
  is_new_sound [] ps h = cc
  is_new_sound (c ∷ n) ps h = ground arith

  add_profile-Keeps :
      (p : DeviceProfile (Profile N)) (o : Outcome) (s : Session N L)
      → IsValidSession s
      → IsGoodName p.name
      → has_name p.name s.cfg.profiles ≡ false
      → Keeps s (add_profile N L p o s)
  unfolding add_profile with_profiles
  add_profile-Keeps p o s v g f = elim (Bool-cases (leb max_profiles (length s.cfg.profiles))) [
    | inl e ↦ rw e (refused s v)
    | inr e ↦ rw e (
        save_and_apply-Keeps o s (with_profiles (s.cfg.profiles ++ p ∷ []) s.cfg) v (record {
          distinct = append-Distinct s.cfg.profiles p v.0.distinct f;
          named = append-All (λ p. IsGoodName p.name) s.cfg.profiles (p ∷ []) v.0.named (g, tt);
          bounded =
              let below : length s.cfg.profiles < max_profiles = ground arith in
              omega (arith, length-append s.cfg.profiles (p ∷ []));
          active = elim v.0.active [
            | inl none_active ↦ inl none_active
            | inr h ↦ inr (has_name-append_true s.cfg.active_profile s.cfg.profiles (p ∷ []) h)
          ];
        }))
  ]

  cmd_create-Keeps :
      (fresh : Profile N) (n : Text) (o : Outcome) (s : Session N L)
      → IsValidSession s
      → Keeps s (cmd_create N L fresh n o s)
  unfolding cmd_create new_profile
  cmd_create-Keeps fresh n o s v = elim (Bool-cases (is_new n s.cfg.profiles)) [
    | inl e ↦
        let (g, f) = is_new_sound n s.cfg.profiles e in
        rw e (add_profile-Keeps (new_profile fresh n) o s v g f)
    | inr e ↦ rw e (refused s v)
  ]

  duplicate_found :
      (dst : Text) (o : Outcome) (s : Session N L)
      → IsValidSession s
      → IsGoodName dst × (has_name dst s.cfg.profiles ≡ false)
      → (found : Option (DeviceProfile (Profile N)))
      → Keeps s (elim found [ none ↦ (s, 1) | some p ↦ add_profile N L (copy_of dst p) o s ])
  unfolding copy_of
  duplicate_found dst o s v (g, f) none = refused s v
  duplicate_found dst o s v (g, f) (some p) = add_profile-Keeps (copy_of dst p) o s v g f

  cmd_duplicate-Keeps :
      (src dst : Text) (o : Outcome) (s : Session N L)
      → IsValidSession s
      → Keeps s (cmd_duplicate N L src dst o s)
  unfolding cmd_duplicate
  cmd_duplicate-Keeps src dst o s v = elim (Bool-cases (is_new dst s.cfg.profiles)) [
    | inl e ↦ rw e (
        duplicate_found dst o s v (is_new_sound dst s.cfg.profiles e)
          (find_name src s.cfg.profiles))
    | inr e ↦ rw e (refused s v)
  ]

  has_name_head :
      (p : DeviceProfile (Profile N)) (ps : List (DeviceProfile (Profile N)))
      → has_name p.name (p ∷ ps) ≡ true
  unfolding has_name
  has_name_head p ps = rw (text_eq_refl p.name) refl

  active_after_gone :
      (n active : Text) (p : DeviceProfile (Profile N)) (ps : List (DeviceProfile (Profile N)))
      → text_eq active n ≡ true
      → active_after n active (p ∷ ps) ≡ p.name
  unfolding active_after
  active_after_gone n active p ps e = rw e refl

  active_after_kept :
      (n active : Text) (p : DeviceProfile (Profile N)) (ps : List (DeviceProfile (Profile N)))
      → text_eq active n ≡ false
      → active_after n active (p ∷ ps) ≡ active
  unfolding active_after
  active_after_kept n active p ps e = rw e refl

  -- The active name after a deletion is empty or stands in the list that is left.
  active_after-has_name :
      (n active : Text) (left : List (DeviceProfile (Profile N)))
      → (active ≡ []) ⊎ ((text_eq active n ≡ true) ⊎ (has_name active left ≡ true))
      → (active_after n active left ≡ []) ⊎ (has_name (active_after n active left) left ≡ true)
  active_after-has_name n active [] h = inl (unfold active_after in refl)
  active_after-has_name n active (p ∷ ps) h = elim (Bool-cases (text_eq active n)) [
    | inl e ↦ rw (active_after_gone n active p ps e) (inr (has_name_head p ps))
    | inr e ↦ rw (active_after_kept n active p ps e) (elim h [
      | inl empty ↦ inl empty
      | inr (inl yes_n) ↦ absurd (cc)
      | inr (inr stands) ↦ inr stands
    ])
  ]

  cmd_delete-Keeps :
      (n : Text) (o : Outcome) (s : Session N L) → IsValidSession s → Keeps s (cmd_delete N L n o s)
  unfolding cmd_delete with_active with_profiles
  cmd_delete-Keeps n o s v = elim (Bool-cases (has_name n s.cfg.profiles)) [
    | inr e ↦ rw e (refused s v)
    | inl e ↦
        let left = remove_named n s.cfg.profiles in
        let active = active_after n s.cfg.active_profile left in
        rw e (
          save_and_apply-Keeps o s (with_active active (with_profiles left s.cfg)) v (record {
            distinct = remove_named-Distinct n s.cfg.profiles v.0.distinct;
            named = remove_named-All (λ p. IsGoodName p.name) n s.cfg.profiles v.0.named;
            bounded = omega (arith, length-remove_named n s.cfg.profiles, v.0.bounded);
            active = active_after-has_name n s.cfg.active_profile left (elim v.0.active [
              | inl empty ↦ inl empty
              | inr h ↦ inr (elim (Bool-cases (text_eq s.cfg.active_profile n)) [
                | inl t ↦ inl t
                | inr t ↦ inr (has_name-remove_named s.cfg.active_profile n s.cfg.profiles t h)
              ])
            ]);
          }))
  ]

  -- The active name after a renaming.
  active_renamed :
      (old new active : Text) (ps : List (DeviceProfile (Profile N)))
      → has_name old ps ≡ true
      → (active ≡ []) ⊎ (has_name active ps ≡ true)
      → ((if text_eq active old then new else active) ≡ [])
        ⊎ (has_name (if text_eq active old then new else active) (rename_first old new ps) ≡ true)
  active_renamed old new active ps e h = elim (Bool-cases (text_eq active old)) [
    | inl t ↦ rw t (inr (has_name-rename_first_new old new ps e))
    | inr t ↦ rw t (elim h [
      | inl empty ↦ inl empty
      | inr stands ↦ inr (has_name-rename_first active old new ps t stands)
    ])
  ]

  cmd_rename-Keeps :
      (old new : Text) (o : Outcome) (s : Session N L)
      → IsValidSession s
      → Keeps s (cmd_rename N L old new o s)
  unfolding cmd_rename with_active with_profiles
  cmd_rename-Keeps old new o s v = elim (Bool-cases (is_new new s.cfg.profiles)) [
    | inr e ↦ rw e (refused s v)
    | inl e ↦ elim (Bool-cases (has_name old s.cfg.profiles)) [
      | inr f ↦ rw (e, f) (refused s v)
      | inl f ↦
          let (g, free) = is_new_sound new s.cfg.profiles e in
          let renamed = rename_first old new s.cfg.profiles in
          let active = if text_eq s.cfg.active_profile old then new else s.cfg.active_profile in
          rw (e, f)
            (save_and_apply-Keeps o s (with_active active (with_profiles renamed s.cfg)) v (record {
              distinct = rename_first-Distinct old new s.cfg.profiles free v.0.distinct;
              named = rename_first-All IsGoodName old new s.cfg.profiles g v.0.named;
              bounded = omega (arith, length-rename_first old new s.cfg.profiles, v.0.bounded);
              active = active_renamed old new s.cfg.active_profile s.cfg.profiles f v.0.active;
            }))
    ]
  ]

  -- Whatever the save and the daemon do, each of the five commands leaves a consistent configuration
  -- in memory and in the file: distinct names that are not empty and not too long, not too many
  -- profiles, and an active name that is empty or names a profile. And the file holds what is in
  -- memory, its profiles clamped and the version stamped, or it is untouched and the exit code is 1.
  pub run_command-IsValid :
      (fresh : Profile N) (c : Command) (o : Outcome) (s : Session N L)
      → IsValidSession s
      → IsValidSession (run_command N L fresh c o s).0 × Saved s (run_command N L fresh c o s)
  unfolding run_command
  run_command-IsValid fresh (set_active n) o s v = cmd_set-Keeps n o s v
  run_command-IsValid fresh (create n) o s v = cmd_create-Keeps fresh n o s v
  run_command-IsValid fresh (delete n) o s v = cmd_delete-Keeps n o s v
  run_command-IsValid fresh (duplicate src dst) o s v = cmd_duplicate-Keeps src dst o s v
  run_command-IsValid fresh (rename old new) o s v = cmd_rename-Keeps old new o s v
