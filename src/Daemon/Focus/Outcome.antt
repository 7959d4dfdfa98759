-- ===== src/Daemon/Focus/Outcome.antt =====
-- What a change of the focused application does to each open device (daemon/daemon.cpp,
-- `apply_active_app`).
use mathlib.Core.Path.{subst}
use abrek_mouse.Config.Model.{DeviceProfile, AppConfig}
use abrek_mouse.Daemon.Profiles.{find_profile}
use abrek_mouse.Daemon.Focus.{
  Device, Live, mark_applied, release_device, refresh, refresh_devices, apply_active_app,
}
use abrek_mouse.Prelude.{
  ◌≡◌, refl, sym, ap, ◌∙◌, inl, inr, true, false, Option, none, some, List, [], ◌∷◌, ◌++◌,
  append-nil, append_assoc, Bool-cases, Option-cases, All, Text, text_eq, Mem, All-mono, Mem-append,
}

module _ {P : Type 0} (config : AppConfig P) (app : Text) where
  abbrev choice : Device P → Option (DeviceProfile P)
  choice d = find_profile config app d.device_id

  -- What the loop does with a device, by the profile that it chooses.
  abbrev keep : Option (DeviceProfile P) → Device P → List (Device P) → List (Device P)
  keep none d ds = d ∷ ds
  keep (some p) d ds = elim p.dev_cfg.disable [
    | true ↦ ds
    | false ↦ record d { applied = some p } ∷ ds
  ]

  abbrev drop_disabled : Option (DeviceProfile P) → Device P → List (Device P) → List (Device P)
  drop_disabled none d ds = ds
  drop_disabled (some p) d ds = elim p.dev_cfg.disable [ true ↦ d ∷ ds | false ↦ ds ]

  kept_of : List (Device P) → List (Device P)
  kept_of [] = []
  kept_of (d ∷ ds) = keep (choice d) d (kept_of ds)

  gone_of : List (Device P) → List (Device P)
  gone_of [] = []
  gone_of (d ∷ ds) = drop_disabled (choice d) d (gone_of ds)

  -- What becomes of a device that was open: kept as it is if no profile may apply, destroyed if the
  -- chosen profile is disabled, and otherwise kept with that profile applied.
  abbrev Fate : List (Device P) → List (Device P) → Option (DeviceProfile P) → Device P → Type 0
  Fate kept gone none d = Mem d kept
  Fate kept gone (some p) d = elim p.dev_cfg.disable [
    | true ↦ Mem d gone
    | false ↦ Mem (record d { applied = some p }) kept
  ]

  -- An open device has the chosen profile, which is not disabled, if there is one.
  abbrev Holds : Option (DeviceProfile P) → Device P → Type 0
  Holds none d = Unit
  Holds (some p) d = (p.dev_cfg.disable ≡ false) × (d.applied ≡ some p)

  -- What the loop leaves alone.
  abbrev Same : Live P → Live P → Type 0
  Same s s' = (s'.focus ≡ s.focus) × (s'.config ≡ s.config) × (s'.destroyed ≡ s.destroyed)

  -- The loop from any state of its variables.
  abbrev Refreshed : List (Device P) → List (Device P) → List (Device P) → Live P → Type 0
  Refreshed ds kept gone s =
      (s' : Live P) × (refresh config app ds kept gone s
        ≡ (kept ++ kept_of ds, gone ++ gone_of ds, s'))
      × Same s s'

  refresh-kept_of : (ds kept gone : List (Device P)) (s : Live P) → Refreshed ds kept gone s
  unfolding refresh kept_of gone_of
  refresh-kept_of [] kept gone s = (s, cc (append-nil kept, append-nil gone), (refl, refl, refl))
  refresh-kept_of (d ∷ ds) kept gone s = elim (Option-cases (choice d)) [
    | inl e ↦
        let (s', p, same) = refresh-kept_of ds (kept ++ d ∷ []) gone s in
        (s', rw (e, refresh) (p ∙ cc (append_assoc kept (d ∷ []) (kept_of ds))), same)
    | inr (q, e) ↦ elim (Bool-cases q.dev_cfg.disable) [
      | inl b ↦
          let (s', p, same) = refresh-kept_of ds kept (gone ++ d ∷ []) (release_device d s) in
          (s', rw (e, refresh) (rw (b) (p ∙ cc (append_assoc gone (d ∷ []) (gone_of ds)))), same)
      | inr b ↦
          let (s', p, same) = refresh-kept_of ds (kept ++ mark_applied d q ∷ []) gone s in
          (
            s',
            rw (e, refresh)
                (rw (b)
                  (p ∙ cc (append_assoc kept (record d { applied = some q } ∷ []) (kept_of ds)))),
            same,
          )
    ]
  ]

  Fate-mono :
      (ks gs ks' gs' : List (Device P))
      → ((d : Device P) → Mem d ks → Mem d ks')
      → ((d : Device P) → Mem d gs → Mem d gs')
      → (o : Option (DeviceProfile P)) (d : Device P) → Fate ks gs o d
      → Fate ks' gs' o d
  Fate-mono ks gs ks' gs' f g none d h = f d h
  Fate-mono ks gs ks' gs' f g (some p) d h = elim (Bool-cases p.dev_cfg.disable) [
    | inl b ↦ rw b (g d (rw b at h))
    | inr b ↦ rw b (f (record d { applied = some p }) (rw b at h))
  ]

  keep-Mem :
      (o : Option (DeviceProfile P)) (d x : Device P) (ks : List (Device P))
      → Mem x ks
      → Mem x (keep o d ks)
  keep-Mem none d x ks h = inr h
  keep-Mem (some p) d x ks h = elim (Bool-cases p.dev_cfg.disable) [
    | inl b ↦ rw b h
    | inr b ↦ rw b (inr h)
  ]

  drop-Mem :
      (o : Option (DeviceProfile P)) (d x : Device P) (gs : List (Device P))
      → Mem x gs
      → Mem x (drop_disabled o d gs)
  drop-Mem none d x gs h = h
  drop-Mem (some p) d x gs h = elim (Bool-cases p.dev_cfg.disable) [
    | inl b ↦ rw b (inr h)
    | inr b ↦ rw b h
  ]

  drop_disabled-true :
      (p : DeviceProfile P) (d : Device P) (gs : List (Device P))
      → p.dev_cfg.disable ≡ true
      → drop_disabled (some p) d gs ≡ d ∷ gs
  drop_disabled-true p d gs b = rw b refl

  keep-false :
      (p : DeviceProfile P) (d : Device P) (ks : List (Device P))
      → p.dev_cfg.disable ≡ false
      → keep (some p) d ks ≡ record d { applied = some p } ∷ ks
  keep-false p d ks b = simp b

  own-Fate :
      (o : Option (DeviceProfile P)) (d : Device P) (ks gs : List (Device P))
      → Fate (keep o d ks) (drop_disabled o d gs) o d
  own-Fate none d ks gs = inl refl
  own-Fate (some p) d ks gs = elim (Bool-cases p.dev_cfg.disable) [
    | inl b ↦ rw b (subst (Mem d) (sym (drop_disabled-true p d gs b)) (inl refl))
    | inr b ↦
        rw b (subst (Mem (record d { applied = some p })) (sym (keep-false p d ks b)) (inl refl))
  ]

  kept_of-Fate : (ds : List (Device P)) → All (λ d. Fate (kept_of ds) (gone_of ds) (choice d) d) ds
  unfolding kept_of gone_of
  kept_of-Fate [] = tt
  kept_of-Fate (d ∷ ds) = (
    own-Fate (choice d) d (kept_of ds) (gone_of ds),
    All-mono (λ x. Fate (kept_of ds) (gone_of ds) (choice x) x)
        (λ x.
          Fate (keep (choice d) d (kept_of ds)) (drop_disabled (choice d) d (gone_of ds)) (choice x)
            x)
        (λ x h.
          Fate-mono (kept_of ds) (gone_of ds) (keep (choice d) d (kept_of ds))
            (drop_disabled (choice d) d (gone_of ds)) (λ y. keep-Mem (choice d) d y (kept_of ds))
            (λ y. drop-Mem (choice d) d y (gone_of ds)) (choice x) x h)
        ds (kept_of-Fate ds),
  )

  keep-Holds :
      (o : Option (DeviceProfile P)) (d : Device P) (ks : List (Device P))
      → choice d ≡ o
      → All (λ x. Holds (choice x) x) ks
      → All (λ x. Holds (choice x) x) (keep o d ks)
  keep-Holds none d ks e h = (rw e tt, h)
  keep-Holds (some p) d ks e h = elim (Bool-cases p.dev_cfg.disable) [
    | inl b ↦ rw b h
    | inr b ↦ rw b (rw e (b, refl), h)
  ]

  kept_of-Holds : (ds : List (Device P)) → All (λ d. Holds (choice d) d) (kept_of ds)
  unfolding kept_of
  kept_of-Holds [] = tt
  kept_of-Holds (d ∷ ds) = keep-Holds (choice d) d (kept_of ds) refl (kept_of-Holds ds)

module _ {P : Type 0} where
  -- Under a focus, every device that was open meets its fate, and what stays open holds its profile.
  abbrev pub Refocused : Live P → Text → Live P → Type 0
  Refocused s app s' =
      All (λ d. Fate s.config app s'.devices s'.destroyed (find_profile s.config app d.device_id) d)
        s.devices
      × All (λ d. Holds s.config app (find_profile s.config app d.device_id) d) s'.devices

  refresh_devices_parts :
      (s : Live P)
      → ((refresh_devices s).devices ≡ kept_of s.config s.focus.current_app s.devices)
        × ((refresh_devices s).destroyed
            ≡ s.destroyed ++ gone_of s.config s.focus.current_app s.devices)
        × ((refresh_devices s).focus ≡ s.focus)
        × ((refresh_devices s).config ≡ s.config)
  unfolding refresh_devices
  refresh_devices_parts s =
      let (s', p, (f, c, d)) = refresh-kept_of s.config s.focus.current_app s.devices [] [] s in
      (
        ap (λ r. r.0) p,
        ap (λ r. r.2.destroyed ++ r.1) p
            ∙ ap (λ r. r ++ gone_of s.config s.focus.current_app s.devices) d,
        ap (λ r. r.2.focus) p ∙ f,
        ap (λ r. r.2.config) p ∙ c,
      )

  refresh_devices-Refocused : (s : Live P) → Refocused s s.focus.current_app (refresh_devices s)
  refresh_devices-Refocused s =
      let config = s.config in
      let app = s.focus.current_app in
      let (k, g, f, c) = refresh_devices_parts s in
      rw (k, g)
        (
          All-mono
              (λ d.
                Fate config app (kept_of config app s.devices) (gone_of config app s.devices)
                  (find_profile config app d.device_id) d)
              (λ d.
                Fate config app (kept_of config app s.devices)
                  (s.destroyed ++ gone_of config app s.devices)
                  (find_profile config app d.device_id) d)
              (λ d h.
                Fate-mono config app (kept_of config app s.devices) (gone_of config app s.devices)
                  (kept_of config app s.devices) (s.destroyed ++ gone_of config app s.devices)
                  (λ x m. m)
                  (λ x m. Mem-append x s.destroyed (gone_of config app s.devices) (inr m))
                  (find_profile config app d.device_id) d h)
              s.devices (kept_of-Fate config app s.devices),
          kept_of-Holds config app s.devices,
        )

  -- The state that the devices are refreshed in.
  switched : Live P → Live P
  switched s = record s {
    focus = record {
      pending_app = s.focus.pending_app;
      dirty = false;
      current_app = s.focus.pending_app;
    };
  }

  apply_active_app-switched :
      (s : Live P)
      → s.focus.dirty ≡ true
      → text_eq s.focus.pending_app s.focus.current_app ≡ false
      → apply_active_app s ≡ refresh_devices (switched s)
  unfolding apply_active_app switched
  apply_active_app-switched s d n = simp (d, n)

  -- When a focus report differs from the current application, it becomes the current one and counts
  -- as consumed. Under it, each device that was open stays as it was if no profile may apply to it,
  -- is destroyed if the chosen profile is disabled, and otherwise stays with that profile applied;
  -- each device that is open afterwards holds its chosen profile, not a disabled one, if it has one.
  pub apply_active_app-Refocused :
      (s : Live P)
      → s.focus.dirty ≡ true
      → text_eq s.focus.pending_app s.focus.current_app ≡ false
      → ((apply_active_app s).focus ≡ record {
        pending_app = s.focus.pending_app;
        dirty = false;
        current_app = s.focus.pending_app;
      })
        × Refocused s s.focus.pending_app (apply_active_app s)
  unfolding switched
  apply_active_app-Refocused s d n =
      rw (apply_active_app-switched s d n)
        ((refresh_devices_parts (switched s)).2, refresh_devices-Refocused (switched s))
