-- ===== src/Daemon/Focus.antt =====
-- `apply_active_app` (daemon/daemon.cpp): the loop thread takes over a focus report and re-applies
-- the profiles to the open devices. The lock scopes are single steps here.
pub mod Outcome
use abrek_mouse.Config.Model.{DeviceProfile, AppConfig}
use abrek_mouse.Daemon.Profiles.{Focus, find_profile}
use abrek_mouse.Prelude.{
  ℕ, zero, suc, ◌+◌, ◌-◌, ◌*◌, ◌/◌, ◌%◌, ◌^◌, ◌≤◌, ◌<◌, min, max, ◌≡◌, refl, sym, ap, ◌∙◌, ◌≢◌, ◌↔◌,
  ◌⊎◌, inl, inr, Bool, true, false, not, ◌&&◌, ◌||◌, Option, none, some, List, [], ◌∷◌, ◌++◌, map,
  append-nil, append_assoc, arith, ltb, leb, ◌==◌, if◌then◌else◌, ltb→lt, lt→ltb, leb→le, ==_iff,
  tests, Bool-cases, Option-cases, length, get_or, take, drop, replicate, length-append,
  length-take, length-drop, length-replicate, take-append-drop, take-length, All, any_of, find_if,
  dec_lt, Text, codes, text_eq, text_eq_sound, text_eq_refl, is_empty, is_digit, to_lower, ℤ, pos,
  negsuc, ltz, Mem, All-mono, All-zip, All-append, append-All, Mem-append,
}

-- A `mouse_device`: its names, its descriptor and the profile that was applied to it last.
pub record Device (P : Type 0) : Type 0 where
  pub path : Text
  pub device_id : Text
  pub fd : ℕ
  pub applied : Option (DeviceProfile P)

-- The part of the daemon's state that profile changes touch. `destroyed` collects the devices that
-- `destroy_device` tore down.
pub record Live (P : Type 0) : Type 0 where
  pub config : AppConfig P
  pub focus : Focus
  pub devices : List (Device P)
  pub fd_to_dev : List (ℕ × ℕ)
  pub opened_paths : List Text
  pub opened_device_ids : List Text
  pub destroyed : List (Device P)
  pub rescan_needed : Bool

-- `erase` of a key from a set.
unfoldable pub erase : Text → List Text → List Text
unfolding text_eq
erase t [] = []
erase t (x ∷ xs) = let rest = erase t xs in if text_eq x t then rest else x ∷ rest

-- `erase` of a descriptor from the map.
unfoldable pub erase_fd : ℕ → List (ℕ × ℕ) → List (ℕ × ℕ)
erase_fd n [] = []
erase_fd n ((k, i) ∷ m) = let rest = erase_fd n m in if k == n then rest else (k, i) ∷ rest

module _ {P : Type 0} where
  -- A device that a profile was applied to.
  unfoldable pub mark_applied : Device P → DeviceProfile P → Device P
  mark_applied d p = record d { applied = some p }

  -- `release_device`.
  unfoldable pub release_device : Device P → Live P → Live P
  unfolding erase erase_fd
  release_device d s = record s {
    fd_to_dev = erase_fd d.fd s.fd_to_dev;
    opened_paths = erase d.path s.opened_paths;
    opened_device_ids =
        if is_empty d.device_id then s.opened_device_ids else erase d.device_id s.opened_device_ids;
  }

  -- The loop over the devices: those kept so far are in `kept`, those to destroy in `gone`. The
  -- configuration and the focus, which `find_profile` reads, stay as they are.
  unfoldable pub refresh :
      AppConfig P
      → Text
      → List (Device P)
      → List (Device P)
      → List (Device P)
      → Live P
      → List (Device P) × List (Device P) × Live P
  unfolding mark_applied release_device
  refresh config app [] kept gone s = (kept, gone, s)
  refresh config app (d ∷ ds) kept gone s = elim (find_profile config app d.device_id) [
    | none ↦ refresh config app ds (kept ++ d ∷ []) gone s
    | some p ↦ elim p.dev_cfg.disable [
      | true ↦ refresh config app ds kept (gone ++ d ∷ []) (release_device d s)
      | false ↦ refresh config app ds (kept ++ mark_applied d p ∷ []) gone s
    ]
  ]

  -- `fd_to_dev_[devices_[i].fd_in] = i`, from the place `i` on.
  unfoldable pub index_from : ℕ → List (Device P) → List (ℕ × ℕ)
  index_from i [] = []
  index_from i (d ∷ ds) = (d.fd, i) ∷ index_from (i + 1) ds

  -- The part under the device locks, and the teardown behind it.
  unfoldable pub refresh_devices : Live P → Live P
  unfolding refresh index_from
  refresh_devices s =
      let (kept, gone, s') = refresh s.config s.focus.current_app s.devices [] [] s in
      record s' {
        devices = kept;
        fd_to_dev = index_from 0 kept;
        destroyed = s'.destroyed ++ gone;
        rescan_needed = true;
      }

  -- `apply_active_app`.
  unfoldable pub apply_active_app : Live P → Live P
  unfolding refresh_devices
  apply_active_app s =
      if not s.focus.dirty
      then s
      else (let t = record s { focus = record s.focus { dirty = false } } in
          if text_eq s.focus.pending_app s.focus.current_app
          then t
          else refresh_devices
              (record t { focus = record t.focus { current_app = s.focus.pending_app } }))
