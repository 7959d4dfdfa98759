-- ===== src/Daemon/Profiles.antt =====
-- The choice of a profile (daemon/daemon.cpp): the test of the focused application and
-- `find_profile`, with the focus report of the IPC thread.
pub mod Contains
pub mod Choice
use abrek_mouse.Config.Model.{DeviceProfile, AppConfig}
use abrek_mouse.Prelude.{
  ℕ, zero, suc, ◌+◌, ◌-◌, ◌*◌, ◌/◌, ◌%◌, ◌^◌, ◌≤◌, ◌<◌, min, max, ◌≡◌, refl, sym, ap, ◌∙◌, ◌≢◌, ◌↔◌,
  ◌⊎◌, inl, inr, Bool, true, false, not, ◌&&◌, ◌||◌, Option, none, some, List, [], ◌∷◌, ◌++◌, map,
  append-nil, append_assoc, arith, ltb, leb, ◌==◌, if◌then◌else◌, ltb→lt, lt→ltb, leb→le, ==_iff,
  tests, Bool-cases, Option-cases, length, get_or, take, drop, replicate, length-append,
  length-take, length-drop, length-replicate, take-append-drop, take-length, All, any_of, find_if,
  dec_lt, Text, codes, text_eq, text_eq_sound, text_eq_refl, is_empty, is_digit, to_lower, ℤ, pos,
  negsuc, ltz,
}

-- The inner loop of `ascii_icontains`: the needle against the text at one place.
unfoldable pub matches_at : Text → Text → Bool
unfolding to_lower
matches_at h [] = true
matches_at [] (y ∷ n) = false
matches_at (x ∷ h) (y ∷ n) =
    let rest = matches_at h n in if to_lower x == to_lower y then rest else false

-- The outer loop: the places left to try, the next at the head of the text.
unfoldable pub scan : ℕ → Text → Text → Bool
unfolding matches_at
scan zero h n = false
scan (suc k) h n = let rest = scan k (drop 1 h) n in if matches_at h n then true else rest

-- `ascii_icontains`.
unfoldable pub ascii_icontains : Text → Text → Bool
unfolding scan
ascii_icontains h n =
    if is_empty n
    then true
    else if ltb (length h) (length n)
    then false
    else scan (suc (length h - length n)) h n

module _ {P : Type 0} where
  -- `profile_matches_app`.
  unfoldable pub profile_matches_app : DeviceProfile P → Text → Bool
  unfolding ascii_icontains
  profile_matches_app p app = if is_empty p.match_app then true else ascii_icontains app p.match_app

  -- The tests of the four loops of `find_profile`.
  unfoldable pub for_device : Text → Text → DeviceProfile P → Bool
  unfolding profile_matches_app text_eq
  for_device dev app p =
      (not (is_empty p.device_id) && text_eq p.device_id dev) && profile_matches_app p app

  unfoldable pub for_all_devices : Text → DeviceProfile P → Bool
  unfolding profile_matches_app
  for_all_devices app p = is_empty p.device_id && profile_matches_app p app

  unfoldable pub is_active : Text → Text → DeviceProfile P → Bool
  unfolding profile_matches_app text_eq
  is_active active app p = text_eq p.name active && profile_matches_app p app

  -- A loop that returns from the function if it finds a profile.
  abbrev pub or_else :
      Option (DeviceProfile P) → Option (DeviceProfile P) → Option (DeviceProfile P)
  or_else (some p) o = some p
  or_else none o = o

  -- `find_profile`, for a device and the focused application.
  unfoldable pub find_profile : AppConfig P → Text → Text → Option (DeviceProfile P)
  unfolding for_device for_all_devices is_active profile_matches_app find_if
  find_profile config app dev = or_else (find_if (for_device dev app) config.profiles) (
      or_else (find_if (for_all_devices app) config.profiles) (
        or_else (find_if (is_active config.active_profile app) config.profiles)
          (find_if (λ p. profile_matches_app p app) config.profiles)))

-- The focus report: what the IPC thread last wrote, whether it is new, and what the loop applied.
pub record Focus : Type 0 where
  pub pending_app : Text
  pub dirty : Bool
  pub current_app : Text

-- The branch of `handle_ipc_client` for `set_active_app`, given the text behind the command.
unfoldable pub set_active_app : Text → Focus → Focus
unfolding text_eq
set_active_app payload f =
    let app = if text_eq payload (codes "none") then [] else payload in
    let app' = if ltb 128 (length app) then take 128 app else app in
    record f { pending_app = app'; dirty = true }
