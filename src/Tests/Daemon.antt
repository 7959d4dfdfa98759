-- ===== src/Tests/Daemon.antt =====
-- The theorems on the daemon, run on small configurations.
use abrek_mouse.Config.Model.{DeviceProfile, AppConfig}
use abrek_mouse.Daemon.Profiles.{Focus, ascii_icontains, find_profile}
use abrek_mouse.Daemon.Profiles.Contains.{Contains, ascii_icontains-Contains}
use abrek_mouse.Daemon.Profiles.Choice.{IsChoice, find_profile-IsChoice}
use abrek_mouse.Daemon.Focus.{Device, Live, apply_active_app}
use abrek_mouse.Daemon.Focus.Outcome.{Refocused, apply_active_app-Refocused}
use abrek_mouse.Daemon.Push.{Push, Event, take_entry, save_done, apply_done, push_config, run}
use abrek_mouse.Daemon.Push.Target.{target}
use abrek_mouse.Daemon.Push.Outcome.{Settles, push_config-applied, push_config_lost_revert}
use abrek_mouse.Daemon.Deny.{DenyList, deadline, contains, reopen_denied, deny_reopen}
use abrek_mouse.Daemon.Deny.Window.{prune, deny_reopen-window}
use abrek_mouse.Prelude.{
  ℕ, ◌≡◌, refl, ap, ◌≢◌, ◌↔◌, ◌⊎◌, Bool, true, false, Option, none, some, List, [], ◌∷◌, arith, ltb,
  length, replicate, Text, codes, text_eq, is_empty, pos,
}

ascii_icontains-Contains_example :
    (ascii_icontains (codes "org.kde.Krita") (codes "krita") ≡ true)
    ↔ Contains (codes "org.kde.Krita") (codes "krita")
ascii_icontains-Contains_example = ascii_icontains-Contains (codes "org.kde.Krita") (codes "krita")

abbrev profile : Text → Text → Text → Bool → DeviceProfile ℕ
profile n id app off = record {
  name = n;
  device_id = id;
  match_app = app;
  dev_cfg = record { dpi = pos 800; polling_rate = pos 1000; disable = off };
  prof = 0;
}

abbrev config : AppConfig ℕ
config = record {
  version = codes "1.2.8";
  active_profile = codes "desk";
  use_raw_input = true;
  profiles =
      profile (codes "paint") [] (codes "krita") false
      ∷ profile (codes "off") (codes "usb:1") (codes "game") true
      ∷ profile (codes "desk") (codes "usb:2") [] false
      ∷ [];
}

chosen :
    find_profile config (codes "org.kde.krita") (codes "usb:1")
    ≡ some (profile (codes "paint") [] (codes "krita") false)
unfolding find_profile
chosen = refl

find_profile-IsChoice_example :
    IsChoice config
      (codes "org.kde.krita")
      (codes "usb:1")
      (find_profile config (codes "org.kde.krita") (codes "usb:1"))
find_profile-IsChoice_example = find_profile-IsChoice config (codes "org.kde.krita") (codes "usb:1")

abbrev mouse : Text → ℕ → Device ℕ
mouse id n = record { path = id; device_id = id; fd = n; applied = none }

abbrev live : Live ℕ
live = record {
  config = config;
  focus = record { pending_app = codes "game"; dirty = true; current_app = [] };
  devices = mouse (codes "usb:1") 3 ∷ mouse (codes "usb:2") 4 ∷ [];
  fd_to_dev = (3, 0) ∷ (4, 1) ∷ [];
  opened_paths = codes "usb:1" ∷ codes "usb:2" ∷ [];
  opened_device_ids = codes "usb:1" ∷ codes "usb:2" ∷ [];
  destroyed = [];
  rescan_needed = false;
}

abbrev game_focus : Focus
game_focus = record { pending_app = codes "game"; dirty = false; current_app = codes "game" }

apply_active_app-Refocused_example :
    ((apply_active_app live).focus ≡ game_focus)
    × Refocused live (codes "game") (apply_active_app live)
unfolding text_eq
apply_active_app-Refocused_example = apply_active_app-Refocused live refl refl

-- Configurations that are numbers, written as so many bytes.
abbrev read_number : Text → Option ℕ
read_number t = some (length t)

abbrev write_number : ℕ → Text
write_number n = replicate n b'1'

abbrev hash_text : Text → ℕ
hash_text t = length t

abbrev daemon : List ℕ → Push ℕ
daemon q = record {
  running = true;
  has_path = true;
  applied = 2;
  config_hash = 2;
  armed = none;
  queue = q;
  saving = none;
  disk = some 2;
}

abbrev finish : List Event
finish = take_entry ∷ save_done ∷ apply_done ∷ []

abbrev pushed : Push ℕ
pushed = (push_config read_number write_number hash_text (codes "111") (daemon [])).0

pushed-Settles : Settles read_number write_number hash_text finish pushed
unfolding push_config run
pushed-Settles = ((refl, (refl, (refl, tt))), (refl, refl, refl))

push_config-applied_example :
    ((push_config read_number write_number hash_text (codes "111") (daemon [])).1 ≡ true)
    × ((ds : List Event) × Settles read_number write_number hash_text ds pushed)
    × (write_number (run read_number write_number hash_text finish pushed).applied ≡ write_number 3)
push_config-applied_example =
    push_config-applied read_number write_number hash_text (codes "111") 3 (daemon []) refl refl
      refl refl (λ h. absurd (omega (arith, h))) refl refl finish pushed-Settles

abbrev reverted : Push ℕ
reverted = (push_config read_number write_number hash_text (codes "11") (daemon (3 ∷ []))).0

reverted-Settles : Settles read_number write_number hash_text finish reverted
unfolding push_config run
reverted-Settles = ((refl, (refl, (refl, tt))), (refl, refl, refl))

push_config_lost_revert_example :
    (push_config read_number write_number hash_text (codes "11") (daemon (3 ∷ []))
      ≡ (daemon (3 ∷ []), true))
    × ((run read_number write_number hash_text finish reverted).applied ≡ target (daemon (3 ∷ [])))
    × (write_number (run read_number write_number hash_text finish reverted).applied
        ≢ write_number 2)
push_config_lost_revert_example =
    push_config_lost_revert read_number write_number hash_text (codes "11") 2 (daemon (3 ∷ [])) refl
      refl refl refl refl refl (λ e. absurd (omega (arith, ap length e))) finish reverted-Settles

-- A quote, a bell, an accented letter, the euro sign and a mouse.
abbrev odd_name : List ℕ
odd_name = b'"' ∷ 7 ∷ 0xE9 ∷ 0x20AC ∷ 0x1F5B1 ∷ []

abbrev no_denials : DenyList
no_denials = record { path_deny = []; dev_deny = (codes "usb:1", 40) ∷ [] }

abbrev node : Text
node = codes "event3"

-- The device comes back at another path.
abbrev moved : Text
moved = codes "event4"

abbrev denials : DenyList
denials = prune (deny_reopen node (codes "usb:1") no_denials 100) (node ∷ []) 2000

deny_reopen-window_example :
    (reopen_denied node (codes "usb:1") denials 3000 ≡ ltb 3000 5100)
    × (reopen_denied node [] denials 3000 ≡ ltb 3000 5100)
    × ((is_empty (codes "usb:1") ≡ true)
        ⊎ (reopen_denied moved (codes "usb:1") denials 3000 ≡ ltb 3000 5100))
unfolding contains deadline text_eq
deny_reopen-window_example =
    deny_reopen-window node moved (codes "usb:1") no_denials (node ∷ []) 100 2000 3000 tt (refl, tt)
      (omega arith) refl refl refl
