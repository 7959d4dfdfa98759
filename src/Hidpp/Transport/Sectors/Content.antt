-- ===== src/Hidpp/Transport/Sectors/Content.antt =====
-- The bytes of a flash sector that was read.
use abrek_mouse.Prelude.{
  ℕ, zero, suc, ◌+◌, ◌-◌, ◌/◌, ◌%◌, ◌≤◌, ◌<◌, min, ◌≡◌, true, false, Option, none, some, List, [],
  ◌∷◌, ◌++◌, length, take, drop,
}
use abrek_mouse.Hidpp.Bytes.{at, hi_byte, lo_byte, be16}
use abrek_mouse.Hidpp.Transport.Waiting.{Heard}
use abrek_mouse.Hidpp.Packet.{is_hidpp_error}
use abrek_mouse.Hidpp.Features.{FeatureIds}
use abrek_mouse.Hidpp.Transport.Monad.{M, pure}
use abrek_mouse.Hidpp.Transport.State.{Transport, target_of}
use abrek_mouse.Hidpp.Transport.Request.{resolve_feature_index}
use abrek_mouse.Hidpp.Transport.Onboard.{
  read_sector_from, sector_readable, get_onboard_profile_info, OnboardInfo,
}

module _ (ids : FeatureIds) (sector target : ℕ) where
  abbrev device_of : Transport → ℕ
  device_of t = target_of t target

  -- The state behind the resolution of the feature.
  abbrev found_at : Transport → Transport
  found_at t = (resolve_feature_index ids.onboard_profiles (device_of t) t).1

  -- The last frame of the state `u` asks the feature at `i` for the 16 bytes of the sector from
  -- `offset` on, and `r` is a report that was read after it was written, no error, that echoes the
  -- frame's device, feature index, function and software id.
  abbrev pub AsksFor : ℕ → ℕ → List ℕ → Transport → Transport → Type 0
  AsksFor offset i r t u =
      (f : List ℕ) × (before : List (List ℕ)) × (u.sent ≡ f ∷ before)
      × (at f 2 ≡ i)
      × (at f 3 / 16 ≡ 0x5)
      × (be16 (at f 4) (at f 5) ≡ sector % 65536)
      × (be16 (at f 6) (at f 7) ≡ offset % 65536)
      × Heard r (found_at t).rounds
      × (is_hidpp_error r ≡ false)
      × (at r 1 ≡ at f 1)
      × (at r 2 ≡ i)
      × (at r 3 ≡ at f 3)

  -- The bytes `d` come from the answers to `k` requests, for the offsets `offset`, `offset + 16` and
  -- so on up to the size: each gives the first 16 bytes behind the header of the answer, the last
  -- one only as many as are wanted, and no answer is shorter.
  abbrev pub Assembled : ℕ → ℕ → ℕ → List ℕ → Transport → Transport → Type 0
  Assembled zero offset size d t v = (size ≤ offset) × (d ≡ []) × (v ≡ t)
  Assembled (suc k) offset size d t v =
      (i : ℕ) × (r : List ℕ) × (u : Transport) × (rest : List ℕ) × (offset < size)
      × ((resolve_feature_index ids.onboard_profiles (device_of t) t).0 ≡ some i)
      × AsksFor offset i r t u
      × (min 16 (size - offset) ≤ length (drop 4 r))
      × (d ≡ take (min 16 (size - offset)) (drop 4 r) ++ rest)
      × Assembled k (offset + 16) size rest u v

  abbrev request_for : ℕ → List ℕ
  request_for offset = hi_byte sector ∷ lo_byte sector ∷ hi_byte offset ∷ lo_byte offset ∷ []

  -- The two tests that stand before the loop.
  admit : ℕ → Option OnboardInfo → M (Option (List ℕ))
  admit size none = pure none
  admit size (some i) = elim (sector_readable i sector size) [
    | false ↦ pure none
    | true ↦ read_sector_from ids sector target 257 0 size []
  ]

  -- What holds of the sector `d` that was read from the state `t`, up to the state `v`.
  abbrev pub IsSector : ℕ → List ℕ → Transport → Transport → Type 0
  IsSector size d t v =
      (length d ≡ size)
      × (0 < size)
      × (size ≤ 4096)
      × ((info : OnboardInfo) × ((get_onboard_profile_info ids target t).0 ≡ some info)
          × (sector < info.sector_count)
          × (size ≤ info.profile_size))
      × ((k : ℕ) × Assembled k 0 size d (get_onboard_profile_info ids target t).1 v)
