-- ===== src/Tests/Writing.antt =====
-- The theorems on writes and on the discovery of receivers, run on concrete data.
use abrek_mouse.Prelude.{refl, false, List, [], ◌∷◌, replicate, All}
use abrek_mouse.Tests.Sample.{sample_ids, sample, long, hear}
use abrek_mouse.Hidpp.Packet.{is_hidpp_error, normalize_function_id}
use abrek_mouse.Hidpp.Transport.State.{
  Round, write_packet, next_sw_id, write_loop, await, wait, read_packet, find,
}
use abrek_mouse.Hidpp.Transport.Request.{
  send_feature_request, feature_frame, judge_feature, resolve_feature_index,
}
use abrek_mouse.Hidpp.Transport.Onboard.{write_sector_from, write_onboard_profile_sector}
use abrek_mouse.Hidpp.Transport.Writing.{IsWritten, write_onboard_profile_sector-Carries}
use abrek_mouse.Receiver.{unknown, ReceiverInfo, SysfsEntry, discover_logitech_receivers}
use abrek_mouse.Receiver.Found.{Listed, discover_logitech_receivers-Listed}

-- Sixteen bytes go in two frames.
abbrev flash_script : List Round
flash_script = hear (long 9 0x71 []) ∷ hear (long 9 0x72 []) ∷ []

write_onboard_profile_sector-Carries_example :
    IsWritten sample_ids 2 1
      (replicate 16 7)
      (sample flash_script)
      (write_onboard_profile_sector sample_ids 2 (replicate 16 7) 1 (sample flash_script)).1
unfolding write_onboard_profile_sector write_sector_from resolve_feature_index find
    send_feature_request write_packet feature_frame next_sw_id write_loop await wait read_packet
    judge_feature is_hidpp_error normalize_function_id
write_onboard_profile_sector-Carries_example =
    write_onboard_profile_sector-Carries sample_ids 2 1 (replicate 16 7) (sample flash_script) refl

abbrev blank_receiver : ReceiverInfo
blank_receiver = record {
  sysfs_path = [];
  product_name = [];
  vendor = 0;
  product = 0;
  kind = unknown;
  max_paired_devices = 0;
  hidpp_supported = false;
}

-- "046d" and "c52b".
abbrev unifying_entry : SysfsEntry
unifying_entry = record {
  path = 49 ∷ [];
  id_vendor = 48 ∷ 52 ∷ 54 ∷ 100 ∷ [];
  id_product = 99 ∷ 53 ∷ 50 ∷ 98 ∷ [];
  product = 85 ∷ [];
}

discover_logitech_receivers-Listed_example :
    All
      (Listed blank_receiver ((unifying_entry, false) ∷ []))
      (discover_logitech_receivers blank_receiver ((unifying_entry, false) ∷ []))
discover_logitech_receivers-Listed_example =
    discover_logitech_receivers-Listed blank_receiver ((unifying_entry, false) ∷ [])
