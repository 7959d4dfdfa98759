-- ===== src/Tests/Reading.antt =====
-- The theorems on the cache, the flash sectors and the drain, run on the sample device.
use abrek_mouse.Prelude.{◌≡◌, refl, some, List, [], ◌∷◌, arith, replicate}
use abrek_mouse.Tests.Sample.{sample_ids, sample, long, hear}
use abrek_mouse.Hidpp.Packet.{is_hidpp_error, normalize_function_id}
use abrek_mouse.Hidpp.Notification.{Notification, hidpp20}
use abrek_mouse.Hidpp.Transport.State.{
  Transport, Round, write_packet, next_sw_id, write_loop, await, wait, read_packet, find,
}
use abrek_mouse.Hidpp.Transport.Request.{
  send_feature_request, feature_frame, judge_feature, root_reply, resolve_feature_index,
}
use abrek_mouse.Hidpp.Transport.Notify.{drain_notifications}
use abrek_mouse.Hidpp.Transport.Onboard.{read_sector_from}
use abrek_mouse.Hidpp.Transport.Cache.{resolve_feature_index-cached}
use abrek_mouse.Hidpp.Transport.Sectors.{read_sector_from-fuel}
use abrek_mouse.Hidpp.Transport.Drain.{Drained, drain_notifications-Drained}

abbrev root_script : List Round
root_script = hear (long 0 0x01 (4 ∷ [])) ∷ []

resolve_feature_index-cached_example :
    resolve_feature_index 0x1004 1 (resolve_feature_index 0x1004 1 (sample root_script)).1
    ≡ (some 4, (resolve_feature_index 0x1004 1 (sample root_script)).1)
unfolding resolve_feature_index find root_reply send_feature_request write_packet feature_frame
    next_sw_id write_loop await wait read_packet judge_feature is_hidpp_error normalize_function_id
resolve_feature_index-cached_example =
    resolve_feature_index-cached 0x1004 1 4 (sample root_script)
      (omega arith, omega arith, ground arith) refl

abbrev sector_script : List Round
sector_script =
    hear (long 9 0x01 (1 ∷ 1 ∷ 1 ∷ 5 ∷ 0 ∷ 8 ∷ 4 ∷ 1 ∷ 0 ∷ 0 ∷ []))
    ∷ hear (long 9 0x52 (replicate 16 7))
    ∷ []

read_sector_from-fuel_example :
    read_sector_from sample_ids 2 1 3 0 20 [] (sample sector_script)
    ≡ read_sector_from sample_ids 2 1 257 0 20 [] (sample sector_script)
read_sector_from-fuel_example =
    read_sector_from-fuel sample_ids 2 1 2 256 0 20 [] (sample sector_script) (omega arith)
      (omega arith)

abbrev kept : Notification
kept = record {
  report_id = 0x11;
  device_index = 1;
  sub_id = 8;
  address = 0;
  feature_index = 8;
  type = hidpp20;
  payload = replicate 16 0;
}

-- One notification in the stash, and another in a live report.
abbrev notified : Transport
notified = record (sample (hear (long 8 0x00 []) ∷ [])) { pending_notifications = kept ∷ [] }

drain_notifications-Drained_example : Drained 4 notified (drain_notifications 4 notified)
drain_notifications-Drained_example = drain_notifications-Drained 4 notified (omega arith) refl
