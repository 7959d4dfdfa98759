-- ===== src/Tests/Transport.antt =====
-- The theorems on the transport, run on the sample device.
use abrek_mouse.Prelude.{
  ℕ, ◌≡◌, refl, sym, ap, ◌⊎◌, inl, inr, false, Option, none, some, List, [], ◌∷◌, arith, replicate,
  Mem,
}
use abrek_mouse.Tests.Sample.{sample_header, sample, long, hear, dpi_script}
use abrek_mouse.Hidpp.Transport.State.{Round, reading, report, poll_timeout}
use abrek_mouse.Hidpp.Transport.Request.{send_feature_request, resolve_feature_index}
use abrek_mouse.Hidpp.Transport.Answers.{
  Sound, send_feature_request-Sound, send_feature_request_complete,
}
use abrek_mouse.Hidpp.Packet.{is_hidpp_error, normalize_function_id}
use abrek_mouse.Hidpp.Dpi.{decode_dpi_levels}
use abrek_mouse.Hidpp.Transport.State.{
  write_packet, next_sw_id, write_loop, await, wait, read_packet, find, budget_spent,
}
use abrek_mouse.Hidpp.Transport.Request.{feature_frame, judge_feature, root_reply}
use abrek_mouse.Hidpp.Transport.Onboard.{
  disable_onboard_profiles_for_write, switch_profiles, mark_disabled,
}
use abrek_mouse.Hidpp.Transport.Dpi.{
  get_dpi_info, set_dpi, dpi_request, legacy_dpi, read_list, writable, write_dpi,
}
use abrek_mouse.Hidpp.Transport.Effects.{IsValid, Ext}
use abrek_mouse.Hidpp.Transport.Effects.Queries.{IsOther, get_dpi_info-Ext}
use abrek_mouse.Hidpp.Rate.{hz_to_rate_code}
use abrek_mouse.Tests.Sample.{sample_ids}
use abrek_mouse.Hidpp.Transport.Rate.{set_polling_rate, set_code, legacy_offers}
use abrek_mouse.Hidpp.Transport.Effects.Rate.{SetsRate, set_polling_rate-SetsRate}
use mathlib.Core.Path.{subst}
use abrek_mouse.Hidpp.Header.{DpiInfo}
use abrek_mouse.Hidpp.Transport.Effects.Dpi.{
  IsListedWrite, IsWrite, offered, set_dpi_sound, set_dpi-refused, set_dpi-IsWrite,
}

sample-IsValid : (rounds : List Round) → IsValid (sample rounds)
sample-IsValid rounds = (ground arith, ground arith, ground arith)

abbrev echo : List Round
echo = reading (poll_timeout ∷ []) ∷ hear (long 7 0x21 (5 ∷ [])) ∷ []

send_feature_request-Sound_example :
    Sound (sample echo) 7 2 [] 1 (5 ∷ replicate 15 0) (send_feature_request 7 2 [] 1 (sample echo))
unfolding send_feature_request write_packet feature_frame next_sw_id write_loop await wait
    read_packet judge_feature is_hidpp_error normalize_function_id
send_feature_request-Sound_example =
    send_feature_request-Sound 7 2 [] 1 (sample echo) (5 ∷ replicate 15 0) refl

send_feature_request_complete_example :
    ((send_feature_request 7 2 [] 1 (sample echo)).0 ≡ some (5 ∷ replicate 15 0))
    × ((send_feature_request 7 2 [] 1 (sample echo)).1.rounds ≡ [])
unfolding write_packet feature_frame next_sw_id write_loop read_packet judge_feature is_hidpp_error
    normalize_function_id
send_feature_request_complete_example =
    send_feature_request_complete 7 2 [] 1 (sample echo) (reading (poll_timeout ∷ []) ∷ []) []
      (report (long 7 0x21 (5 ∷ [])) ∷ []) (long 7 0x21 (5 ∷ [])) (omega arith) refl refl
      (inl refl, tt) refl (refl, refl, refl, refl, refl, refl)

set_dpi_sound_example :
    IsListedWrite sample_header 1600 1
      (sample dpi_script)
      (set_dpi sample_header 1600 1 (sample dpi_script)).1
unfolding send_feature_request write_packet feature_frame next_sw_id write_loop await wait
    read_packet judge_feature is_hidpp_error normalize_function_id get_dpi_info dpi_request
    resolve_feature_index find disable_onboard_profiles_for_write legacy_dpi read_list
    decode_dpi_levels budget_spent root_reply switch_profiles mark_disabled writable set_dpi
    write_dpi
set_dpi_sound_example =
    set_dpi_sound sample_header 1600 1 (sample dpi_script) (sample-IsValid dpi_script) refl

abbrev levels_of : Option DpiInfo → List ℕ
levels_of none = []
levels_of (some info) = info.dpi_levels

abbrev unlisted_dpi : ℕ
unlisted_dpi = 900

unlisted :
    (info : DpiInfo)
    → offered sample_header 900 1 (sample dpi_script) ≡ some info
    → (unlisted_dpi ≡ 0) ⊎ (Mem 900 info.dpi_levels → ⊥)
unfolding send_feature_request write_packet feature_frame next_sw_id write_loop await wait
    read_packet judge_feature is_hidpp_error normalize_function_id get_dpi_info dpi_request
    resolve_feature_index find disable_onboard_profiles_for_write legacy_dpi read_list
    decode_dpi_levels budget_spent root_reply switch_profiles mark_disabled writable
unlisted info e = inr (λ m.
    let found : Mem 900 (levels_of (offered sample_header 900 1 (sample dpi_script))) =
      subst (Mem 900) (sym (ap levels_of e)) m in
    ground arith)

set_dpi-refused_example :
    ((set_dpi sample_header 900 1 (sample dpi_script)).0 ≡ false)
    × Ext IsOther (sample dpi_script) (set_dpi sample_header 900 1 (sample dpi_script)).1
set_dpi-refused_example =
    set_dpi-refused sample_header 900 1 (sample dpi_script) (sample-IsValid dpi_script) unlisted

set_dpi-IsWrite_example :
    Ext
      (IsWrite sample_header 1600 1 (sample dpi_script))
      (sample dpi_script)
      (set_dpi sample_header 1600 1 (sample dpi_script)).1
set_dpi-IsWrite_example =
    set_dpi-IsWrite sample_header 1600 1 (sample dpi_script) (sample-IsValid dpi_script)

get_dpi_info-Ext_example :
    Ext IsOther (sample dpi_script) (get_dpi_info sample_header 1 (sample dpi_script)).1
get_dpi_info-Ext_example =
    get_dpi_info-Ext sample_header 1 (sample dpi_script) (sample-IsValid dpi_script)

-- Profiles are off; the older report rate stands at index 5 and offers 1 ms.
abbrev rate_script : List Round
rate_script =
    hear (long 9 0x21 (2 ∷ []))
    ∷ hear (long 0 0x02 (5 ∷ []))
    ∷ hear (long 5 0x03 (1 ∷ []))
    ∷ hear (long 5 0x24 [])
    ∷ []

set_polling_rate-SetsRate_example :
    SetsRate sample_ids 1000 1 (set_polling_rate sample_ids 1000 1 (sample rate_script)).1
unfolding send_feature_request write_packet feature_frame next_sw_id write_loop await wait
    read_packet judge_feature is_hidpp_error normalize_function_id resolve_feature_index find
    disable_onboard_profiles_for_write root_reply set_polling_rate set_code legacy_offers
    hz_to_rate_code
set_polling_rate-SetsRate_example =
    set_polling_rate-SetsRate sample_ids 1000 1 (sample rate_script) refl
