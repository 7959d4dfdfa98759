-- ===== src/Tests/Exchange.antt =====
-- The theorems on registers and packet requests, run on the sample device.
use abrek_mouse.Prelude.{ℕ, refl, List, [], ◌∷◌, replicate}
use abrek_mouse.Tests.Sample.{sample, hear}
use abrek_mouse.Hidpp.Packet.{
  Packet, is_hidpp_error, normalize_function_id, long_to_bytes, long_from_bytes,
}
use abrek_mouse.Hidpp.Transport.State.{
  Round, write_packet, next_sw_id, write_loop, await, wait, read_packet,
}
use abrek_mouse.Hidpp.Transport.Request.{send_long, judge_packet}
use abrek_mouse.Hidpp.Transport.Register.{read_register, judge_register}
use abrek_mouse.Hidpp.Transport.Replies.{
  IsRead, IsExchange, request_of, read_register-EchoesRegister, send_long-IsExchange,
}

abbrev register_script : List Round
register_script = hear (0x10 ∷ 1 ∷ 0x81 ∷ 0x0D ∷ 55 ∷ 0 ∷ 0 ∷ []) ∷ []

read_register-EchoesRegister_example :
    IsRead 0x0D [] 1
      (sample register_script)
      (55 ∷ 0 ∷ 0 ∷ [])
      (read_register 0x0D [] 1 (sample register_script)).1
unfolding read_register judge_register write_packet write_loop await wait read_packet is_hidpp_error
read_register-EchoesRegister_example =
    read_register-EchoesRegister 0x0D [] 1 (sample register_script) (55 ∷ 0 ∷ 0 ∷ []) refl

-- A report `id` of feature index 7 and function 2, with `n` parameter bytes 9.
abbrev answered_by : ℕ → ℕ → List Round
answered_by id n = hear (id ∷ 1 ∷ 7 ∷ 0x21 ∷ replicate n 9) ∷ []

abbrev answer_of : ℕ → ℕ → Packet
answer_of id n = record {
  report_id = id;
  device_index = 1;
  feature_index = 7;
  function_id = 2;
  software_id = 1;
  params = replicate n 9;
}

send_long-IsExchange_example :
    IsExchange long_from_bytes long_to_bytes
      (request_of (sample (answered_by 0x11 16)) 0x11 7 2 (replicate 16 0) 1)
      (sample (answered_by 0x11 16))
      (answer_of 0x11 16)
      (send_long 7 2 (replicate 16 0) 1 (sample (answered_by 0x11 16))).1
unfolding send_long judge_packet write_packet write_loop await wait read_packet is_hidpp_error
    next_sw_id long_to_bytes long_from_bytes normalize_function_id
send_long-IsExchange_example =
    send_long-IsExchange 7 2 (replicate 16 0) 1 (sample (answered_by 0x11 16)) (answer_of 0x11 16)
      refl
