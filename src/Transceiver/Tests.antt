-- ===== src/Transceiver/Tests.antt =====
-- The theorems on the transceiver at concrete modules.
use gateway_lo_ra.Prelude.{
  ◌+◌, ◌≤◌, ◌<◌, ◌≡◌, refl, ◌↔◌, true, false, List, [], ◌∷◌, some, arith, codes, pos, length,
}
use gateway_lo_ra.Timer
use gateway_lo_ra.Timer.{Delay}
use gateway_lo_ra.AtHandler.{read_at_response_sized, send_at_command}
use gateway_lo_ra.Cellular.Module
use gateway_lo_ra.Cellular.Module.{CellInformation, unavailable}
use gateway_lo_ra.Cellular.Bounded
use gateway_lo_ra.Cellular.Bounded.{Poll}
use gateway_lo_ra.Transceiver.State.{
  transceiver_unavailable, post_http, CellularModule, reading_data, decoding_data, fresh_deactivate,
  trynig_to_send, send_ok, change_transceiver_state, read_refresh, receive, send, restart_refresh,
  write_refresh,
}
use gateway_lo_ra.Transceiver.Post.{
  post_ok, post_command, attempt_post, attempt_reading, answer_reading, receive_post,
  check_http_post_result,
}
use gateway_lo_ra.Transceiver.Exchange.{
  attempt, finish, expire, retry, retry_post, settle, exchange_messages,
}
use gateway_lo_ra.Transceiver.Closing.{
  deliver, exchange_polls, timeouts, is_open, exchange_polls-closes,
}
use gateway_lo_ra.Transceiver.Commands.{
  post_answer, check_http_post_result-answer, post_command-fits,
}
use gateway_lo_ra.Transceiver.Answer.{has_bounded_answer, exchange_messages-has_bounded_answer}
use gateway_lo_ra.Transceiver.Ending.{
  silent, exchange_calls, exchange_calls-never_end, exchange_calls-end,
}
use gateway_lo_ra.Transceiver.Success.{is_founded, is_announced, exchange_messages-is_founded}
use gateway_lo_ra.Transceiver.Sample.{in_state, at_tick}

-- A post that has two attempts left to read the answer, and a modem that does not answer.
abbrev nearly_over : CellularModule
nearly_over =
    in_state
      (post_http (record { ready_to_send = false; attempts = 3; current_status = reading_data })) []
      []

abbrev late_polls : List Poll
late_polls = (at_tick 1000, []) ∷ (at_tick 1001, []) ∷ (at_tick 12000, []) ∷ []

two_timeouts : timeouts [] late_polls nearly_over ≡ 2
unfolding timeouts exchange_messages attempt attempt_post attempt_reading answer_reading
    receive_post receive send restart_refresh finish expire read_refresh Module.restart_refresh
    Module.send Module.read_refresh Timer.read Timer.restart retry retry_post write_refresh
    Timer.write change_transceiver_state settle deliver Bounded.deliver read_at_response_sized
    send_at_command
two_timeouts = refl

exchange_polls-closes_example :
    (is_open (exchange_polls [] late_polls nearly_over).transceiver ≡ false) × (2 ≤ 55)
exchange_polls-closes_example =
    exchange_polls-closes [] late_polls nearly_over (omega (arith, two_timeouts))

-- A post that is about to hand its answer over.
abbrev decoding : CellularModule
decoding =
    in_state
      (post_http (record { ready_to_send = false; attempts = 0; current_status = decoding_data }))
      [] (codes "abc")

exchange_messages-has_bounded_answer_example :
    has_bounded_answer (exchange_messages (at_tick 1) false [] decoding).1 ≡ true
exchange_messages-has_bounded_answer_example =
    exchange_messages-has_bounded_answer (at_tick 1) false [] decoding refl

exchange_messages-is_founded_example :
    (is_founded (exchange_messages (at_tick 1) false [] decoding).1 ≡ true)
    × (is_announced decoding (exchange_messages (at_tick 1) false [] decoding).1 ≡ true)
exchange_messages-is_founded_example = exchange_messages-is_founded (at_tick 1) [] decoding refl

exchange_calls-never_end_example :
    let c = in_state (fresh_deactivate true) [] [] in
    let r = exchange_calls [] (at_tick 1 ∷ at_tick 2 ∷ []) c in
    (r.0 ≡ trynig_to_send) × (silent r.1 ≡ some true)
exchange_calls-never_end_example =
    exchange_calls-never_end [] (at_tick 1 ∷ at_tick 2 ∷ []) true
      (in_state (fresh_deactivate true) [] []) refl

exchange_calls-end_example :
    let c = in_state (fresh_deactivate true) (b'O' ∷ b'K' ∷ b'\r' ∷ b'\n' ∷ []) [] in
    let r = exchange_calls [] (at_tick 1 ∷ at_tick 2 ∷ at_tick 3 ∷ []) c in
    (r.0 ≡ send_ok)
    × (r.1.transceiver ≡ transceiver_unavailable)
    × (r.1.base.connection ≡ unavailable)
exchange_calls-end_example =
    exchange_calls-end [] (b'\n' ∷ []) (at_tick 1) (at_tick 2) (at_tick 3) true
      (in_state (fresh_deactivate true) (b'O' ∷ b'K' ∷ b'\r' ∷ b'\n' ∷ []) []) (refl, refl, refl)

check_http_post_result-answer_example :
    check_http_post_result (post_answer 0 500 12) (pos 0) ≡ (post_ok, pos 12)
check_http_post_result-answer_example =
    check_http_post_result-answer 0 500 12 (pos 0) (omega arith) (omega arith) (omega arith)

post_command-fits_example : (length (post_command (1 ∷ 2 ∷ 3 ∷ [])) + 1 ≤ 23) ↔ (3 < 1000)
post_command-fits_example = post_command-fits (1 ∷ 2 ∷ 3 ∷ [])
