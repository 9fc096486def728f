-- ===== src/Transceiver/Answer.antt =====
-- What Modules/CellularModule/TransceiverState hands to the caller as the server's answer.
use gateway_lo_ra.Prelude.{
  ℕ, ◌-◌, ◌≤◌, ◌≡◌, ◌&&◌, ◌||◌, not, refl, Bool, true, false, List, [], ◌∷◌, Option, none, some,
  arith, if◌then◌else◌, length, c_string, leb, length-take, ℤ, pos, negsuc,
}
use gateway_lo_ra.AtHandler.{AtHandler, read_at_response_sized, read_byte_sized, read_if_readable}
use gateway_lo_ra.Power.State.{Inputs}
use gateway_lo_ra.Transceiver.State.{
  TransceiverStatus, Stepping, PdpStep, SslStep, PostStep, setting_url, posting_data, reading_data,
  decoding_data, Deactivating, TransceiverState, transceiver_unavailable, configure_pdp_for_http,
  configure_ssl, post_http, deactivate_pdp, CellularModule, change_transceiver_state, read_refresh,
  send, send_if, receive, restart_refresh, start_refresh, write_refresh,
}
use gateway_lo_ra.Transceiver.Configure.{
  Outcome, done, waits, attempt_pdp, attempt_ssl, attempt_query, attempt_dns, attempt_ping,
  expect_ok, send_first, attempt_deactivate,
}
use gateway_lo_ra.Transceiver.Post.{
  attempt_post, attempt_set_url, attempt_posting, attempt_result, attempt_reading, answer_posting,
  answer_message, answer_reading, attempt_decoding, receive_post, cut_at, set_url_command,
  read_command, post_command,
}
use gateway_lo_ra.Transceiver.Exchange.{
  attempt, retry, retry_configure, retry_post, expire, finish, settle, reset_states,
  exchange_messages,
}

-- The text in the static buffer has 255 bytes at most, and where new data are announced, the
-- message handed over has one at least and 255 at most.
abbrev pub is_bounded : List ℕ → Bool → List ℕ → Bool
is_bounded text new_data received =
    leb (length text) 255 && (not new_data || leb 1 (length received) && leb (length received) 255)

abbrev pub has_bounded_answer : CellularModule → Bool
has_bounded_answer c =
    is_bounded c.posting.string_to_be_read c.new_data_available c.received_message

abbrev outcome_module : Outcome → CellularModule
outcome_module (done status c) = c
outcome_module (waits c) = c

abbrev SameAnswer : CellularModule → CellularModule → Type 0
SameAnswer c c' =
    (c'.posting ≡ c.posting)
    × (c'.new_data_available ≡ c.new_data_available)
    × (c'.received_message ≡ c.received_message)

pdp_answer :
    (i : Inputs) (s : Stepping PdpStep) (c : CellularModule)
    → SameAnswer c (outcome_module (attempt_pdp i s c))
unfolding attempt_pdp expect_ok attempt_query attempt_dns attempt_ping change_transceiver_state
    send_first send_if send receive start_refresh restart_refresh write_refresh
pdp_answer i s c = ground arith

ssl_answer :
    (i : Inputs) (s : Stepping SslStep) (c : CellularModule)
    → SameAnswer c (outcome_module (attempt_ssl i s c))
unfolding attempt_ssl expect_ok change_transceiver_state send_first send_if send receive
    start_refresh restart_refresh write_refresh
ssl_answer i s c = ground arith

deactivate_answer :
    (s : Deactivating) (c : CellularModule) → SameAnswer c (outcome_module (attempt_deactivate s c))
unfolding attempt_deactivate change_transceiver_state send_if send receive
deactivate_answer s c = ground arith

abbrev line_length : Option (List ℕ) → ℕ
line_length none = 0
line_length (some line) = length line

-- A line that `readATResponse` gives is shorter than the buffer.
line_bound :
    (size : ℕ) (h : AtHandler) (rx : List ℕ)
    → h.rx ≡ rx
    → line_length (read_at_response_sized false size h).0 ≤ size - 1
unfolding read_at_response_sized read_byte_sized read_if_readable
line_bound size h [] e = ground arith
line_bound size h (c ∷ cs) e = ground (arith, length-take (size - 1) (c_string h.buffer))

-- Reading into the static buffer keeps the bound, and what the caller has.
receive_post-keeps :
    (c : CellularModule)
    → length c.posting.string_to_be_read ≤ 255
    → (length (receive_post c).1.posting.string_to_be_read ≤ 255)
      × ((receive_post c).1.new_data_available ≡ c.new_data_available)
      × ((receive_post c).1.received_message ≡ c.received_message)
unfolding receive_post receive
receive_post-keeps c h =
    ground (arith, line_bound 256 c.base.power.handler c.base.power.handler.rx refl)

receive_post_line : (c : CellularModule) → line_length (receive_post c).0 ≤ 255
unfolding receive_post receive
receive_post_line c =
    ground (arith, line_bound 256 c.base.power.handler c.base.power.handler.rx refl)

length-cut_at : (n : ℤ) (line : List ℕ) → length (cut_at n line) ≤ length line
length-cut_at (pos n) line = omega (arith, length-take n line)
length-cut_at (negsuc n) line = omega arith

url_answer :
    (i : Inputs) (s : Stepping PostStep) (c : CellularModule)
    → has_bounded_answer c ≡ true
    → has_bounded_answer (outcome_module (attempt_set_url i s c)) ≡ true
unfolding attempt_set_url change_transceiver_state send start_refresh restart_refresh write_refresh
url_answer i s c h =
    let c1 = if s.ready_to_send then start_refresh i 10000 (send set_url_command c) else c in
    ground (arith, receive_post-keeps c1)

result_answer :
    (i : Inputs) (s : Stepping PostStep) (line : List ℕ) (c : CellularModule)
    → has_bounded_answer c ≡ true
    → has_bounded_answer (outcome_module (attempt_result i s line c)) ≡ true
unfolding attempt_result change_transceiver_state restart_refresh
result_answer i s line c h = ground arith

answer_posting_answer :
    (i : Inputs) (message : List ℕ) (s : Stepping PostStep) (line : Option (List ℕ))
    (c : CellularModule)
    → has_bounded_answer c ≡ true
    → has_bounded_answer (outcome_module (answer_posting i message s line c)) ≡ true
unfolding answer_posting change_transceiver_state send restart_refresh
answer_posting_answer i message s none c h = ground arith
answer_posting_answer i message s (some line) c h = ground (arith, result_answer i s line c)

posting_answer :
    (i : Inputs) (message : List ℕ) (s : Stepping PostStep) (c : CellularModule)
    → has_bounded_answer c ≡ true
    → has_bounded_answer (outcome_module (attempt_posting i message s c)) ≡ true
unfolding attempt_posting send_if send
posting_answer i message s c h =
    let c1 = send_if s.ready_to_send (post_command message) c in
    ground (
      arith,
      receive_post-keeps c1,
      answer_posting_answer i message s (receive_post c1).0 (receive_post c1).1,
    )

message_answer :
    (i : Inputs) (s : Stepping PostStep) (line : List ℕ) (c : CellularModule)
    → has_bounded_answer c ≡ true
    → length line ≤ 255
    → has_bounded_answer (outcome_module (answer_message i s line c)) ≡ true
unfolding answer_message change_transceiver_state restart_refresh
message_answer i s line c h k = ground (arith, length-cut_at c.posting.data_len line)

answer_reading_answer :
    (i : Inputs) (s : Stepping PostStep) (line : Option (List ℕ)) (c : CellularModule)
    → has_bounded_answer c ≡ true
    → line_length line ≤ 255
    → has_bounded_answer (outcome_module (answer_reading i s line c)) ≡ true
unfolding answer_reading change_transceiver_state start_refresh restart_refresh write_refresh
answer_reading_answer i s none c h k = ground arith
answer_reading_answer i s (some line) c h k = ground (arith, message_answer i s line c)

reading_answer :
    (i : Inputs) (s : Stepping PostStep) (c : CellularModule)
    → has_bounded_answer c ≡ true
    → has_bounded_answer (outcome_module (attempt_reading i s c)) ≡ true
unfolding attempt_reading send restart_refresh
reading_answer i s c h =
    let c1 = if s.ready_to_send then restart_refresh i (send read_command c) else c in
    ground (
      arith,
      receive_post-keeps c1,
      receive_post_line c1,
      answer_reading_answer i s (receive_post c1).0 (receive_post c1).1,
    )

decoding_answer :
    (s : Stepping PostStep) (c : CellularModule)
    → has_bounded_answer c ≡ true
    → has_bounded_answer (outcome_module (attempt_decoding s c)) ≡ true
unfolding attempt_decoding change_transceiver_state
decoding_answer s c h = ground arith

post_answer :
    (i : Inputs) (message : List ℕ) (s : Stepping PostStep) (step : PostStep) (c : CellularModule)
    → s.current_status ≡ step
    → has_bounded_answer c ≡ true
    → has_bounded_answer (outcome_module (attempt_post i message s c)) ≡ true
unfolding attempt_post
post_answer i message s setting_url c e h = ground (arith, url_answer i s c)
post_answer i message s posting_data c e h = ground (arith, posting_answer i message s c)
post_answer i message s reading_data c e h = ground (arith, reading_answer i s c)
post_answer i message s decoding_data c e h = ground (arith, decoding_answer s c)

attempt_answer :
    (i : Inputs) (is_null : Bool) (message : List ℕ) (c : CellularModule) (t : TransceiverState)
    → c.transceiver ≡ t
    → has_bounded_answer c ≡ true
    → has_bounded_answer (outcome_module (attempt i is_null message c)) ≡ true
unfolding attempt
attempt_answer i is_null message c transceiver_unavailable e h = ground arith
attempt_answer i is_null message c (configure_pdp_for_http s) e h = ground (arith, pdp_answer i s c)
attempt_answer i is_null message c (configure_ssl s) e h = ground (arith, ssl_answer i s c)
attempt_answer i is_null message c (post_http s) e h =
    ground (arith, post_answer i message s s.current_status c refl)
attempt_answer i is_null message c (deactivate_pdp s) e h = ground (arith, deactivate_answer s c)

-- The poll behind an attempt leaves the answer as it is.
retry_answer :
    (c : CellularModule) (t : TransceiverState) → c.transceiver ≡ t → SameAnswer c (retry c).1
unfolding retry retry_configure retry_post change_transceiver_state write_refresh
retry_answer c transceiver_unavailable e = ground arith
retry_answer c (configure_pdp_for_http s) e = ground arith
retry_answer c (configure_ssl s) e = ground arith
retry_answer c (post_http s) e = ground arith
retry_answer c (deactivate_pdp s) e = ground arith

finish_answer : (i : Inputs) (o : Outcome) → SameAnswer (outcome_module o) (finish i o).1
unfolding finish expire read_refresh
finish_answer i (done status c) = ground arith
finish_answer i (waits c) = ground (arith, retry_answer (read_refresh i c).1 c.transceiver refl)

settle_answer : (status : TransceiverStatus) (c : CellularModule) → SameAnswer c (settle status c)
unfolding settle reset_states
settle_answer status c = ground arith

-- It is an invariant of `exchangeMessages`, whatever the modem sends, that the static buffer holds
-- 255 bytes at most, and that where new data are announced to the caller the message handed over
-- is not empty and has 255 bytes at most.
pub exchange_messages-has_bounded_answer :
    (i : Inputs) (is_null : Bool) (message : List ℕ) (c : CellularModule)
    → has_bounded_answer c ≡ true
    → has_bounded_answer (exchange_messages i is_null message c).1 ≡ true
unfolding exchange_messages
exchange_messages-has_bounded_answer i is_null message c h =
    let o : Outcome = attempt i is_null message c in
    ground (
      arith,
      attempt_answer i is_null message c c.transceiver refl h,
      finish_answer i o,
      settle_answer (finish i o).0 (finish i o).1,
    )
