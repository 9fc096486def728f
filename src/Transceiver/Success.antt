-- ===== src/Transceiver/Success.antt =====
-- When Modules/CellularModule/TransceiverState/PostHTTP goes on to report a success.
use gateway_lo_ra.Prelude.{
  ℕ, ◌≡◌, refl, Bool, true, false, ◌||◌, ◌&&◌, not, List, Option, codes, [], ◌∷◌, ◌++◌, none, some,
  arith,
}
use gateway_lo_ra.Cellular.Module
use gateway_lo_ra.AtHandler.{
  AtHandler, read_if_readable, read_byte_sized, read_at_response_sized, send_at_command,
}
use gateway_lo_ra.Power.State.{Inputs, is_response}
use gateway_lo_ra.Transceiver.State.{
  trynig_to_send, Stepping, PostStep, setting_url, posting_data, reading_data, decoding_data,
  TransceiverState, transceiver_unavailable, configure_pdp_for_http, configure_ssl, post_http,
  deactivate_pdp, CellularModule, change_transceiver_state, read_refresh, send, send_if, receive,
  restart_refresh, start_refresh, write_refresh,
}
use gateway_lo_ra.Transceiver.Configure.{Outcome, done, waits}
use gateway_lo_ra.Transceiver.Post.{
  post_buffer_len, read_command, receive_post, attempt_post, attempt_set_url, attempt_posting,
  attempt_result, answer_posting, attempt_reading, answer_reading, answer_message, attempt_decoding,
}
use gateway_lo_ra.Transceiver.Exchange.{
  attempt, retry, retry_configure, retry_post, expire, finish, settle, exchange_messages,
}
use gateway_lo_ra.Transceiver.Ending.{deactivating}

-- A module that deactivates the context with the flag of a success has an answer to hand over, or
-- its flag `watingForResponse` is set.
abbrev pub is_founded : CellularModule → Bool
is_founded c = elim (deactivating c.transceiver) [
  | none ↦ true
  | some success ↦ not success || (c.new_data_available || c.posting.wating_for_response)
]

abbrev pub is_post : TransceiverState → Bool
is_post (post_http s) = true
is_post _ = false

-- An attempt goes on to the poll in the same state, or is founded.
abbrev is_founded_outcome : Outcome → Bool
is_founded_outcome (done trynig_to_send c) = is_founded c
is_founded_outcome (done _ c) = false
is_founded_outcome (waits c) = is_post c.transceiver

url_founded :
    (i : Inputs) (s : Stepping PostStep) (c : CellularModule)
    → is_founded_outcome (attempt_set_url i s c) ≡ true
unfolding attempt_set_url change_transceiver_state
url_founded i s c = ground arith

posting_founded :
    (i : Inputs) (message : List ℕ) (s : Stepping PostStep) (c : CellularModule)
    → is_founded_outcome (attempt_posting i message s c) ≡ true
unfolding attempt_posting answer_posting attempt_result change_transceiver_state restart_refresh
    send
posting_founded i message s c = ground arith

reading_founded :
    (i : Inputs) (s : Stepping PostStep) (c : CellularModule)
    → is_founded_outcome (attempt_reading i s c) ≡ true
unfolding attempt_reading answer_reading answer_message change_transceiver_state restart_refresh
    start_refresh write_refresh
reading_founded i s c = ground arith

decoding_founded :
    (s : Stepping PostStep) (c : CellularModule) → is_founded_outcome (attempt_decoding s c) ≡ true
unfolding attempt_decoding change_transceiver_state
decoding_founded s c = ground arith

post_founded :
    (i : Inputs) (message : List ℕ) (s : Stepping PostStep) (step : PostStep) (c : CellularModule)
    → s.current_status ≡ step
    → is_founded_outcome (attempt_post i message s c) ≡ true
unfolding attempt_post
post_founded i message s setting_url c e = ground (arith, url_founded i s c)
post_founded i message s posting_data c e = ground (arith, posting_founded i message s c)
post_founded i message s reading_data c e = ground (arith, reading_founded i s c)
post_founded i message s decoding_data c e = ground (arith, decoding_founded s c)

finish_founded :
    (i : Inputs) (o : Outcome)
    → is_founded_outcome o ≡ true
    → ((finish i o).0 ≡ trynig_to_send) × (is_founded (finish i o).1 ≡ true)
unfolding finish expire read_refresh retry retry_post change_transceiver_state write_refresh
finish_founded i (done status c) h = ground arith
finish_founded i (waits c) h = ground arith

founded_call :
    (i : Inputs) (message : List ℕ) (c : CellularModule) (t : TransceiverState)
    → c.transceiver ≡ t
    → is_post t ≡ true
    → is_founded (exchange_messages i false message c).1 ≡ true
unfolding exchange_messages attempt settle
founded_call i message c (post_http s) e h = ground (
  arith,
  post_founded i message s s.current_status c refl,
  finish_founded i (attempt_post i message s c),
)
founded_call i message c transceiver_unavailable e h = ground arith
founded_call i message c (configure_pdp_for_http s) e h = ground arith
founded_call i message c (configure_ssl s) e h = ground arith
founded_call i message c (deactivate_pdp s) e h = ground arith

-- The module behind an attempt.
abbrev module_of : Outcome → CellularModule
module_of (done status c) = c
module_of (waits c) = c

-- The line that a call finds read, whatever it sends before.
abbrev pub next_line : CellularModule → Option (List ℕ)
next_line c = (receive post_buffer_len c).0

abbrev pub is_reading : TransceiverState → Bool
is_reading (post_http s) = elim s.current_status [ reading_data ↦ true | _ ↦ false ]
is_reading _ = false

-- The flag `watingForResponse` is set behind a call only where it was set before, or where the call
-- was asking for the answer and read "CONNECT".
abbrev pub is_announced : CellularModule → CellularModule → Bool
is_announced c c' =
    not c'.posting.wating_for_response
    || (c.posting.wating_for_response
        || (is_reading c.transceiver && is_response (codes "CONNECT") (next_line c)))

read_if_readable-line :
    (size : ℕ) (rx tx : List ℕ) (h : AtHandler)
    → (read_if_readable (read_byte_sized size) rx (record h { tx = tx })).0
      ≡ (read_if_readable (read_byte_sized size) rx h).0
unfolding read_if_readable read_byte_sized
read_if_readable-line size [] tx h = refl
read_if_readable-line size (c ∷ cs) tx h = ground arith

reading_line :
    (i : Inputs) (c : CellularModule)
    → next_line (restart_refresh i (send read_command c)) ≡ next_line c
unfolding receive restart_refresh send read_at_response_sized send_at_command Module.send
    Module.restart_refresh
reading_line i c =
    let h : AtHandler = c.base.power.handler in
    read_if_readable-line post_buffer_len h.rx (h.tx ++ (read_command ++ b'\r' ∷ b'\n' ∷ 0 ∷ [])) h

-- What the attempts do to the flag.
abbrev flag : CellularModule → Bool
flag c = c.posting.wating_for_response

flag-receive_post : (c : CellularModule) → flag (receive_post c).1 ≡ flag c
unfolding receive_post receive
flag-receive_post c = ground arith

url_flag :
    (i : Inputs) (s : Stepping PostStep) (c : CellularModule)
    → flag (module_of (attempt_set_url i s c)) ≡ flag c
unfolding attempt_set_url change_transceiver_state send start_refresh receive_post receive
url_flag i s c = ground arith

posting_flag :
    (i : Inputs) (message : List ℕ) (s : Stepping PostStep) (c : CellularModule)
    → flag (module_of (attempt_posting i message s c)) ≡ flag c
unfolding attempt_posting answer_posting attempt_result change_transceiver_state restart_refresh
    send send_if receive_post receive
posting_flag i message s c = ground arith

decoding_flag :
    (s : Stepping PostStep) (c : CellularModule) → flag (module_of (attempt_decoding s c)) ≡ flag c
unfolding attempt_decoding change_transceiver_state
decoding_flag s c = ground arith

answered_announces :
    (i : Inputs) (s : Stepping PostStep) (line : Option (List ℕ)) (c : CellularModule)
    → flag (module_of (answer_reading i s line c)) ≡ true
    → (flag c || is_response (codes "CONNECT") line) ≡ true
unfolding answer_reading answer_message change_transceiver_state restart_refresh start_refresh
    write_refresh
answered_announces i s none c h = ground arith
answered_announces i s (some line) c h = ground arith

sent_flag :
    (i : Inputs) (c : CellularModule) → flag (restart_refresh i (send read_command c)) ≡ flag c
unfolding restart_refresh send
sent_flag i c = refl

reading_flag :
    (i : Inputs) (s : Stepping PostStep) (c : CellularModule)
    → flag (module_of (attempt_reading i s c)) ≡ true
    → (flag c || is_response (codes "CONNECT") (next_line c)) ≡ true
unfolding attempt_reading receive_post
reading_flag i s c h =
    let c1 = restart_refresh i (send read_command c) in
    ground (
      arith,
      reading_line i c,
      sent_flag i c,
      flag-receive_post c,
      flag-receive_post c1,
      answered_announces i s (next_line c) (receive_post c).1,
      answered_announces i s (next_line c1) (receive_post c1).1,
    )

post_announced :
    (i : Inputs) (message : List ℕ) (s : Stepping PostStep) (step : PostStep) (c : CellularModule)
    → c.transceiver ≡ post_http s
    → s.current_status ≡ step
    → is_announced c (module_of (attempt_post i message s c)) ≡ true
unfolding attempt_post
post_announced i message s setting_url c t e = ground (arith, url_flag i s c)
post_announced i message s posting_data c t e = ground (arith, posting_flag i message s c)
post_announced i message s reading_data c t e = ground (arith, reading_flag i s c)
post_announced i message s decoding_data c t e = ground (arith, decoding_flag s c)

finishing_keeps : (i : Inputs) (o : Outcome) → flag (finish i o).1 ≡ flag (module_of o)
unfolding finish expire read_refresh retry retry_post retry_configure change_transceiver_state
    write_refresh
finishing_keeps i (done status c) = refl
finishing_keeps i (waits c) = ground arith

announced_call :
    (i : Inputs) (message : List ℕ) (c : CellularModule) (t : TransceiverState)
    → c.transceiver ≡ t
    → is_post t ≡ true
    → is_announced c (exchange_messages i false message c).1 ≡ true
unfolding exchange_messages attempt settle
announced_call i message c (post_http s) e h = ground (
  arith,
  post_founded i message s s.current_status c refl,
  finish_founded i (attempt_post i message s c),
  post_announced i message s s.current_status c e refl,
  finishing_keeps i (attempt_post i message s c),
)
announced_call i message c transceiver_unavailable e h = ground arith
announced_call i message c (configure_pdp_for_http s) e h = ground arith
announced_call i message c (configure_ssl s) e h = ground arith
announced_call i message c (deactivate_pdp s) e h = ground arith

-- A call of `exchangeMessages` in `PostHTTP` that goes over to deactivating the context as a success
-- leaves new data announced to the caller, or the static flag `watingForResponse` set; in every other
-- case it goes over as a failure, or not at all. And the flag is set behind a call only where it was
-- set before it, in this exchange or in one before, or where the call was in READING_DATA and read
-- the line "CONNECT", which announces the answer.
pub exchange_messages-is_founded :
    (i : Inputs) (message : List ℕ) (c : CellularModule)
    → is_post c.transceiver ≡ true
    → (is_founded (exchange_messages i false message c).1 ≡ true)
      × (is_announced c (exchange_messages i false message c).1 ≡ true)
exchange_messages-is_founded i message c h =
    (founded_call i message c c.transceiver refl h, announced_call i message c c.transceiver refl h)
