-- ===== src/Transceiver/Post.antt =====
-- Modules/CellularModule/TransceiverState/PostHTTP: the post of the message and its answer.
use gateway_lo_ra.Prelude.{
  ℕ, true, false, ◌&&◌, ◌||◌, List, [], ◌∷◌, ◌++◌, Option, none, some, codes, starts_with, drop,
  take, length, is_empty, ltb, eqb_ℤ, ltb_ℤ, ℤ, pos, negsuc, scan_int, scan_char, ◌>>=◌,
  if◌then◌else◌,
}
use gateway_lo_ra.Power.State.{Inputs, is_response}
use gateway_lo_ra.Gateway.Show.{show_ℕ}
use gateway_lo_ra.Transceiver.State.{
  trynig_to_send, PostStep, setting_url, posting_data, reading_data, decoding_data, Stepping,
  post_http, Posting, CellularModule, fresh_deactivate, change_transceiver_state, send, send_if,
  receive, restart_refresh, start_refresh,
}
use gateway_lo_ra.Transceiver.Configure.{Outcome, done, waits, ok_response}

-- `BUFFER_LEN`, `URL`, `INPUT_TIMEOUT` and `RESPONSE_TIMEOUT`, the confirmation
abbrev pub post_buffer_len : ℕ
post_buffer_len = 256

abbrev pub url : List ℕ
url = codes "https://intent-lion-loudly.ngrok-free.app/api/canal/envio"

abbrev pub confirmation_to_send : List ℕ
confirmation_to_send = 26 ∷ []

abbrev pub connect_response : List ℕ
connect_response = codes "CONNECT"

-- `StringToSend1`, `StringToSend2` and `StringToSend3`
abbrev pub set_url_command : List ℕ
set_url_command = codes "AT+QHTTPURL=57,80"

unfoldable pub post_command : List ℕ → List ℕ
post_command message = codes "AT+QHTTPPOST=" ++ (show_ℕ (length message) ++ codes ",80,80")

abbrev pub read_command : List ℕ
read_command = codes "AT+QHTTPREAD=80"

-- `PostResult_t`
pub data PostResult : Type 0 where
  post_ok post_failure keep_trying_to_post : PostResult

-- The result and the length of the answer, where `sscanf` finds the three numbers.
unfoldable pub scan_post_result : List ℕ → Option (ℤ × ℤ)
scan_post_result cs = do
  (result, rest) ← scan_int cs
  rest ← scan_char b',' rest
  (status, rest) ← scan_int rest
  rest ← scan_char b',' rest
  (data_len, rest) ← scan_int rest
  some (result, data_len)

-- `checkHTTPPostResult`, with what it leaves in `dataLen`: -1 where a number is missing.
unfoldable pub check_http_post_result : List ℕ → ℤ → PostResult × ℤ
check_http_post_result response data_len =
    if starts_with (codes "+QHTTPPOST: ") response
    then elim (scan_post_result (drop 12 response)) [
      | none ↦ (post_failure, negsuc 0)
      | some (result, len) ↦ (
        if eqb_ℤ result (pos 0) && (ltb_ℤ (negsuc 0) len && ltb_ℤ len (pos post_buffer_len))
            then post_ok
            else post_failure,
        len,
      )
    ]
    else (keep_trying_to_post, data_len)

-- `StringToBeRead[dataLen] = '\0'` on a line: at a negative index the write is outside of it.
abbrev pub cut_at : ℤ → List ℕ → List ℕ
cut_at (pos n) line = take n line
cut_at (negsuc n) line = line

abbrev pub keep_line : Option (List ℕ) → Posting → Posting
keep_line none p = p
keep_line (some line) p = record p { string_to_be_read = line }

-- `ATHandler->readATResponse` into the static buffer.
unfoldable pub receive_post : CellularModule → Option (List ℕ) × CellularModule
receive_post c =
    let (line, c') = receive post_buffer_len c in
    (line, record c' { posting = keep_line line c'.posting })

-- SETTING_URL
unfoldable pub attempt_set_url : Inputs → Stepping PostStep → CellularModule → Outcome
attempt_set_url i s c =
    let c1 = if s.ready_to_send then start_refresh i 10000 (send set_url_command c) else c in
    let (line, c2) = receive_post c1 in
    if is_response connect_response line
    then waits (
        change_transceiver_state (post_http (record s { ready_to_send = false }))
          (record (send confirmation_to_send (send url c2)) {
            posting = record (c2.posting) { url_set = true };
          }))
    else if is_response ok_response line && c2.posting.url_set
    then waits (
        change_transceiver_state
          (post_http (record { ready_to_send = true; attempts = 0; current_status = posting_data }))
          (record c2 { posting = record (c2.posting) { url_set = false } }))
    else waits (change_transceiver_state (post_http (record s { ready_to_send = false })) c2)

-- POSTING_DATA, once a line is there that is neither CONNECT nor OK
unfoldable pub attempt_result : Inputs → Stepping PostStep → List ℕ → CellularModule → Outcome
attempt_result i s line c =
    let (result, data_len) = check_http_post_result line c.posting.data_len in
    let c' = record c { posting = record (c.posting) { data_len = data_len } } in
    elim result [
      | post_ok ↦ done trynig_to_send (
          change_transceiver_state
            (post_http
              (record { ready_to_send = true; attempts = 0; current_status = reading_data }))
            (restart_refresh i c'))
      | _ ↦ waits (change_transceiver_state (post_http (record s { ready_to_send = false })) c')
    ]

-- POSTING_DATA, behind the read
unfoldable pub answer_posting :
    Inputs → List ℕ → Stepping PostStep → Option (List ℕ) → CellularModule → Outcome
answer_posting i message s none c =
    waits (change_transceiver_state (post_http (record s { ready_to_send = false })) c)
answer_posting i message s (some line) c =
    let c' = change_transceiver_state (post_http (record s { ready_to_send = false })) c in
    if is_response connect_response (some line)
    then done trynig_to_send (restart_refresh i (send confirmation_to_send (send message c')))
    else if is_response ok_response (some line)
    then done trynig_to_send (restart_refresh i c')
    else attempt_result i s line c

-- POSTING_DATA
unfoldable pub attempt_posting : Inputs → List ℕ → Stepping PostStep → CellularModule → Outcome
attempt_posting i message s c =
    let (line, c') = receive_post (send_if s.ready_to_send (post_command message) c) in
    answer_posting i message s line c'

-- READING_DATA, the answer itself
unfoldable pub answer_message : Inputs → Stepping PostStep → List ℕ → CellularModule → Outcome
answer_message i s line c = done trynig_to_send (
    change_transceiver_state
      (post_http (record { ready_to_send = false; attempts = 0; current_status = decoding_data }))
      (restart_refresh i (record c {
        posting = record (c.posting) {
          string_to_be_read = cut_at c.posting.data_len line;
          wating_for_response = false;
        };
      })))

-- READING_DATA, behind the read: CONNECT announces the answer, and the next line is the answer.
unfoldable pub answer_reading :
    Inputs → Stepping PostStep → Option (List ℕ) → CellularModule → Outcome
answer_reading i s none c =
    waits (change_transceiver_state (post_http (record s { ready_to_send = false })) c)
answer_reading i s (some line) c =
    let c' = change_transceiver_state (post_http (record s { ready_to_send = false })) c in
    if c.posting.wating_for_response
    then answer_message i s line c
    else if is_response connect_response (some line)
    then done trynig_to_send (
        start_refresh i 5000
          (record c' { posting = record (c'.posting) { wating_for_response = true } }))
    else waits c'

-- READING_DATA
unfoldable pub attempt_reading : Inputs → Stepping PostStep → CellularModule → Outcome
attempt_reading i s c =
    let c1 = if s.ready_to_send then restart_refresh i (send read_command c) else c in
    let (line, c') = receive_post c1 in answer_reading i s line c'

-- DECODING_DATA
unfoldable pub attempt_decoding : Stepping PostStep → CellularModule → Outcome
attempt_decoding s c =
    if ltb 256 (length c.posting.string_to_be_read) || is_empty c.posting.string_to_be_read
    then done trynig_to_send (
        change_transceiver_state
          (post_http (record s { ready_to_send = true; current_status = reading_data })) c)
    else done trynig_to_send (
        change_transceiver_state (fresh_deactivate true)
          (record c { new_data_available = true; received_message = c.posting.string_to_be_read }))

-- `PostHTTP::exchangeMessages`
unfoldable pub attempt_post : Inputs → List ℕ → Stepping PostStep → CellularModule → Outcome
attempt_post i message s c = elim s.current_status [
  | setting_url ↦ attempt_set_url i s c
  | posting_data ↦ attempt_posting i message s c
  | reading_data ↦ attempt_reading i s c
  | decoding_data ↦ attempt_decoding s c
]
