-- ===== src/Transceiver/Commands.antt =====
-- The command with which Modules/CellularModule/TransceiverState/PostHTTP announces a message, and
-- the modem's answer to it.
use gateway_lo_ra.Prelude.{
  ℕ, ◌+◌, ◌^◌, ◌<◌, ◌≤◌, ◌≡◌, ◌↔◌, refl, List, ◌∷◌, ◌++◌, some, arith, codes, length, length-append,
  ltb, starts_with, ◌==◌, ◌&&◌, if◌then◌else◌, ℤ, pos, scan_char, drop,
}
use gateway_lo_ra.Gateway.Show.{show_ℕ}
use gateway_lo_ra.Gateway.Decimal.{scan_int-show_ℕ, scan_int-show_ℕ_end, length-show_ℕ}
use gateway_lo_ra.Transceiver.Post.{
  post_ok, post_failure, post_command, check_http_post_result, scan_post_result,
}

-- `StringToSend2`: AT_CMD_HTTP_POST_LEN + 10 bytes
abbrev pub string_to_send2_size : ℕ
string_to_send2_size = 23

-- The command that announces the message fits in its buffer, with the byte 0 that ends it, exactly
-- when the message is shorter than 1000 bytes.
pub post_command-fits :
    (message : List ℕ)
    → (length (post_command message) + 1 ≤ string_to_send2_size) ↔ (length message < 1000)
unfolding post_command
post_command-fits message = ground (
  arith,
  length-append (show_ℕ (length message)) (codes ",80,80"),
  length-show_ℕ (length message),
)

-- "+QHTTPPOST: result,status,length" as the modem sends it
abbrev pub post_answer : ℕ → ℕ → ℕ → List ℕ
post_answer result status len =
    codes "+QHTTPPOST: " ++ (show_ℕ result ++ b',' ∷ (show_ℕ status ++ b',' ∷ show_ℕ len))

scan_post_result-answer :
    (result status len : ℕ)
    → result < 2 ^ 31
    → status < 2 ^ 31
    → len < 2 ^ 31
    → scan_post_result (drop 12 (post_answer result status len)) ≡ some (pos result, pos len)
unfolding scan_post_result scan_char
scan_post_result-answer result status len hr hs hl = ground (
  arith,
  scan_int-show_ℕ result (b',' ∷ (show_ℕ status ++ b',' ∷ show_ℕ len)) hr refl,
  scan_int-show_ℕ status (b',' ∷ show_ℕ len) hs refl,
  scan_int-show_ℕ_end len hl,
)

-- The answer of the modem to a post is taken as a success exactly when its result is 0 and the
-- length of the server's answer below 256, whatever the status that the server returned; the length
-- is kept. The three numbers are those of the line, below 2^31.
pub check_http_post_result-answer :
    (result status len : ℕ) (kept : ℤ)
    → result < 2 ^ 31
    → status < 2 ^ 31
    → len < 2 ^ 31
    → check_http_post_result (post_answer result status len) kept
      ≡ (if result == 0 && ltb len 256 then post_ok else post_failure, pos len)
unfolding check_http_post_result starts_with
check_http_post_result-answer result status len kept hr hs hl =
    ground (arith, scan_post_result-answer result status len hr hs hl)
