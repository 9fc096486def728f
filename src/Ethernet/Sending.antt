-- ===== src/Ethernet/Sending.antt =====
-- Modules/Gateway/GatewayState/SendingMessageThroughEthernet: a message is posted over Ethernet.
-- The network stack is a parameter: what its calls return is an argument.
use gateway_lo_ra.Prelude.{
  ℕ, ◌+◌, Bool, List, [], ◌∷◌, ◌++◌, codes, take, drop, is_empty, length, leb, if◌then◌else◌, ℤ,
  pos, negsuc, ◌==◌,
}
use gateway_lo_ra.Gateway.Show.{show_ℕ}

-- `gatewayStatus_t`
pub data GatewayStatus : Type 0 where
  wating_for_a_message parse_error : GatewayStatus
  loralora_trying_ethernet loragnss_trying_ethernet : GatewayStatus
  loralora_trying_mobile_network loragnss_trying_mobile_network : GatewayStatus

-- The state that the gateway is changed to, or that it stays in this one.
pub data Next : Type 0 where
  stays sensing_battery_status : Next
  connecting_to_mobile_network : GatewayStatus → Next

-- What one call of `recv` returns: the bytes, or a negative result.
pub data Received : Type 0 where
  bytes : List ℕ → Received
  recv_error : Received

-- What the network stack returns in one call of the state: whether `open` and `connect` return 0,
-- the results of `send`, whether data are available before the time is out, and what is received
-- until nothing is available any more.
pub record Network : Type 0 where
  pub opens : Bool
  pub connects : Bool
  pub sends : List ℤ
  pub answers_in_time : Bool
  pub answers : List Received

-- `SendingMessageThroughEthernet`, with the fields of the gateway that it changes and the bytes
-- that the network took.
pub record Sending : Type 0 where
  pub current_status : GatewayStatus
  pub connection_retries : ℕ
  pub sequence_message_number : ℕ
  pub prev_chain_hash : List ℕ
  pub curr_chain_hash : List ℕ
  pub sent : List ℕ
  pub next : Next

-- `MAX_RETRIES`, and `HTTP_REQUEST_BUFFER_SIZE`
abbrev pub max_retries : ℕ
max_retries = 20

abbrev pub http_request_buffer_size : ℕ
http_request_buffer_size = 2500

abbrev crlf : List ℕ
crlf = b'\r' ∷ b'\n' ∷ []

-- The request with its headers, whole.
abbrev pub whole_request : List ℕ → List ℕ
whole_request payload =
    codes "POST /7dafefff-6d11-4c3f-8d2d-eb084d109d4f HTTP/1.1"
    ++ (crlf
        ++ (codes "Host: webhook.site"
            ++ (crlf
                ++ (codes "Content-Type: text/plain"
                    ++ (crlf
                        ++ (codes "Content-Length: "
                            ++ (show_ℕ (length payload)
                                ++ (crlf
                                    ++ (codes "Connection: close"
                                        ++ (crlf ++ (crlf ++ payload)))))))))))

-- `httpRequest`, cut to its buffer
unfoldable pub http_request : List ℕ → List ℕ
http_request payload = take 2499 (whole_request payload)

-- The mobile network is tried in place of Ethernet; no other status changes the state.
unfoldable pub fall_back : Sending → Sending
fall_back s = elim s.current_status [
  | loralora_trying_ethernet ↦ record s {
    current_status = loralora_trying_mobile_network;
    next = connecting_to_mobile_network loralora_trying_mobile_network;
  }
  | loragnss_trying_ethernet ↦ record s {
    current_status = loragnss_trying_mobile_network;
    next = connecting_to_mobile_network loragnss_trying_mobile_network;
  }
  | _ ↦ s
]

-- The loop over `send`: its last result, and the bytes that the network took. A list of results
-- that ends stands for calls that return 0.
unfoldable pub send_loop : List ℤ → List ℕ → ℤ × List ℕ
send_loop [] remaining = (pos 0, [])
send_loop (negsuc n ∷ results) remaining = (negsuc n, [])
send_loop (pos n ∷ results) remaining =
    let (result, sent) = send_loop results (drop n remaining) in
    if n == 0
    then (pos 0, [])
    else if is_empty (drop n remaining)
    then (pos n, take n remaining)
    else (result, take n remaining ++ sent)

-- `progressOnHashChain ()` and `increaseSequenceNumber ()`
unfoldable pub progress : Sending → Sending
progress s = record s {
  prev_chain_hash = s.curr_chain_hash;
  sequence_message_number = s.sequence_message_number + 1;
}

-- The loop over `recv`, and what follows it.
unfoldable pub receive_loop : List Received → Sending → Sending
receive_loop [] s = record s { next = sensing_battery_status }
receive_loop (bytes b ∷ answers) s = receive_loop answers (progress s)
receive_loop (recv_error ∷ answers) s = fall_back s

-- What follows the loop over `send`.
unfoldable pub await_answer : Network → ℤ → Sending → Sending
await_answer w (negsuc n) s = fall_back s
await_answer w (pos n) s = if w.answers_in_time then receive_loop w.answers s else fall_back s

-- `connect` has failed.
unfoldable pub connect_failed : Sending → Sending
connect_failed s =
    if leb max_retries (s.connection_retries + 1)
    then fall_back (record s { connection_retries = s.connection_retries + 1 })
    else record s { connection_retries = s.connection_retries + 1 }

-- `exchangeMessagesThroughEthernet`
unfoldable pub exchange : Network → List ℕ → Sending → Sending
exchange w payload s =
    let (result, sent) = send_loop w.sends (http_request payload) in
    if w.opens
    then (if w.connects
        then await_answer w result (record s { sent = s.sent ++ sent })
        else connect_failed s)
    else fall_back s
