-- ===== src/Ethernet/Delivery.antt =====
-- What Modules/Gateway/GatewayState/SendingMessageThroughEthernet sends, and how it ends.
use gateway_lo_ra.Prelude.{
  ℕ, ◌+◌, ◌≤◌, ◌<◌, ◌≡◌, refl, ap, Bool, true, false, List, [], ◌∷◌, ◌++◌, arith, drop, take, codes,
  sym, ◌∙◌, append_assoc, take-append-drop, take_all, is_empty, length, length-drop, if◌then◌else◌,
  ℤ, pos, negsuc, ◌==◌, ◌&&◌, not,
}
use gateway_lo_ra.Gateway.Show.{show_ℕ}
use gateway_lo_ra.Ethernet.Sending.{
  GatewayStatus, loralora_trying_ethernet, loragnss_trying_ethernet, loralora_trying_mobile_network,
  connecting_to_mobile_network, loragnss_trying_mobile_network, stays, sensing_battery_status,
  Received, bytes, Network, Sending, http_request, whole_request, fall_back, send_loop, progress,
  receive_loop, await_answer, connect_failed, exchange,
}

-- Whether every call of `send` takes a byte at least.
abbrev pub is_taking : List ℤ → Bool
is_taking [] = true
is_taking (negsuc n ∷ results) = false
is_taking (pos n ∷ results) = if n == 0 then false else is_taking results

length-is_empty : (xs : List ℕ) → is_empty xs ≡ true → length xs ≡ 0
length-is_empty [] h = refl
length-is_empty (x ∷ xs) h = ground arith

length-not_empty : (xs : List ℕ) → is_empty xs ≡ false → 1 ≤ length xs
length-not_empty [] h = ground arith
length-not_empty (x ∷ xs) h = omega arith

-- Whether a result of `send` is no error.
abbrev is_no_error : ℤ → Bool
is_no_error (pos n) = true
is_no_error (negsuc n) = false

-- A request that is not empty is taken whole, in one piece or in several ones.
send_loop-whole :
    (results : List ℤ) (request : List ℕ)
    → is_taking results ≡ true
    → length request ≤ length results
    → 1 ≤ length request
    → ((send_loop results request).1 ≡ request) × (is_no_error (send_loop results request).0 ≡ true)
unfolding send_loop
send_loop-whole [] request t l n = absurd (omega arith)
send_loop-whole (negsuc k ∷ results) request t l n = ground arith
send_loop-whole (pos k ∷ results) request t l n = ground (
  arith,
  take-append-drop k request,
  take_all k request,
  length-drop k request,
  length-is_empty (drop k request),
  length-not_empty (drop k request),
  send_loop-whole results (drop k request),
)

-- The bytes of an answer, in this many calls of `recv`.
abbrev pub pieces : List (List ℕ) → List Received
pieces [] = []
pieces (b ∷ bs) = bytes b ∷ pieces bs

receive_loop-pieces :
    (bs : List (List ℕ)) (s : Sending)
    → ((receive_loop (pieces bs) s).next ≡ sensing_battery_status)
      × ((receive_loop (pieces bs) s).sequence_message_number
          ≡ s.sequence_message_number + length bs)
      × ((receive_loop (pieces bs) s).sent ≡ s.sent)
unfolding receive_loop progress
receive_loop-pieces [] s = ground arith
receive_loop-pieces (b ∷ bs) s = ground (arith, receive_loop-pieces bs (progress s))

-- The first line and the headers of a request for a payload of this many bytes, written out.
abbrev before_length : List ℕ
before_length =
    codes "POST /7dafefff-6d11-4c3f-8d2d-eb084d109d4f HTTP/1.1"
    ++ (b'\r' ∷ b'\n' ∷ codes "Host: webhook.site")
    ++ (b'\r' ∷ b'\n' ∷ codes "Content-Type: text/plain")
    ++ (b'\r' ∷ b'\n' ∷ codes "Content-Length: ")

abbrev behind_length : List ℕ
behind_length = b'\r' ∷ b'\n' ∷ (codes "Connection: close" ++ b'\r' ∷ b'\n' ∷ b'\r' ∷ b'\n' ∷ [])

abbrev pub request_head : ℕ → List ℕ
request_head n = before_length ++ (show_ℕ n ++ behind_length)

-- A request that fits in its buffer is the head and then the payload, none of it cut off.
http_request-head :
    (payload : List ℕ)
    → length (request_head (length payload) ++ payload) < 2500
    → http_request payload ≡ request_head (length payload) ++ payload
unfolding http_request
http_request-head payload h =
    let inner = append_assoc (show_ℕ (length payload)) behind_length payload in
    let whole : whole_request payload ≡ request_head (length payload) ++ payload =
      ap (λ t. before_length ++ t) (sym inner) in
    ap (take 2499) whole
    ∙ take_all 2499 (request_head (length payload) ++ payload) (omega (arith, h))

length-http_request : (payload : List ℕ) → 1 ≤ length (http_request payload)
unfolding http_request
length-http_request payload = omega arith

await_answer-pieces :
    (w : Network) (bs : List (List ℕ)) (result : ℤ) (s : Sending)
    → is_no_error result ≡ true
    → w.answers_in_time ≡ true
    → w.answers ≡ pieces bs
    → ((await_answer w result s).next ≡ sensing_battery_status)
      × ((await_answer w result s).sequence_message_number ≡ s.sequence_message_number + length bs)
      × ((await_answer w result s).sent ≡ s.sent)
unfolding await_answer
await_answer-pieces w bs (pos n) s e t a =
    ground (arith, receive_loop-pieces bs s, ap (λ l. receive_loop l s) a)
await_answer-pieces w bs (negsuc n) s e t a = ground arith

exchange-sends :
    (w : Network) (payload : List ℕ) (bs : List (List ℕ)) (s : Sending)
    → w.opens ≡ true
    → w.connects ≡ true
    → is_taking w.sends ≡ true
    → length (http_request payload) ≤ length w.sends
    → w.answers_in_time ≡ true
    → w.answers ≡ pieces bs
    → ((exchange w payload s).sent ≡ s.sent ++ http_request payload)
      × ((exchange w payload s).next ≡ sensing_battery_status)
      × ((exchange w payload s).sequence_message_number ≡ s.sequence_message_number + length bs)
unfolding exchange
exchange-sends w payload bs s o c t l a p =
    let loop = send_loop w.sends (http_request payload) in
    let whole = send_loop-whole w.sends (http_request payload) t l (length-http_request payload) in
    ground (
      arith,
      whole,
      await_answer-pieces w bs loop.0 (record s { sent = s.sent ++ loop.1 }) whole.1 a p,
    )

-- Over a network that opens a socket, connects, takes a byte at least with every call of `send`, in
-- as many calls as the request has bytes, and answers in time, one call delivers the message, where
-- it is short enough for the request to be of less than 2500 bytes: the network has the headers,
-- with the length of the message, and the message behind them, no byte of it lost or sent twice, the
-- gateway goes over to sensing the battery, and the sequence number is higher by the number of
-- pieces in which the answer came.
pub exchange-delivers :
    (w : Network) (payload : List ℕ) (bs : List (List ℕ)) (s : Sending)
    → length (request_head (length payload) ++ payload) < 2500
    → w.opens ≡ true
    → w.connects ≡ true
    → is_taking w.sends ≡ true
    → length (request_head (length payload) ++ payload) ≤ length w.sends
    → w.answers_in_time ≡ true
    → w.answers ≡ pieces bs
    → ((exchange w payload s).sent ≡ s.sent ++ (request_head (length payload) ++ payload))
      × ((exchange w payload s).next ≡ sensing_battery_status)
      × ((exchange w payload s).sequence_message_number ≡ s.sequence_message_number + length bs)
exchange-delivers w payload bs s fits o c t l a p =
    let whole = http_request-head payload fits in
    let enough : length (http_request payload) ≤ length w.sends =
      omega (arith, ap length whole, l) in
    let (sent, next, number) = exchange-sends w payload bs s o c t enough a p in
    (sent ∙ ap (λ r. s.sent ++ r) whole, next, number)

-- Whether a status is that of a message with a position.
abbrev pub is_gnss : GatewayStatus → Bool
is_gnss loragnss_trying_ethernet = true
is_gnss loragnss_trying_mobile_network = true
is_gnss _ = false

-- The updates of the gateway as long as it stays in the state.
unfoldable pub exchanges : List Network → List ℕ → Sending → Sending
exchanges [] payload s = s
exchanges (w ∷ ws) payload s =
    let s' = exchange w payload s in
    let rest = exchanges ws payload s' in elim s'.next [ stays ↦ rest | _ ↦ s' ]

-- Whether the socket is opened and not connected in every one of these calls.
abbrev pub is_refusing : List Network → Bool
is_refusing [] = true
is_refusing (w ∷ ws) = w.opens && (not w.connects && is_refusing ws)

abbrev pub is_trying_ethernet : GatewayStatus → Bool
is_trying_ethernet loralora_trying_ethernet = true
is_trying_ethernet loragnss_trying_ethernet = true
is_trying_ethernet _ = false

-- The same message, of the mobile network.
abbrev pub to_mobile : GatewayStatus → GatewayStatus
to_mobile loralora_trying_ethernet = loralora_trying_mobile_network
to_mobile loragnss_trying_ethernet = loragnss_trying_mobile_network
to_mobile status = status

-- A server that refuses the connection is given up for the mobile network: a message that Ethernet
-- is tried for goes over, from a state that it has not left yet, to the state that connects to the mobile network, with the kind that it
-- has, once 20 calls, with those before, have failed to connect.
pub exchanges-give_up :
    (ws : List Network) (payload : List ℕ) (s : Sending)
    → is_refusing ws ≡ true
    → is_trying_ethernet s.current_status ≡ true
    → s.next ≡ stays
    → 20 ≤ s.connection_retries + length ws
    → 1 ≤ length ws
    → (exchanges ws payload s).next ≡ connecting_to_mobile_network (to_mobile s.current_status)
unfolding exchanges exchange connect_failed fall_back
exchanges-give_up [] payload s r t e l n = absurd (omega arith)
exchanges-give_up (w ∷ ws) payload s r t e l n = ground (
  arith,
  exchanges-give_up ws payload (record s { connection_retries = s.connection_retries + 1 }),
)
