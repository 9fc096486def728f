-- ===== src/Exchanging/Progress.antt =====
-- How Modules/Gateway/GatewayState/ExchangingMessages moves the gateway's chain on, and how it ends.
use gateway_lo_ra.Prelude.{
  ℕ, ◌+◌, ◌≡◌, ◌⊎◌, inl, inr, refl, Bool, true, false, List, [], ◌∷◌, Option, none, some, arith,
  if◌then◌else◌, ◌++◌, ◌≤◌, length,
}
use gateway_lo_ra.AtHandler.{is_terminator}
use gateway_lo_ra.Power.State.{Inputs}
use gateway_lo_ra.Transceiver.State.{
  TransceiverStatus, unavaible, trynig_to_send, fail_to_activate_pdp, send_ok, unavaible_to_send,
  error_null_pointer, CellularModule,
}
use gateway_lo_ra.Transceiver.Exchange.{exchange_messages, enable_transceiver}
use gateway_lo_ra.Transceiver.Ending.{silent, silent_call, IsReading, IsReading-call, ending_call}
use gateway_lo_ra.Exchanging.Answer.{
  ServerAnswer, corrupted, refused, incomplete, understood, silenced, read_answer,
}
use gateway_lo_ra.Exchanging.State.{
  Exchanging, leave, progress, answer, receive_answer, react, exchange,
}

-- The chain is as it was.
abbrev pub IsKept : Exchanging → Exchanging → Type 0
IsKept x x' =
    (x'.sequence_message_number ≡ x.sequence_message_number)
    × (x'.prev_chain_hash ≡ x.prev_chain_hash)

-- The chain has moved on by one message, and the exchange is over.
abbrev pub IsMovedOn : Exchanging → Exchanging → Type 0
IsMovedOn x x' =
    (x'.sequence_message_number ≡ x.sequence_message_number + 1)
    × (x'.prev_chain_hash ≡ x.curr_chain_hash)
    × (x'.is_over ≡ true)

answer_chain :
    (a : ServerAnswer) (x : Exchanging) → IsKept x (answer a x) ⊎ IsMovedOn x (answer a x)
unfolding answer leave progress
answer_chain corrupted x = inl (refl, refl)
answer_chain refused x = inr (refl, refl, refl)
answer_chain incomplete x = inr (refl, refl, refl)
answer_chain (understood l m) x = inr (refl, refl, refl)
answer_chain (silenced l n) x = inr (refl, refl, refl)

receive_answer_chain :
    (payload : Option (List ℕ)) (x : Exchanging)
    → IsKept x (receive_answer payload x) ⊎ IsMovedOn x (receive_answer payload x)
unfolding receive_answer leave
receive_answer_chain none x = inl (refl, refl)
receive_answer_chain (some payload) x =
    answer_chain (read_answer payload)
      (record x { cellular = record (x.cellular) { received_message = payload } })

react_chain :
    (decode_jwt : List ℕ → Option (List ℕ)) (status : TransceiverStatus) (new_data : Bool)
    (x : Exchanging)
    → x.cellular.new_data_available ≡ new_data
    → IsKept x (react decode_jwt status x) ⊎ IsMovedOn x (react decode_jwt status x)
unfolding react leave
react_chain d unavaible b x e = inl (refl, refl)
react_chain d trynig_to_send b x e = inl (refl, refl)
react_chain d fail_to_activate_pdp b x e = inl (refl, refl)
react_chain d unavaible_to_send b x e = inl (refl, refl)
react_chain d error_null_pointer b x e = inl (refl, refl)
react_chain d send_ok false x e = inl (ground arith)
react_chain d send_ok true x e =
    ground (arith, receive_answer_chain (d x.cellular.received_message) x)

-- A call of `exchangeMessages` leaves the sequence number and the hash of the chain as they are, or
-- moves both on by one message and is the last one of the exchange, whatever the modem sends and
-- whatever the decoding of the token makes of it: no message is counted twice.
pub exchange-chain :
    (decode_jwt : List ℕ → Option (List ℕ)) (i : Inputs) (x : Exchanging)
    → IsKept x (exchange decode_jwt i x) ⊎ IsMovedOn x (exchange decode_jwt i x)
unfolding exchange
exchange-chain d i x =
    let c : CellularModule = if x.is_enabled then x.cellular else enable_transceiver x.cellular in
    let r = exchange_messages i false c.received_message c in
    react_chain d r.0 r.1.new_data_available (record x { cellular = r.1; is_enabled = true }) refl

-- The calls of the gateway's `update` as long as the state is this one.
unfoldable pub exchanges : (List ℕ → Option (List ℕ)) → List Inputs → Exchanging → Exchanging
exchanges decode_jwt [] x = x
exchanges decode_jwt (i ∷ is) x =
    let x' = exchange decode_jwt i x in
    let rest = exchanges decode_jwt is x' in if x'.is_over then x' else rest

exchange-silent :
    (decode_jwt : List ℕ → Option (List ℕ)) (i : Inputs) (success : Bool) (x : Exchanging)
    → x.is_enabled ≡ true
    → x.is_over ≡ false
    → silent x.cellular ≡ some success
    → ((exchange decode_jwt i x).is_enabled ≡ true)
      × ((exchange decode_jwt i x).is_over ≡ false)
      × (silent (exchange decode_jwt i x).cellular ≡ some success)
unfolding exchange react
exchange-silent d i success x enabled over h =
    let c : CellularModule = x.cellular in
    ground (arith, silent_call i c.received_message success c c.transceiver refl h)

-- A gateway that is exchanging messages stays in that state for ever when the modem has gone silent
-- while the context is deactivated, also where the answer of the server is there already: no number
-- of updates, at any ticks, ends the exchange.
pub exchanges-never_over :
    (decode_jwt : List ℕ → Option (List ℕ)) (is : List Inputs) (success : Bool) (x : Exchanging)
    → x.is_enabled ≡ true
    → x.is_over ≡ false
    → silent x.cellular ≡ some success
    → ((exchanges decode_jwt is x).is_over ≡ false)
      × (silent (exchanges decode_jwt is x).cellular ≡ some success)
unfolding exchanges
exchanges-never_over d [] success x enabled over h = (over, h)
exchanges-never_over d (i ∷ is) success x enabled over h =
    let one = exchange-silent d i success x enabled over h in
    ground (arith, one, exchanges-never_over d is success (exchange d i x) one.0 one.1 one.2)

exchange-IsReading :
    (decode_jwt : List ℕ → Option (List ℕ)) (i : Inputs) (b : ℕ) (line rx : List ℕ) (success : Bool)
    (x : Exchanging)
    → x.is_enabled ≡ true
    → x.is_over ≡ false
    → IsReading line (b ∷ rx) success x.cellular
    → is_terminator b ≡ false
    → length line ≤ 100
    → ((exchange decode_jwt i x).is_enabled ≡ true)
      × ((exchange decode_jwt i x).is_over ≡ false)
      × IsReading (line ++ b ∷ []) rx success (exchange decode_jwt i x).cellular
unfolding exchange react
exchange-IsReading d i b line rx success x enabled over h t l =
    let c : CellularModule = x.cellular in
    ground (arith, IsReading-call i c.received_message b line rx success c c.transceiver refl h t l)

-- An exchange that is over: its `enableTransceiver` and `newDataAvailable` are cleared.
abbrev pub IsEnded : Exchanging → Type 0
IsEnded x = (x.is_over ≡ true) × (x.is_enabled ≡ false) × (x.cellular.new_data_available ≡ false)

leave-IsEnded : (x : Exchanging) → IsEnded (leave x)
unfolding leave
leave-IsEnded x = (refl, refl, refl)

answer-IsEnded : (a : ServerAnswer) (x : Exchanging) → IsEnded (answer a x)
unfolding answer
answer-IsEnded corrupted x = leave-IsEnded x
answer-IsEnded refused x = leave-IsEnded (progress x)
answer-IsEnded incomplete x = leave-IsEnded (progress x)
answer-IsEnded (understood l m) x = leave-IsEnded (progress x)
answer-IsEnded (silenced l n) x = leave-IsEnded (progress x)

receive_answer-IsEnded :
    (payload : Option (List ℕ)) (x : Exchanging) → IsEnded (receive_answer payload x)
unfolding receive_answer
receive_answer-IsEnded none x = leave-IsEnded x
receive_answer-IsEnded (some payload) x =
    answer-IsEnded (read_answer payload)
      (record x { cellular = record (x.cellular) { received_message = payload } })

react-IsEnded :
    (decode_jwt : List ℕ → Option (List ℕ)) (success : Bool) (x : Exchanging)
    → IsEnded (react decode_jwt (if success then send_ok else unavaible_to_send) x)
unfolding react
react-IsEnded d false x = leave-IsEnded x
react-IsEnded d true x =
    ground (arith, leave-IsEnded x, receive_answer-IsEnded (d x.cellular.received_message) x)

exchange-IsEnded :
    (decode_jwt : List ℕ → Option (List ℕ)) (i : Inputs) (rx : List ℕ) (success : Bool)
    (x : Exchanging)
    → x.is_enabled ≡ true
    → IsReading (b'O' ∷ b'K' ∷ []) (b'\r' ∷ rx) success x.cellular
    → IsEnded (exchange decode_jwt i x)
unfolding exchange
exchange-IsEnded d i rx success x enabled h =
    let c : CellularModule = x.cellular in
    let r = exchange_messages i false c.received_message c in
    ground (
      arith,
      ending_call i c.received_message rx success c c.transceiver refl h,
      react-IsEnded d success (record x { cellular = r.1; is_enabled = true }),
    )

-- A gateway whose modem answers OK to the deactivation of the context ends the exchange with the
-- third update, whether the post was a success or not and whatever the server's answer is: it goes
-- over to sensing the battery, its static `enableTransceiver` is cleared, so the next exchange
-- enables the transceiver again, and no new data are left announced.
pub exchanges-end :
    (decode_jwt : List ℕ → Option (List ℕ)) (i j k : Inputs) (rx : List ℕ) (success : Bool)
    (x : Exchanging)
    → x.is_enabled ≡ true
    → x.is_over ≡ false
    → IsReading [] (b'O' ∷ b'K' ∷ b'\r' ∷ rx) success x.cellular
    → IsEnded (exchanges decode_jwt (i ∷ j ∷ k ∷ []) x)
unfolding exchanges
exchanges-end d i j k rx success x enabled over h =
    let x1 = exchange d i x in
    let x2 = exchange d j x1 in
    let one =
      exchange-IsReading d i b'O' [] (b'K' ∷ b'\r' ∷ rx) success x enabled over h refl
        (omega arith) in
    let two =
      exchange-IsReading d j b'K' (b'O' ∷ []) (b'\r' ∷ rx) success x1 one.0 one.1 one.2 refl
        (omega arith) in
    ground (arith, one, two, exchange-IsEnded d k rx success x2 two.0 two.2)
