-- ===== src/Gateway/Waiting.antt =====
-- Modules/Gateway/GatewayState/WaitingForMessage: the fragments of a LoRa message, put together.
use gateway_lo_ra.Prelude.{
  ℕ, ℤ, ◌+◌, ◌-◌, Bool, true, false, ◌&&◌, List, [], ◌∷◌, ◌++◌, Option, none, some, ◌==◌, ltb, leb,
  if◌then◌else◌, length, take, drop, replicate, is_empty, c_string,
}
use gateway_lo_ra.Timer
use gateway_lo_ra.Timer.{Delay}
use gateway_lo_ra.Messages.Base.{Primitives, Memory, text}
use gateway_lo_ra.Messages.Chain.{process_lora_message}

-- `maxIterations`
abbrev pub max_iterations : ℕ
max_iterations = 100

-- The most fragments that are inserted before the buffer is cleared.
abbrev pub max_inserts : ℕ
max_inserts = 51

-- `TIMEOUT` is an argument of the definitions that use it; the static variables of
-- `waitForMessage`; the delay; `processedMessageReceived` is the message of the handlers' memory.
pub record WaitingForMessage : Type 0 where
  pub message_received : Bool
  pub accumulated : List ℕ
  pub full_message : List ℕ
  pub first_packet_received : Bool
  pub first_entry : Bool
  pub string_insert_count : ℕ
  pub current_rssi : ℤ
  pub time_out : Delay
  pub memory : Memory

abbrev is_bar : ℕ → Bool
is_bar c = c == b'|'

abbrev begins_with_bar : List ℕ → Bool
begins_with_bar [] = false
begins_with_bar (c ∷ cs) = is_bar c

abbrev before : ℕ → Option (List ℕ × List ℕ) → Option (List ℕ × List ℕ)
before c none = none
before c (some (s, r)) = some (c ∷ s, r)

-- `std::search` for "||": what stands before the first one, and what behind it.
unfoldable pub search_delimiter : List ℕ → Option (List ℕ × List ℕ)
search_delimiter [] = none
search_delimiter (c ∷ cs) =
    let rest = search_delimiter cs in
    if is_bar c && begins_with_bar cs then some ([], drop 1 cs) else before c rest

-- The bytes of one `read`, not none: the result tells whether the call ends here.
unfoldable pub insert_fragment : ℤ → List ℕ → WaitingForMessage → Bool × WaitingForMessage
insert_fragment rssi bytes w =
    let accumulated = w.accumulated ++ bytes in
    if ltb max_inserts (w.string_insert_count + 1)
    then (true, record w { accumulated = []; string_insert_count = 0; message_received = false })
    else (
      false,
      elim (search_delimiter accumulated) [
        | none ↦ record w {
          accumulated = accumulated;
          string_insert_count = w.string_insert_count + 1;
        }
        | some found ↦ record w {
          full_message = found.0;
          accumulated = found.1;
          string_insert_count = 0;
          message_received = true;
          current_rssi = rssi;
        }
      ],
    )

-- "Leer los datos disponibles": what each `read` gives, until none is available.
unfoldable pub read_fragments : ℤ → ℕ → List (List ℕ) → WaitingForMessage → WaitingForMessage
read_fragments rssi iterations [] w = w
read_fragments rssi iterations (bytes ∷ reads) w =
    let (ends, w') = insert_fragment rssi bytes w in
    let skipped = read_fragments rssi iterations reads w in
    let rest = read_fragments rssi (iterations + 1) reads w' in
    if leb max_iterations iterations
    then w
    else if is_empty bytes
    then skipped
    else if ends
    then w'
    else if leb max_iterations (iterations + 1)
    then record w' { message_received = false }
    else rest

-- What a call finds: the tick, whether `LoRaModule->begin` succeeds, and the reads and the strength
-- of a packet, if `parsePacket` has one.
pub record Reception : Type 0 where
  pub now : ℕ
  pub begins : Bool
  pub packet : Option (List (List ℕ))
  pub rssi : ℤ

-- The first call starts the time-out and the radio: the result tells whether the call goes on.
unfoldable pub start_waiting : ℕ → Reception → WaitingForMessage → Bool × WaitingForMessage
start_waiting duration i w =
    let started = Timer.restart i.now (Timer.write duration w.time_out) in
    if w.first_entry
    then (if i.begins
        then (true, record w { time_out = started; first_entry = false })
        else (false, record w { time_out = started }))
    else (true, w)

-- `if (messageReceived == false)`
unfoldable pub receive_packet : Reception → WaitingForMessage → WaitingForMessage
receive_packet i w = elim i.packet [
  | none ↦ w
  | some reads ↦ read_fragments i.rssi 0 reads (
      if w.first_packet_received
      then w
      else record w { time_out = Timer.restart i.now w.time_out; first_packet_received = true })
]

-- `strncpy` of the message to the 2048 bytes of `processedMessageReceived`
abbrev pub processed_block : List ℕ → List ℕ
processed_block full = let s = take 2047 (c_string full) in s ++ replicate (2048 - length s) 0

-- The branch that a complete message takes, up to `parseReceptedLoRaMessage`: the text to be parsed.
unfoldable pub process_full_message :
    Primitives → WaitingForMessage → Option (List ℕ) × WaitingForMessage
process_full_message p w =
    let m = record (w.memory) { message = processed_block w.full_message } in
    let (processed, m') = process_lora_message p 2048 m in
    if is_empty w.full_message
    then (none, record w { accumulated = []; message_received = false })
    else if processed
    then (
      some (text m'),
      record w {
        memory = m';
        message_received = false;
        accumulated = [];
        string_insert_count = 0;
        full_message = [];
      },
    )
    else (none, record w { memory = m'; message_received = false })

-- `WaitingForMessage::waitForMessage`, up to `parseReceptedLoRaMessage`
unfoldable pub wait_for_message :
    Primitives → ℕ → Reception → WaitingForMessage → Option (List ℕ) × WaitingForMessage
wait_for_message p duration i w =
    let (go_on, w') = start_waiting duration i w in
    if go_on
    then (if w'.message_received then process_full_message p w' else (none, receive_packet i w'))
    else (none, w')
