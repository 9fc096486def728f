-- ===== src/Gateway/Ack.antt =====
-- Modules/Gateway/GatewayState/SendingAck: the acknowledgement of a LoRa message, in chunks.
use gateway_lo_ra.Prelude.{
  ℕ, ◌+◌, ◌-◌, ◌%◌, ◌^◌, Bool, true, false, not, ◌||◌, List, [], ◌∷◌, ◌++◌, ltb, if◌then◌else◌,
  length, take, drop, codes, ℤ,
}
use gateway_lo_ra.Timer
use gateway_lo_ra.Timer.{Delay}
use gateway_lo_ra.Messages.Base.{Primitives, Memory, text, write_message}
use gateway_lo_ra.Messages.Chain.{prepare_lora_message}
use gateway_lo_ra.Gateway.Show.{show_ℤ}

abbrev pub backoff_time : ℕ
backoff_time = 100

abbrev pub max_chunk_size : ℕ
max_chunk_size = 255

abbrev pub fly_time : ℕ
fly_time = 1000

abbrev pub max_ack_send_tries : ℕ
max_ack_send_tries = 3

-- The static variables of `sendAcknowledgement`, of which `buffer` is the message of the handlers'
-- memory; the delay; the packets that the radio was given; whether the state was changed to
-- `ConnectingEthernet`.
pub record SendingAck : Type 0 where
  pub memory : Memory
  pub first_chunk_sent : Bool
  pub first_delay_passed : Bool
  pub message_formatted : Bool
  pub first_entry : Bool
  pub string_index : ℕ
  pub number_of_ack_sendings : ℕ
  pub delay : Delay
  pub packets : List (List ℕ)
  pub to_connecting_ethernet : Bool

-- "Inicialización del retardo de backoff"
unfoldable pub start_back_off : ℕ → SendingAck → SendingAck
start_back_off now a =
    if a.first_entry
    then record a {
      delay = Timer.restart now (Timer.write backoff_time a.delay);
      first_entry = false;
    }
    else a

-- "Esperar a que pase el backoff inicial"
unfoldable pub wait_back_off : ℕ → SendingAck → SendingAck
wait_back_off now a = if a.first_delay_passed then a else record a {
  first_delay_passed = (Timer.read now a.delay).0;
  delay = (Timer.read now a.delay).1;
}

-- `snprintf (buffer, sizeof (buffer), "%lld,%d,ACK", ...)`
abbrev pub plaintext : ℤ → ℤ → List ℕ
plaintext id_device message_number =
    show_ℤ id_device ++ (b',' ∷ (show_ℤ message_number ++ codes ",ACK"))

-- "Formatear el mensaje ACK": the result tells whether the call goes on.
unfoldable pub format_ack : Primitives → ℤ → ℤ → SendingAck → Bool × SendingAck
format_ack p id_device message_number a =
    let plain = plaintext id_device message_number in
    let m = write_message 0 (plain ++ 0 ∷ []) a.memory in
    let (prepared, m') = prepare_lora_message p (length (text m)) m in
    if a.message_formatted
    then (true, a)
    else if prepared
    then (
      true,
      record a {
        memory = write_message (length (text m')) (codes "||" ++ 0 ∷ []) m';
        message_formatted = true;
      },
    )
    else (false, record a { memory = m' })

-- `currentChunkSize`, of 32 bits
abbrev pub current_chunk_size : ℕ → ℕ → ℕ
current_chunk_size total index =
    let left = (total + 2 ^ 32 - index) % 2 ^ 32 in
    if ltb left max_chunk_size then left else max_chunk_size

-- The end of a round of chunks: once more, or to the next state.
unfoldable pub end_round : ℕ → SendingAck → SendingAck
end_round now a =
    if ltb (a.number_of_ack_sendings + 1) max_ack_send_tries
    then record a {
      number_of_ack_sendings = a.number_of_ack_sendings + 1;
      string_index = 0;
      delay = Timer.restart now a.delay;
    }
    else record a {
      number_of_ack_sendings = 0;
      string_index = 0;
      delay = Timer.restart now a.delay;
      first_delay_passed = false;
      message_formatted = false;
      first_entry = true;
      to_connecting_ethernet = true;
    }

-- The body of "Enviar por LoRa en fragmentos"
unfoldable pub send_chunk : ℕ → SendingAck → SendingAck
send_chunk now a =
    let total = length (text a.memory) in
    let chunk =
      take (current_chunk_size total a.string_index) (drop a.string_index a.memory.message) in
    let a' : SendingAck = record a {
      first_chunk_sent = true;
      delay = Timer.restart now (Timer.write fly_time a.delay);
      packets = a.packets ++ chunk ∷ [];
      string_index = a.string_index + max_chunk_size;
    } in
    if ltb total (a.string_index + max_chunk_size) then end_round now a' else a'

-- `if (backoffTime->read () || !firstChunkSent)`
unfoldable pub send_when_due : ℕ → SendingAck → SendingAck
send_when_due now a =
    let a' : SendingAck = record a { delay = (Timer.read now a.delay).1 } in
    if (Timer.read now a.delay).0 || not a.first_chunk_sent then send_chunk now a' else a'

-- `SendingAck::sendAcknowledgement`
unfoldable pub send_acknowledgement : Primitives → ℤ → ℤ → ℕ → SendingAck → SendingAck
send_acknowledgement p id_device message_number now a =
    let waiting = wait_back_off now (start_back_off now a) in
    let (go_on, formatted) = format_ack p id_device message_number waiting in
    if waiting.first_delay_passed
    then (if go_on then send_when_due now formatted else formatted)
    else waiting
