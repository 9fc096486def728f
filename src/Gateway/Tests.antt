-- ===== src/Gateway/Tests.antt =====
-- The theorem on acknowledgements at a concrete text.
use gateway_lo_ra.Prelude.{
  negsuc, ℕ, ◌/◌, ◌≡◌, refl, Bool, true, false, suc, List, [], ◌∷◌, ◌++◌, arith, codes, length,
  replicate, none, some, pos, c_string,
}
use gateway_lo_ra.Timer
use gateway_lo_ra.Timer.{Delay}
use gateway_lo_ra.Messages.Base.{Primitives, failed, text}
use gateway_lo_ra.Gateway.Show.{show_ℤ, show_ℕ, show_digits}
use gateway_lo_ra.Gateway.Ack.{
  SendingAck, plaintext, send_acknowledgement, start_back_off, wait_back_off, format_ack,
  send_when_due, send_chunk, end_round,
}
use gateway_lo_ra.Gateway.Chunks.{pieces}
use gateway_lo_ra.Gateway.Due.{acknowledge, are_due}
use gateway_lo_ra.Gateway.Acknowledgement.{concat, AllFit, rounds_sent}
use gateway_lo_ra.Gateway.Waiting.{WaitingForMessage}
use gateway_lo_ra.Gateway.Reassembly.{wait_for_fragments, fragments_received}
use gateway_lo_ra.Messages.Base.{handle_next, write_at}
use gateway_lo_ra.Messages.Encryption.{encrypt_base64, encode, byte_before}
use gateway_lo_ra.Messages.Authentication.{generate_authentication, without_zeros}
use gateway_lo_ra.Messages.Checksum.{generate_checksum}
use gateway_lo_ra.Messages.Hex.{hex8}
use gateway_lo_ra.Messages.Chain.{prepare_lora_message}
use gateway_lo_ra.Messages.Simple.{simple, documented, sender}
use gateway_lo_ra.Gateway.Waiting.{Reception, wait_for_message}
use gateway_lo_ra.Gateway.Delivery.{wait-prepare}

abbrev nothing : Primitives
nothing = record {
  crc = λ s. none;
  hmac = λ k s. [];
  aes_encrypt = λ k iv s. s;
  aes_decrypt = λ k iv s. s;
  base64_encode = λ size s. none;
  base64_decode = λ size s. failed 0;
  below = replicate 32 0;
}

-- A text of two pieces, formatted, its first delay passed.
abbrev formatted : SendingAck
formatted = record {
  memory = record {
    message = replicate 258 65 ++ codes "||" ++ 0 ∷ [];
    base64_encoded = [];
    base64_decoded = [];
    before_decoded = 0;
    uninitialised = 0;
  };
  first_chunk_sent = false;
  first_delay_passed = true;
  message_formatted = true;
  first_entry = false;
  string_index = 0;
  number_of_ack_sendings = 0;
  delay = record { start_time = 0; duration = 100; is_running = false };
  packets = [];
  to_connecting_ethernet = false;
}

abbrev run : List ℕ → SendingAck → SendingAck
run = acknowledge nothing (pos 12) (pos 7)

abbrev due : List ℕ → SendingAck → Bool
due = are_due nothing (pos 12) (pos 7)

length-formatted : length (text formatted.memory) ≡ 260
unfolding c_string
length-formatted = refl

due_first : due (100 ∷ 1100 ∷ []) formatted ≡ true
unfolding are_due send_acknowledgement start_back_off wait_back_off format_ack send_when_due
    send_chunk end_round Timer.read Timer.restart Timer.write c_string
due_first = refl

due_second : due (2100 ∷ 3100 ∷ []) (run (100 ∷ 1100 ∷ []) formatted) ≡ true
unfolding acknowledge are_due send_acknowledgement start_back_off wait_back_off format_ack
    send_when_due send_chunk end_round Timer.read Timer.restart Timer.write c_string
due_second = refl

due_third : due (4100 ∷ 5100 ∷ []) (run (2100 ∷ 3100 ∷ []) (run (100 ∷ 1100 ∷ []) formatted)) ≡ true
unfolding acknowledge are_due send_acknowledgement start_back_off wait_back_off format_ack
    send_when_due send_chunk end_round Timer.read Timer.restart Timer.write c_string
due_third = refl

rounds_sent_example :
    let a2 = run (2100 ∷ 3100 ∷ []) (run (100 ∷ 1100 ∷ []) formatted) in
    let a3 = run (4100 ∷ 5100 ∷ []) a2 in
    let sent = pieces (suc (length (text formatted.memory) / 255)) (text formatted.memory) in
    (a2.to_connecting_ethernet ≡ false)
    × (a3.to_connecting_ethernet ≡ true)
    × (a3.packets ≡ [] ++ sent ++ sent ++ sent)
    × (concat sent ≡ text formatted.memory)
    × AllFit sent
rounds_sent_example =
    rounds_sent nothing (pos 12) (pos 7) (100 ∷ 1100 ∷ []) (2100 ∷ 3100 ∷ []) (4100 ∷ 5100 ∷ [])
      formatted (omega (arith, length-formatted)) refl refl refl (omega (arith, length-formatted))
      (omega (arith, length-formatted)) (omega (arith, length-formatted)) due_first due_second
      due_third

-- The text of an acknowledgement.
plaintext_example : plaintext (pos 356938035643809) (pos 70) ≡ codes "356938035643809,70,ACK"
unfolding show_ℤ show_ℕ show_digits
plaintext_example = refl

-- A gateway that has received the front of a message.
abbrev listening : WaitingForMessage
listening = record {
  message_received = false;
  accumulated = codes "QUJ";
  full_message = [];
  first_packet_received = true;
  first_entry = false;
  string_insert_count = 1;
  current_rssi = pos 0;
  time_out = record { start_time = 0; duration = 100; is_running = true };
  memory = formatted.memory;
}

-- The rest of it, cut within the delimiter.
fragments_received_example :
    let w =
      wait_for_fragments nothing 100
        (negsuc 69)
        ((5, codes "DRA|") ∷ (9, codes "|") ∷ [])
        listening in
    (w.message_received ≡ true)
    × (w.full_message ≡ codes "QUJDRA")
    × (w.accumulated ≡ [])
    × (w.string_insert_count ≡ 0)
fragments_received_example =
    fragments_received nothing 100 (negsuc 69) (5, codes "DRA|") ((9, codes "|") ∷ [])
      (codes "QUJDRA") listening (refl, refl)
      (
        (omega arith),
        ((omega arith), ((omega arith), ((omega arith), ((omega arith), ((omega arith), tt))))),
      )
      (refl, (refl, tt)) (omega arith) refl

-- A gateway that has received the sender's message.
abbrev complete : WaitingForMessage
complete = record listening {
  message_received = true;
  full_message = text (prepare_lora_message simple 8 sender).1;
  memory = record (listening.memory) { base64_decoded = replicate 2048 0 };
}

abbrev no_packet : Reception
no_packet = record { now = 9; begins = true; packet = none; rssi = negsuc 71 }

length_complete : length complete.full_message ≡ 64
unfolding prepare_lora_message encrypt_base64 encode generate_authentication generate_checksum
    handle_next c_string write_at without_zeros hex8
length_complete = refl

wait-prepare_example :
    let r = wait_for_message simple 100 no_packet complete in
    (r.0 ≡ some (text sender))
    × (r.1.message_received ≡ false)
    × (r.1.full_message ≡ [])
    × (r.1.accumulated ≡ [])
wait-prepare_example =
    wait-prepare simple documented 100 8 no_packet sender complete (unfold c_string in omega arith)
      (omega arith) (omega arith) (omega arith) (omega arith) (unfold byte_before in refl)
      (omega arith) refl refl refl (omega (arith, length_complete))
