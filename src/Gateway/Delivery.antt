-- ===== src/Gateway/Delivery.antt =====
-- Modules/Gateway/GatewayState/WaitingForMessage on a complete message of a sender.
use gateway_lo_ra.Prelude.{
  ℕ, zero, suc, ◌+◌, ◌-◌, ◌≤◌, ◌<◌, ◌≡◌, refl, ◌∙◌, sym, ap, true, false, List, [], ◌∷◌, ◌++◌, some,
  length, take, take_all, replicate, is_empty, arith, length-append, c_string, NoZero,
  c_string_of_NoZero, c_string-append_zero, c_string-NoZero, subst,
}
use gateway_lo_ra.Messages.Base.{Primitives, IsDocumented, Memory, text, base64_length}
use gateway_lo_ra.Messages.Encryption.{encrypted_size, is_padding, byte_before}
use gateway_lo_ra.Messages.Chain.{prepare_lora_message, process_lora_message}
use gateway_lo_ra.Messages.RoundTrip.{process-prepare}
use gateway_lo_ra.Messages.Acceptance.{process_accepts}
use gateway_lo_ra.Gateway.Waiting.{
  WaitingForMessage, Reception, processed_block, process_full_message, wait_for_message,
  start_waiting,
}

length-zeros : (n : ℕ) → length {A = ℕ} (replicate n 0) ≡ n
length-zeros zero = refl
length-zeros (suc n) = ap suc (length-zeros n)

module _ (t : List ℕ) (z : NoZero t) (short : length t ≤ 2047) where
  cut : take 2047 (c_string t) ≡ t
  cut = ap (take 2047) (c_string_of_NoZero t z) ∙ take_all 2047 t short

  processed_block-cut : processed_block t ≡ t ++ replicate (suc (2047 - length t)) 0
  processed_block-cut =
      let n : 2048 - length t ≡ suc (2047 - length t) = omega arith in
      ap (λ s. s ++ replicate (2048 - length s) 0) cut ∙ ap (λ k. t ++ replicate k 0) n

  c_string-processed_block : c_string (processed_block t) ≡ t
  c_string-processed_block =
      ap c_string processed_block-cut ∙ c_string-append_zero t (replicate (2047 - length t) 0) z

  length-processed_block : length (processed_block t) ≡ 2048
  length-processed_block =
      ap length processed_block-cut
      ∙ omega (
        arith,
        length-append t (replicate (suc (2047 - length t)) 0),
        length-zeros (2047 - length t),
      )

not_empty : (s : List ℕ) → 0 < length s → is_empty s ≡ false
not_empty [] h = absurd (omega arith)
not_empty (c ∷ s) h = refl

abbrev received : WaitingForMessage → Memory
received w = record (w.memory) { message = processed_block w.full_message }

module _ (p : Primitives) (duration : ℕ) (i : Reception) (w : WaitingForMessage) where
  wait_received :
      w.first_entry ≡ false
      → w.message_received ≡ true
      → wait_for_message p duration i w ≡ process_full_message p w
  unfolding wait_for_message start_waiting
  wait_received h k = ground arith

  process_full_message-true :
      is_empty w.full_message ≡ false
      → (process_lora_message p 2048 (received w)).0 ≡ true
      → let r = process_full_message p w in
        (r.0 ≡ some (text (process_lora_message p 2048 (received w)).1))
        × (r.1.message_received ≡ false)
        × (r.1.full_message ≡ [])
        × (r.1.accumulated ≡ [])
  unfolding process_full_message
  process_full_message-true h k = ground arith

-- A gateway that has received all that `prepareLoRaMessage` made of a sender's string gives back
-- that string and waits for the next message. The sender's sizes are as its buffers ask, its blocks
-- have less than 2048 bytes and do not end in what looks like padding, and the text that it sent
-- has at most 2047 characters.
pub wait-prepare :
    (p : Primitives) (law : IsDocumented p) (duration size : ℕ) (i : Reception) (s : Memory)
    (w : WaitingForMessage)
    → length (text s) ≤ size
    → encrypted_size size ≤ length s.message
    → encrypted_size size < 2048
    → base64_length (encrypted_size size) < length s.base64_encoded
    → base64_length (encrypted_size size) + 40 < length s.message
    → is_padding (
        byte_before w.memory.before_decoded
          (encrypted_size size)
          (take (encrypted_size size) s.message))
      ≡ false
    → 2048 ≤ length w.memory.base64_decoded
    → w.first_entry ≡ false
    → w.message_received ≡ true
    → w.full_message ≡ text (prepare_lora_message p size s).1
    → length w.full_message ≤ 2047
    → let r = wait_for_message p duration i w in
      (r.0 ≡ some (text s))
      × (r.1.message_received ≡ false)
      × (r.1.full_message ≡ [])
      × (r.1.accumulated ≡ [])
wait-prepare p law duration size i s w whole fits small buffer room last space entry got full
      short =
    let z : NoZero w.full_message =
      subst NoZero (sym full) (c_string-NoZero (prepare_lora_message p size s).1.message) in
    let same = c_string-processed_block w.full_message z short in
    let lb = length-processed_block w.full_message z short in
    let (sent, accepted, back) =
      process-prepare p law size 2048 s (received w) whole fits (omega arith) (omega arith) buffer
        room last (omega arith) small (omega (arith, lb)) space (same ∙ full) in
    let (long, crc, code) = process_accepts p law 2048 (received w) (omega (arith, lb)) accepted in
    let some_bytes : is_empty w.full_message ≡ false =
      not_empty w.full_message (omega (arith, long, ap length same)) in
    let (value, waiting, cleared, rest) =
      process_full_message-true p duration i w some_bytes accepted in
    let step = wait_received p duration i w entry got in
    (
      ap (λ r. r.0) step ∙ value ∙ ap some back,
      ap (λ r. r.1.message_received) step ∙ waiting,
      ap (λ r. r.1.full_message) step ∙ cleared,
      ap (λ r. r.1.accumulated) step ∙ rest,
    )
