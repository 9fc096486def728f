-- ===== src/Messages/Tests.antt =====
-- The theorems on messages, with simple functions in the place of the library's.
use gateway_lo_ra.Prelude.{
  ◌+◌, ◌-◌, ◌≤◌, ◌<◌, ◌⊎◌, ◌≡◌, refl, true, ◌++◌, some, arith, length, take, drop, replicate,
  c_string, length-append, c_string-NoZero, c_string-append_zero,
}
use gateway_lo_ra.Messages.Base.{Memory, text, write_at, handle_next}
use gateway_lo_ra.Messages.Encryption.{encrypt_base64, encode, byte_before}
use gateway_lo_ra.Messages.Hex.{hex8}
use gateway_lo_ra.Messages.Checksum.{received_crc, generate_checksum}
use gateway_lo_ra.Messages.Authentication.{without_zeros, generate_authentication}
use gateway_lo_ra.Messages.Chain.{prepare_lora_message, process_lora_message}
use gateway_lo_ra.Messages.RoundTrip.{process-prepare}
use gateway_lo_ra.Messages.Acceptance.{process_accepts, IsAuthentic}
use gateway_lo_ra.Messages.Simple.{simple, documented, sender}

abbrev receiver : Memory
receiver = record sender {
  message = text (prepare_lora_message simple 8 sender).1 ++ replicate 32 0;
  base64_decoded = replicate 32 0;
}

received_text : text receiver ≡ text (prepare_lora_message simple 8 sender).1
received_text =
    c_string-append_zero (text (prepare_lora_message simple 8 sender).1) (replicate 31 0)
      (c_string-NoZero (prepare_lora_message simple 8 sender).1.message)

length-receiver :
    length receiver.message ≡ length (text (prepare_lora_message simple 8 sender).1) + 32
length-receiver = length-append (text (prepare_lora_message simple 8 sender).1) (replicate 32 0)

process-prepare_example :
    ((prepare_lora_message simple 8 sender).0 ≡ true)
    × ((process_lora_message simple 32 receiver).0 ≡ true)
    × (text (process_lora_message simple 32 receiver).1 ≡ text sender)
process-prepare_example =
    process-prepare simple documented 8 32 sender receiver (unfold c_string in omega arith)
      (omega arith) (omega arith) (omega arith) (omega arith) (omega arith)
      (unfold byte_before in refl) (omega arith) (omega arith) (omega (arith, length-receiver))
      (omega arith) received_text

length-text : length (text (prepare_lora_message simple 8 sender).1) ≡ 64
unfolding prepare_lora_message encrypt_base64 encode generate_authentication generate_checksum
    handle_next c_string write_at without_zeros hex8
length-text = refl

process_accepts_example :
    let signed = take (length (text receiver) - 8) (text receiver) in
    (8 ≤ length (text receiver))
    × (simple.crc signed
        ≡ some (received_crc (drop (length (text receiver) - 8) (text receiver)) receiver))
    × ((length (text receiver) < 40) ⊎ IsAuthentic simple signed)
process_accepts_example =
    process_accepts simple documented 32 receiver (omega (arith, length-receiver, length-text))
      (process-prepare simple documented 8 32 sender receiver (unfold c_string in omega arith)
        (omega arith) (omega arith) (omega arith) (omega arith) (omega arith)
        (unfold byte_before in refl) (omega arith) (omega arith) (omega (arith, length-receiver))
        (omega arith) received_text).1
