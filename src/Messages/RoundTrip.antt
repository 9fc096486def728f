-- ===== src/Messages/RoundTrip.antt =====
-- A message through Modules/Gateway's `prepareLoRaMessage` and back through `processLoRaMessage`.
use gateway_lo_ra.Prelude.{
  ℕ, ◌+◌, ◌%◌, ◌≤◌, ◌<◌, ◌≡◌, ◌∙◌, ap, true, false, ◌++◌, length, take, arith,
}
use gateway_lo_ra.Messages.Base.{Primitives, IsDocumented, Memory, text, base64_length}
use gateway_lo_ra.Messages.Memory.{c_string-take}
use gateway_lo_ra.Messages.Authentication.{without_zeros, generator_key}
use gateway_lo_ra.Messages.Encryption.{
  encrypted_size, encoded_size, decoded_size, byte_before, is_padding,
}
use gateway_lo_ra.Messages.Chain.{prepare_lora_message, process_lora_message}
use gateway_lo_ra.Messages.Sender.{plain, cipher, length-plain, length-cipher, prepare_lem}
use gateway_lo_ra.Messages.Receiver.{process_lem}

-- What `prepareLoRaMessage` makes of a string is what `processLoRaMessage` takes it from: both
-- return true, and the receiver's block then begins with the sender's string. The sender's block
-- and buffer must have room for the message in Base64 and its 40 characters of codes; the size that
-- is given to the sender covers the string; the size that is given to the receiver is a multiple of
-- 16, more than the blocks that were encrypted, and not more than the receiver's buffers; and the
-- last byte of the blocks must not look like padding, that is, be in 1..16.
pub process-prepare :
    (p : Primitives) (law : IsDocumented p) (size size' : ℕ) (s r : Memory)
    → length (text s) ≤ size
    → encrypted_size size ≤ length s.message
    → encrypted_size size ≤ decoded_size
    → base64_length (encrypted_size size) < encoded_size
    → base64_length (encrypted_size size) < length s.base64_encoded
    → base64_length (encrypted_size size) + 40 < length s.message
    → is_padding
        (byte_before r.before_decoded (encrypted_size size) (take (encrypted_size size) s.message))
      ≡ false
    → size' % 16 ≡ 0
    → encrypted_size size < size'
    → size' ≤ length r.message
    → size' ≤ length r.base64_decoded
    → text r ≡ text (prepare_lora_message p size s).1
    → ((prepare_lora_message p size s).0 ≡ true)
      × ((process_lora_message p size' r).0 ≡ true)
      × (text (process_lora_message p size' r).1 ≡ text s)
process-prepare p law size size' s r whole fits decodes encodes buffer room last blocks smaller
      space buffer' got =
    let lp = length-plain p law size s fits in
    let lc = length-cipher p law size s fits in
    let small : base64_length (length (cipher p law size s)) < encoded_size = omega (arith, lc) in
    let (enc, (e, z, le)) = law.base64_encode_total encoded_size (cipher p law size s) small in
    let (c, (k, bound)) = law.crc-32 (enc ++ without_zeros (p.hmac generator_key enc)) in
    let l : length enc ≡ base64_length (encrypted_size size) = omega (arith, le, lc) in
    let sent =
      prepare_lem p law size s enc c e z k fits (omega (arith, l)) (omega (arith, l))
        (omega (arith, l)) in
    let back =
      process_lem p law size' r (plain p law size s) enc c (got ∙ sent.1) k bound (omega (arith, l))
        (law.base64_decode-base64_encode encoded_size decoded_size (cipher p law size s) enc e
          (omega (arith, lc)))
        (omega (arith, lp)) blocks (omega (arith, lp)) space buffer'
        (ap (λ n. is_padding (byte_before r.before_decoded n (plain p law size s))) lp ∙ last) in
    (sent.0, back.0, back.1 ∙ c_string-take (encrypted_size size) s.message (omega arith))
