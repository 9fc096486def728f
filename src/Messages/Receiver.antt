-- ===== src/Messages/Receiver.antt =====
-- `processLoRaMessage` of Modules/Gateway, on what `prepareLoRaMessage` made.
use gateway_lo_ra.Prelude.{
  ℕ, zero, suc, ◌+◌, ◌-◌, ◌%◌, ◌^◌, ◌≤◌, ◌<◌, ◌≡◌, refl, ◌∙◌, ap, true, false, List, [], ◌∷◌, ◌++◌,
  none, some, length, take, drop, c_string, length-append, length-take, length-drop, arith,
  if◌then◌else◌, take-append_left,
}
use gateway_lo_ra.Messages.Base.{
  Status, processed, Primitives, IsDocumented, Memory, handle_next, text, write_message, write_at,
  decoded,
}
use gateway_lo_ra.Messages.Memory.{
  length-write_at, write_at_front, take-append_le, take-append_ge, c_string-write_any,
}
use gateway_lo_ra.Messages.Hex.{hex8, length-hex8}
use gateway_lo_ra.Messages.Authentication.{verify_authentication, without_zeros, generator_key}
use gateway_lo_ra.Messages.Encryption.{
  decrypt_base64, decode, encrypter_key, encrypter_iv, decrypter_key, decrypter_iv, decoded_size,
  byte_before, in_place, is_padding, clip_size, without_padding,
}
use gateway_lo_ra.Messages.Chain.{is_processed, process_lora_message}
use gateway_lo_ra.Messages.Appended.{
  verify_checksum-text, verify_authentication-text, text-write_zero, packet, length-code,
}

byte_before-take :
    (first n : ℕ) (s : List ℕ) → byte_before first n s ≡ byte_before first n (take n s)
unfolding byte_before
byte_before-take first zero s = refl
byte_before-take first (suc n) [] = refl
byte_before-take first (suc n) (x ∷ s) = byte_before-take x n s

module _ (p : Primitives) (law : IsDocumented p) where
  abbrev keyed : List ℕ → List ℕ
  keyed s = p.aes_encrypt encrypter_key encrypter_iv s

  decode-text :
      (t s buffer : List ℕ)
      → p.base64_decode decoded_size t ≡ decoded s
      → decode p t buffer ≡ (length s, write_at 0 s buffer)
  unfolding decode
  decode-text t s buffer e = ground (arith, e)

  -- The receiver: a message with text `packet enc c`.
  module _ (size : ℕ) (m : Memory) (plain enc : List ℕ) (c : ℕ) (t : text m ≡ packet p enc c)
      (k : p.crc (enc ++ without_zeros (p.hmac generator_key enc)) ≡ some c) (bound : c < 2 ^ 32)
      (short : length enc + 32 < 2 ^ 32)
      (d : p.base64_decode decoded_size enc ≡ decoded (keyed plain))
      (blocks : length plain % 16 ≡ 0) (size_blocks : size % 16 ≡ 0) (smaller : length plain < size)
      (room : size ≤ length m.message) (buffer : size ≤ length m.base64_decoded)
      (no_padding : is_padding (byte_before m.before_decoded (length plain) plain) ≡ false) where
    abbrev signed : List ℕ
    signed = enc ++ without_zeros (p.hmac generator_key enc)

    length-text : length (text m) ≡ length signed + 8
    length-text =
        ap length t ∙ length-append signed (hex8 c) ∙ ap (λ n. length signed + n) (length-hex8 c)

    length-signed : length signed ≡ length enc + 32
    length-signed =
        length-append enc (without_zeros (p.hmac generator_key enc))
        ∙ ap (λ n. length enc + n) (length-code p law enc)

    abbrev unchecked : Memory
    unchecked = write_message (length signed) (0 ∷ []) m

    text-unchecked : text unchecked ≡ signed
    text-unchecked =
        text-write_zero p law (length signed) m (omega (arith, length-text))
        ∙ ap (take (length signed)) t
        ∙ take-append_left signed (hex8 c)

    abbrev unsigned : Memory
    unsigned = write_message (length enc) (0 ∷ []) unchecked

    text-unsigned : text unsigned ≡ enc
    text-unsigned =
        text-write_zero p law (length enc) unchecked
          (omega (arith, ap length text-unchecked, length-signed))
        ∙ ap (take (length enc)) text-unchecked
        ∙ take-append_left enc (without_zeros (p.hmac generator_key enc))

    process_lora_message-decrypt : process_lora_message p size m ≡ (
      is_processed (decrypt_base64 p none size unsigned).0,
      (decrypt_base64 p none size unsigned).1,
    )
    unfolding process_lora_message handle_next verify_authentication
    process_lora_message-decrypt =
        ap (λ r. (is_processed r.0, r.1))
          (verify_checksum-text p law
              (some (verify_authentication p (some (decrypt_base64 p none)))) size c m signed t k
              bound
            ∙ verify_authentication-text p law (some (decrypt_base64 p none)) size unchecked enc
                text-unchecked short)

    abbrev cipher_buffer : List ℕ
    cipher_buffer = write_at 0 (keyed plain) m.base64_decoded

    length-keyed : length (keyed plain) ≡ length plain
    length-keyed = law.length-aes_encrypt encrypter_key encrypter_iv plain

    length-cipher_buffer : length cipher_buffer ≡ length m.base64_decoded
    length-cipher_buffer = length-write_at 0 (keyed plain) m.base64_decoded

    decode-unsigned : decode p (text unsigned) m.base64_decoded ≡ (length plain, cipher_buffer)
    decode-unsigned =
        ap (λ s. decode p s m.base64_decoded) text-unsigned
        ∙ decode-text enc (keyed plain) m.base64_decoded d
        ∙ ap (λ n. (n, cipher_buffer)) length-keyed

    -- What is behind the message, up to the size that is decrypted.
    abbrev behind : List ℕ
    behind = take (size - length (keyed plain)) (drop (length (keyed plain)) m.base64_decoded)

    length-behind : length behind ≡ size - length plain
    length-behind = omega (
      arith,
      length-keyed,
      length-take (size - length (keyed plain)) (drop (length (keyed plain)) m.base64_decoded),
      length-drop (length (keyed plain)) m.base64_decoded,
    )

    take-cipher_buffer : take size cipher_buffer ≡ keyed plain ++ behind
    take-cipher_buffer =
        ap (take size) (write_at_front (keyed plain) m.base64_decoded (omega (arith, length-keyed)))
        ∙ take-append_ge size (keyed plain) (drop (length (keyed plain)) m.base64_decoded)
            (omega (arith, length-keyed))

    abbrev decrypted_blocks : List ℕ
    decrypted_blocks = p.aes_decrypt encrypter_key encrypter_iv (take size cipher_buffer)

    take-decrypted_blocks : take (length plain) decrypted_blocks ≡ plain
    take-decrypted_blocks =
        ap (λ s. take (length plain) (p.aes_decrypt encrypter_key encrypter_iv s))
          take-cipher_buffer
        ∙ law.aes_decrypt-aes_encrypt encrypter_key encrypter_iv plain behind blocks
            (omega (arith, length-behind))

    length-decrypted_blocks : length decrypted_blocks ≡ size
    length-decrypted_blocks = omega (
      arith,
      law.length-aes_decrypt encrypter_key encrypter_iv (take size cipher_buffer),
      length-take size cipher_buffer,
      length-cipher_buffer,
    )

    abbrev decrypted : List ℕ
    decrypted = write_at 0 decrypted_blocks cipher_buffer

    take-decrypted : take (length plain) decrypted ≡ plain
    take-decrypted =
        ap (take (length plain)) (
          write_at_front decrypted_blocks cipher_buffer
            (omega (arith, length-decrypted_blocks, length-cipher_buffer)))
        ∙ take-append_le (length plain) decrypted_blocks
            (drop (length decrypted_blocks) cipher_buffer) (omega (arith, length-decrypted_blocks))
        ∙ take-decrypted_blocks

    last_byte :
        byte_before m.before_decoded (length plain) decrypted
        ≡ byte_before m.before_decoded (length plain) plain
    last_byte =
        byte_before-take m.before_decoded (length plain) decrypted
        ∙ ap (byte_before m.before_decoded (length plain)) take-decrypted

    kept :
        clip_size size
          (without_padding (byte_before m.before_decoded (length plain) decrypted) (length plain))
        ≡ length plain
    kept =
        ap (λ b. clip_size size (without_padding b (length plain))) last_byte
        ∙ ap
            (λ b. clip_size size (
              if b
              then (length plain + 2 ^ 32 - byte_before m.before_decoded (length plain) plain)
                % 2 ^ 32
              else length plain))
            no_padding
        ∙ ground arith

    -- What the decrypter does with what was decoded.
    abbrev after : ℕ × List ℕ → Status × Memory
    after r =
        let block = in_place (p.aes_decrypt decrypter_key decrypter_iv) size r.1 in
        let n = clip_size size (without_padding (byte_before m.before_decoded r.0 block) r.0) in
        (
          processed,
          record unsigned {
            message = write_at 0 (take n block ++ 0 ∷ []) unsigned.message;
            base64_decoded = block;
          },
        )

    decrypt_base64-after : decrypt_base64 p none size unsigned ≡ after (length plain, cipher_buffer)
    unfolding decrypt_base64 handle_next
    decrypt_base64-after = ap after decode-unsigned

    length-unsigned : length unsigned.message ≡ length m.message
    length-unsigned =
        length-write_at (length enc) (0 ∷ []) unchecked.message
        ∙ length-write_at (length signed) (0 ∷ []) m.message

    text-after : text (after (length plain, cipher_buffer)).1 ≡ c_string plain
    text-after =
        ap (λ n. c_string (write_at 0 (take n decrypted ++ 0 ∷ []) unsigned.message)) kept
        ∙ ap (λ t. c_string (write_at 0 (t ++ 0 ∷ []) unsigned.message)) take-decrypted
        ∙ c_string-write_any plain unsigned.message (omega (arith, length-unsigned))

    pub process_lem :
        ((process_lora_message p size m).0 ≡ true)
        × (text (process_lora_message p size m).1 ≡ c_string plain)
    process_lem = (
      ap (λ r. r.0) process_lora_message-decrypt ∙ ap (λ r. is_processed r.0) decrypt_base64-after,
      ap (λ r. text r.1) process_lora_message-decrypt
          ∙ ap (λ r. text r.1) decrypt_base64-after
          ∙ text-after,
    )
