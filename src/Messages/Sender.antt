-- ===== src/Messages/Sender.antt =====
-- `prepareLoRaMessage` of Modules/Gateway, on a message that its buffers have room for.
use gateway_lo_ra.Prelude.{
  ℕ, ◌+◌, ◌≤◌, ◌<◌, ◌≡◌, ◌∙◌, sym, ap, true, List, [], ◌∷◌, ◌++◌, none, some, length, take, drop,
  c_string, NoZero, length-append, length-take, arith, take-append_left,
}
use gateway_lo_ra.Messages.Base.{
  Primitives, IsDocumented, Memory, handle_next, text, write_message, write_at,
}
use gateway_lo_ra.Messages.Memory.{
  c_string-write_at, c_string-write_at_end, length-write_at, write_at_front,
}
use gateway_lo_ra.Messages.Hex.{hex8}
use gateway_lo_ra.Messages.Authentication.{generate_authentication, without_zeros, generator_key}
use gateway_lo_ra.Messages.Encryption.{
  encrypt_base64, encode, encrypted_size, encrypter_key, encrypter_iv, encoded_size, in_place,
}
use gateway_lo_ra.Messages.Chain.{is_processed, prepare_lora_message}
use gateway_lo_ra.Messages.Appended.{
  without_zeros-NoZero, generate_checksum-text, text-checksum, packet, length-code,
}

module _ (p : Primitives) (law : IsDocumented p) where
  -- The blocks that the encrypter takes, and what it makes of them.
  abbrev pub plain : ℕ → Memory → List ℕ
  plain size m = take (encrypted_size size) m.message

  abbrev pub cipher : ℕ → Memory → List ℕ
  cipher size m = p.aes_encrypt encrypter_key encrypter_iv (plain size m)

  pub length-plain :
      (size : ℕ) (m : Memory)
      → encrypted_size size ≤ length m.message
      → length (plain size m) ≡ encrypted_size size
  length-plain size m h = omega (arith, length-take (encrypted_size size) m.message)

  pub length-cipher :
      (size : ℕ) (m : Memory)
      → encrypted_size size ≤ length m.message
      → length (cipher size m) ≡ encrypted_size size
  length-cipher size m h =
      law.length-aes_encrypt encrypter_key encrypter_iv (plain size m) ∙ length-plain size m h

  -- What is left in the message's block behind the encryption.
  abbrev encrypted : ℕ → Memory → List ℕ
  encrypted size m =
      in_place (p.aes_encrypt encrypter_key encrypter_iv) (encrypted_size size) m.message

  take-encrypted :
      (size : ℕ) (m : Memory)
      → encrypted_size size ≤ length m.message
      → take (encrypted_size size) (encrypted size m) ≡ cipher size m
  take-encrypted size m h =
      let l = length-cipher size m h in
      let rest = drop (length (cipher size m)) m.message in
      ap (take (encrypted_size size)) (write_at_front (cipher size m) m.message (omega (arith, l)))
      ∙ ap (λ k. take k (cipher size m ++ rest)) (sym l)
      ∙ take-append_left (cipher size m) rest

  encode-text :
      (s enc buffer : List ℕ)
      → p.base64_encode encoded_size s ≡ some enc
      → encode p s buffer ≡ write_at 0 (enc ++ 0 ∷ []) buffer
  unfolding encode
  encode-text s enc buffer e = ground (arith, e)

  -- The sender.
  module _ (size : ℕ) (m : Memory) (enc : List ℕ) (c : ℕ)
      (e : p.base64_encode encoded_size (cipher size m) ≡ some enc) (z : NoZero enc)
      (k : p.crc (enc ++ without_zeros (p.hmac generator_key enc)) ≡ some c)
      (fits : encrypted_size size ≤ length m.message) (room : length enc + 40 < length m.message)
      (short : length enc + 40 < 4000) (buffer : length enc < length m.base64_encoded) where
    abbrev sent_buffer : List ℕ
    sent_buffer = encode p (take (encrypted_size size) (encrypted size m)) m.base64_encoded

    c_string-sent_buffer : c_string sent_buffer ≡ enc
    c_string-sent_buffer =
        ap (λ s. c_string (encode p s m.base64_encoded)) (take-encrypted size m fits)
        ∙ ap c_string (encode-text (cipher size m) enc m.base64_encoded e)
        ∙ c_string-write_at enc m.base64_encoded z buffer

    abbrev encoded : Memory
    encoded = record m {
      message = write_at 0 (c_string sent_buffer ++ 0 ∷ []) (encrypted size m);
      base64_encoded = sent_buffer;
    }

    length-encrypted : length (encrypted size m) ≡ length m.message
    length-encrypted = length-write_at 0 (cipher size m) m.message

    text-encoded : text encoded ≡ enc
    text-encoded =
        ap (λ s. c_string (write_at 0 (s ++ 0 ∷ []) (encrypted size m))) c_string-sent_buffer
        ∙ c_string-write_at enc (encrypted size m) z (omega (arith, length-encrypted))

    length-encoded : length encoded.message ≡ length m.message
    length-encoded =
        length-write_at 0 (c_string sent_buffer ++ 0 ∷ []) (encrypted size m) ∙ length-encrypted

    abbrev signed : Memory
    signed =
        write_message (length (text encoded))
          (without_zeros (p.hmac generator_key (text encoded)) ++ 0 ∷ []) encoded

    text-signed : text signed ≡ enc ++ without_zeros (p.hmac generator_key enc)
    text-signed =
        c_string-write_at_end (without_zeros (p.hmac generator_key (text encoded))) encoded.message
          (without_zeros-NoZero (p.hmac generator_key (text encoded)))
          (omega (arith, ap length text-encoded, length-encoded, length-code p law (text encoded)))
        ∙ ap (λ s. s ++ without_zeros (p.hmac generator_key s)) text-encoded

    length-text-signed : length (text signed) ≡ length enc + 32
    length-text-signed =
        ap length text-signed
        ∙ length-append enc (without_zeros (p.hmac generator_key enc))
        ∙ ap (λ n. length enc + n) (length-code p law enc)

    length-signed : length signed.message ≡ length m.message
    length-signed =
        length-write_at (length (text encoded))
          (without_zeros (p.hmac generator_key (text encoded)) ++ 0 ∷ []) encoded.message
        ∙ length-encoded

    abbrev checked : Memory
    checked = write_message (length (text signed)) (hex8 c ++ 0 ∷ []) signed

    text-checked : text checked ≡ packet p enc c
    text-checked =
        text-checksum p law c signed (omega (arith, length-text-signed, length-signed))
        ∙ ap (λ s. s ++ hex8 c) text-signed

    prepare_lora_message-checked : prepare_lora_message p size m ≡ (true, checked)
    unfolding prepare_lora_message encrypt_base64 generate_authentication handle_next
    prepare_lora_message-checked =
        ap (λ r. (is_processed r.0, r.1))
          (generate_checksum-text p law none size c signed (ap p.crc text-signed ∙ k)
            (omega (arith, length-text-signed)))

    pub prepare_lem :
        ((prepare_lora_message p size m).0 ≡ true)
        × (text (prepare_lora_message p size m).1 ≡ packet p enc c)
    prepare_lem = (
      ap (λ r. r.0) prepare_lora_message-checked,
      ap (λ r. text r.1) prepare_lora_message-checked ∙ text-checked,
    )
