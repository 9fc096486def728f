-- ===== src/Messages/Encryption.antt =====
-- Modules/MessageHandler/EncrypterBase64, DecrypterBase64, Encrypter and Decrypter. `aes->setup` and
-- `aes->clear` are part of the library function, which is given the key and the vector.
use gateway_lo_ra.Prelude.{
  ℕ, zero, suc, ◌+◌, ◌-◌, ◌*◌, ◌/◌, ◌%◌, ◌^◌, Bool, ◌&&◌, List, [], ◌∷◌, ◌++◌, Option, none, some,
  ltb, leb, if◌then◌else◌, length, take, c_string,
}
use gateway_lo_ra.Messages.Base.{decoded, failed, Primitives, Handler, handle_next, text, write_at}

-- `key` of `EncrypterBase64`, and of `DecrypterBase64`
abbrev pub encrypter_key : List ℕ
encrypter_key =
    96 ∷ 61 ∷ 235 ∷ 16 ∷ 21 ∷ 202 ∷ 113 ∷ 190 ∷ 43 ∷ 115 ∷ 174 ∷ 240 ∷ 133 ∷ 125 ∷ 119 ∷ 129 ∷ 31
    ∷ 53 ∷ 44 ∷ 7 ∷ 59 ∷ 97 ∷ 8 ∷ 215 ∷ 45 ∷ 152 ∷ 16 ∷ 163 ∷ 9 ∷ 20 ∷ 223 ∷ 244 ∷ []

abbrev pub decrypter_key : List ℕ
decrypter_key =
    96 ∷ 61 ∷ 235 ∷ 16 ∷ 21 ∷ 202 ∷ 113 ∷ 190 ∷ 43 ∷ 115 ∷ 174 ∷ 240 ∷ 133 ∷ 125 ∷ 119 ∷ 129 ∷ 31
    ∷ 53 ∷ 44 ∷ 7 ∷ 59 ∷ 97 ∷ 8 ∷ 215 ∷ 45 ∷ 152 ∷ 16 ∷ 163 ∷ 9 ∷ 20 ∷ 223 ∷ 244 ∷ []

-- `iv` of `EncrypterBase64`, and of `DecrypterBase64`
abbrev pub encrypter_iv : List ℕ
encrypter_iv =
    116 ∷ 17 ∷ 240 ∷ 69 ∷ 214 ∷ 164 ∷ 63 ∷ 105 ∷ 24 ∷ 198 ∷ 117 ∷ 66 ∷ 223 ∷ 76 ∷ 167 ∷ 132 ∷ []

abbrev pub decrypter_iv : List ℕ
decrypter_iv =
    116 ∷ 17 ∷ 240 ∷ 69 ∷ 214 ∷ 164 ∷ 63 ∷ 105 ∷ 24 ∷ 198 ∷ 117 ∷ 66 ∷ 223 ∷ 76 ∷ 167 ∷ 132 ∷ []

-- `sizeOfBuffer` of the two: `MESSAGE_BUFFER_SIZE` is 2500.
abbrev pub encoded_size : ℕ
encoded_size = 548 + 2500

abbrev pub decoded_size : ℕ
decoded_size = 2500 + 164

-- `encryptedSize`: whole blocks of 16 bytes
abbrev pub encrypted_size : ℕ → ℕ
encrypted_size size = (size + 15) / 16 * 16

-- A byte of the buffer, or the one before it.
unfoldable pub byte_before : ℕ → ℕ → List ℕ → ℕ
byte_before first zero cs = first
byte_before first (suc n) [] = 0
byte_before first (suc n) (c ∷ cs) = byte_before c n cs

-- `decoded_len`, without the padding that the last byte stands for
abbrev pub is_padding : ℕ → Bool
is_padding b = ltb 0 b && leb b 16

abbrev pub without_padding : ℕ → ℕ → ℕ
without_padding padding n = if is_padding padding then (n + 2 ^ 32 - padding) % 2 ^ 32 else n

-- and not more than the message's buffer takes
abbrev pub clip_size : ℕ → ℕ → ℕ
clip_size size n = if ltb n size then n else (size + 2 ^ 32 - 1) % 2 ^ 32

-- `message` and `encrypt` or `decrypt` in place of its first bytes
abbrev pub in_place : (List ℕ → List ℕ) → ℕ → List ℕ → List ℕ
in_place f size block = write_at 0 (f (take size block)) block

module _ (p : Primitives) where
  -- What is in `base64_encoded`, terminated where the encoding succeeded.
  unfoldable pub encode : List ℕ → List ℕ → List ℕ
  encode s buffer = elim (p.base64_encode encoded_size s) [
    | none ↦ buffer
    | some encoded ↦ write_at 0 (encoded ++ 0 ∷ []) buffer
  ]

  -- `EncrypterBase64::handleMessage`
  unfoldable pub encrypt_base64 : Option Handler → Handler
  encrypt_base64 next size m =
      let encrypted =
        in_place (p.aes_encrypt encrypter_key encrypter_iv) (encrypted_size size) m.message in
      let buffer = encode (take (encrypted_size size) encrypted) m.base64_encoded in
      handle_next next size (record m {
        message = write_at 0 (c_string buffer ++ 0 ∷ []) encrypted;
        base64_encoded = buffer;
      })

  -- `decoded_len` and `base64_decoded`, terminated where the decoding failed
  unfoldable pub decode : List ℕ → List ℕ → ℕ × List ℕ
  decode s buffer = elim (p.base64_decode decoded_size s) [
    | decoded bytes ↦ (length bytes, write_at 0 bytes buffer)
    | failed n ↦ (n, write_at n (0 ∷ []) buffer)
  ]

  -- `DecrypterBase64::handleMessage`
  unfoldable pub decrypt_base64 : Option Handler → Handler
  decrypt_base64 next size m =
      let (n, buffer) = decode (text m) m.base64_decoded in
      let decrypted = in_place (p.aes_decrypt decrypter_key decrypter_iv) size buffer in
      let len = clip_size size (without_padding (byte_before m.before_decoded n decrypted) n) in
      handle_next next size (record m {
        message = write_at 0 (take len decrypted ++ 0 ∷ []) m.message;
        base64_decoded = decrypted;
      })

  -- `Encrypter::handleMessage`, with the key and the vector of that class
  unfoldable pub encrypt : List ℕ → List ℕ → Option Handler → Handler
  encrypt key iv next size m =
      handle_next next size (record m { message = in_place (p.aes_encrypt key iv) size m.message })

  -- `Decrypter::handleMessage`
  unfoldable pub decrypt : List ℕ → List ℕ → Option Handler → Handler
  decrypt key iv next size m =
      handle_next next size (record m { message = in_place (p.aes_decrypt key iv) size m.message })
