-- ===== src/Messages/Base.antt =====
-- Modules/MessageHandler/MessageHandlerStatus.h and BaseMessageHandler: what the handlers share.
use gateway_lo_ra.Prelude.{
  ℕ, ◌+◌, ◌*◌, ◌/◌, ◌%◌, ◌^◌, ◌≤◌, ◌<◌, ◌≡◌, List, ◌++◌, Option, none, some, length, take, drop,
  c_string, NoZero,
}

-- `MessageHandlerStatus_t`
pub data Status : Type 0 where
  processing_message processed error_null_ptr error_packet_too_small : Status
  error_buffer_too_small checksum_error fail_to_compute_checksum : Status
  authentification_missmatch : Status

-- What `mbedtls_base64_decode` gives: the bytes, or an error and the size that it asks for.
pub data Decoded : Type 0 where
  decoded : List ℕ → Decoded
  failed : ℕ → Decoded

-- The library functions that the handlers call: CRC-32, HMAC with SHA-256 (key, message), AES in CBC
-- mode (key, initialisation vector, data), Base64 (size of the destination, data); and the 32 bytes
-- that stand in memory below a message's block.
pub record Primitives : Type 0 where
  pub crc : List ℕ → Option ℕ
  pub hmac : List ℕ → List ℕ → List ℕ
  pub aes_encrypt : List ℕ → List ℕ → List ℕ → List ℕ
  pub aes_decrypt : List ℕ → List ℕ → List ℕ → List ℕ
  pub base64_encode : ℕ → List ℕ → Option (List ℕ)
  pub base64_decode : ℕ → List ℕ → Decoded
  pub below : List ℕ

-- The number of characters of n bytes in Base64.
abbrev pub base64_length : ℕ → ℕ
base64_length n = 4 * ((n + 2) / 3)

-- What is documented of them.
pub record IsDocumented (p : Primitives) : Type 0 where
  pub crc-32 : (s : List ℕ) → (c : ℕ) × ((p.crc s ≡ some c) × (c < 2 ^ 32))
  pub length-hmac : (k s : List ℕ) → length (p.hmac k s) ≡ 32
  pub length-aes_encrypt : (k iv s : List ℕ) → length (p.aes_encrypt k iv s) ≡ length s
  pub length-aes_decrypt : (k iv s : List ℕ) → length (p.aes_decrypt k iv s) ≡ length s
  pub aes_decrypt-aes_encrypt :
      (k iv s rest : List ℕ)
      → length s % 16 ≡ 0
      → length rest % 16 ≡ 0
      → take (length s) (p.aes_decrypt k iv (p.aes_encrypt k iv s ++ rest)) ≡ s
  pub base64_encode_total :
      (size : ℕ) (s : List ℕ)
      → base64_length (length s) < size
      → (text : List ℕ) × ((p.base64_encode size s ≡ some text)
          × NoZero text
          × (length text ≡ base64_length (length s)))
  pub base64_decode-base64_encode :
      (size size' : ℕ) (s text : List ℕ)
      → p.base64_encode size s ≡ some text
      → length s ≤ size'
      → p.base64_decode size' text ≡ decoded s

-- The memory of the handlers: the message's block, the members `base64_encoded` and
-- `base64_decoded`, the byte before the latter, and what an uninitialised `receivedCRC` holds.
pub record Memory : Type 0 where
  pub message : List ℕ
  pub base64_encoded : List ℕ
  pub base64_decoded : List ℕ
  pub before_decoded : ℕ
  pub uninitialised : ℕ

-- `handleMessage`, on `sizeOfMessage`
abbrev pub Handler : Type 0
Handler = ℕ → Memory → Status × Memory

-- `BaseMessageHandler::handleMessage`
unfoldable pub base_handle_message : Handler
base_handle_message size m = (processing_message, m)

-- `nextHandler`, or none where it is null
unfoldable pub handle_next : Option Handler → Handler
handle_next none size m = (processed, m)
handle_next (some next) size m = next size m

-- Bytes written from an offset on: what would lie outside of the block does not change it.
unfoldable pub write_at : ℕ → List ℕ → List ℕ → List ℕ
write_at n s block = take (length block) (take n block ++ s ++ drop (n + length s) block)

-- `strlen (message)`
abbrev pub text : Memory → List ℕ
text m = c_string m.message

abbrev pub write_message : ℕ → List ℕ → Memory → Memory
write_message n s m = record m { message = write_at n s m.message }
