-- ===== src/Messages/Chain.antt =====
-- Modules/Gateway/Gateway.cpp: the handlers in the order in which the gateway chains them.
use gateway_lo_ra.Prelude.{ℕ, Bool, true, false, none, some}
use gateway_lo_ra.Messages.Base.{Status, processed, Primitives, Memory}
use gateway_lo_ra.Messages.Checksum.{generate_checksum, verify_checksum}
use gateway_lo_ra.Messages.Authentication.{generate_authentication, verify_authentication}
use gateway_lo_ra.Messages.Encryption.{encrypt_base64, decrypt_base64}

abbrev pub is_processed : Status → Bool
is_processed processed = true
is_processed _ = false

module _ (p : Primitives) where
  -- `Gateway::encryptMessage`
  unfoldable pub encrypt_message : ℕ → Memory → Bool × Memory
  encrypt_message size m =
      let (status, m') = encrypt_base64 p none size m in (is_processed status, m')

  -- `Gateway::decryptMessage`
  unfoldable pub decrypt_message : ℕ → Memory → Bool × Memory
  decrypt_message size m =
      let (status, m') = decrypt_base64 p none size m in (is_processed status, m')

  -- `Gateway::prepareLoRaMessage`
  unfoldable pub prepare_lora_message : ℕ → Memory → Bool × Memory
  prepare_lora_message size m =
      let chain =
        encrypt_base64 p (some (generate_authentication p (some (generate_checksum p none)))) in
      let (status, m') = chain size m in (is_processed status, m')

  -- `Gateway::processLoRaMessage`
  unfoldable pub process_lora_message : ℕ → Memory → Bool × Memory
  process_lora_message size m =
      let chain =
        verify_checksum p (some (verify_authentication p (some (decrypt_base64 p none)))) in
      let (status, m') = chain size m in (is_processed status, m')
