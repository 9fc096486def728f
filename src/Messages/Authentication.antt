-- ===== src/Messages/Authentication.antt =====
-- Modules/MessageHandler/AuthenticationGenerator and AuthenticationVerifier.
use gateway_lo_ra.Prelude.{
  ℕ, ◌+◌, ◌-◌, ◌%◌, ◌^◌, ◌==◌, List, [], ◌∷◌, ◌++◌, Option, codes, eq_bytes, ltb, if◌then◌else◌,
  length, take, drop,
}
use gateway_lo_ra.Messages.Base.{
  authentification_missmatch, Primitives, Memory, Handler, handle_next, text, write_message,
}

-- `HMAC_KEY_VALUE` of the generator, and of the verifier
abbrev pub generator_key : List ℕ
generator_key = codes "KURRRVWWWWAAAAA"

abbrev pub verifier_key : List ℕ
verifier_key = codes "KURRRVWWWWAAAAA"

-- A byte 0 is replaced by the character '0', so that the message stays a string.
unfoldable pub without_zeros : List ℕ → List ℕ
without_zeros [] = []
without_zeros (c ∷ cs) = (if c == 0 then b'0' else c) ∷ without_zeros cs

-- `hmacOffset`, a `size_t` of 32 bits
abbrev pub hmac_offset : ℕ → ℕ
hmac_offset packet_size = (packet_size + 2 ^ 32 - 32) % 2 ^ 32

module _ (p : Primitives) where
  -- `AuthenticationGenerator::handleMessage`
  unfoldable pub generate_authentication : Option Handler → Handler
  generate_authentication next size m =
      let code = without_zeros (p.hmac generator_key (text m)) in
      handle_next next size (write_message (length (text m)) (code ++ 0 ∷ []) m)

  -- `memcpy (receivedHMAC, &message[hmacOffset], 32)`: with less than 32 characters the offset wraps
  -- around, and the bytes begin below the block.
  unfoldable pub received_hmac : Memory → List ℕ
  received_hmac m =
      if ltb (length (text m)) 32
      then take 32 (drop (length (text m)) (p.below ++ m.message))
      else take 32 (drop (hmac_offset (length (text m))) m.message)

  -- `AuthenticationVerifier::handleMessage`
  unfoldable pub verify_authentication : Option Handler → Handler
  verify_authentication next size m =
      let offset = hmac_offset (length (text m)) in
      let received = received_hmac m in
      let m' = write_message offset (0 ∷ []) m in
      if eq_bytes received (without_zeros (p.hmac verifier_key (text m')))
      then handle_next next size m'
      else (authentification_missmatch, m')
