-- ===== src/Messages/Checksum.antt =====
-- Modules/MessageHandler/ChecksumGenerator and ChecksumVerifier.
use gateway_lo_ra.Prelude.{
  ℕ, ◌+◌, ◌-◌, List, [], ◌∷◌, ◌++◌, Option, none, some, ltb, leb, ◌==◌, if◌then◌else◌, length, take,
  drop,
}
use gateway_lo_ra.Messages.Base.{
  error_packet_too_small, checksum_error, fail_to_compute_checksum, Primitives, Memory, Handler,
  handle_next, text, write_message,
}
use gateway_lo_ra.Messages.Hex.{hex8, scan_hex8}

-- The size from which on a message is too long.
abbrev pub max_total_length : ℕ
max_total_length = 4000

-- `receivedCRC`, which stays as it was where sscanf converts nothing
unfoldable pub received_crc : List ℕ → Memory → ℕ
received_crc digits m = elim (scan_hex8 digits) [ none ↦ m.uninitialised | some crc ↦ crc ]

module _ (p : Primitives) where
  -- `ChecksumGenerator::handleMessage`
  unfoldable pub generate_checksum : Option Handler → Handler
  generate_checksum next size m = elim (p.crc (text m)) [
    | none ↦ (fail_to_compute_checksum, m)
    | some crc ↦
        if leb max_total_length (length (text m) + length (hex8 crc))
        then (fail_to_compute_checksum, m)
        else handle_next next size (write_message (length (text m)) (hex8 crc ++ 0 ∷ []) m)
  ]

  -- `ChecksumVerifier::handleMessage`
  unfoldable pub verify_checksum : Option Handler → Handler
  verify_checksum next size m =
      let packet_size = length (text m) - 8 in
      if ltb (length (text m)) 8
      then (error_packet_too_small, m)
      else elim (p.crc (take packet_size (text m))) [
        | none ↦ (fail_to_compute_checksum, m)
        | some calculated ↦
            if calculated == received_crc (drop packet_size (text m)) m
            then handle_next next size (write_message packet_size (0 ∷ []) m)
            else (checksum_error, m)
      ]
