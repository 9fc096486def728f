-- ===== src/Messages/Appended.antt =====
-- The codes that Modules/MessageHandler appends to a message and takes off.
use gateway_lo_ra.Prelude.{
  ℕ, suc, ◌+◌, ◌-◌, ◌^◌, ◌<◌, ◌≤◌, ◌≡◌, refl, ◌∙◌, sym, ap, true, List, [], ◌∷◌, ◌++◌, Option, some,
  length, take, drop, NoZero, length-append, arith, eq_bytes_refl, eq_bytes, take-append_left,
  take_all, drop-append_left,
}
use gateway_lo_ra.Messages.Base.{
  Primitives, IsDocumented, Memory, Handler, handle_next, text, write_message,
}
use gateway_lo_ra.Messages.Memory.{c_string-write_at_end, take-drop, take_text, c_string-write_zero}
use gateway_lo_ra.Messages.Hex.{hex8, scan_hex8, scan_hex8-hex8, hex8-NoZero, length-hex8}
use gateway_lo_ra.Messages.Checksum.{generate_checksum, verify_checksum, received_crc}
use gateway_lo_ra.Messages.Authentication.{
  verify_authentication, received_hmac, without_zeros, generator_key, hmac_offset,
}

pub without_zeros-NoZero : (s : List ℕ) → NoZero (without_zeros s)
unfolding without_zeros
without_zeros-NoZero [] = tt
without_zeros-NoZero (c ∷ cs) = (ground arith, without_zeros-NoZero cs)

length-without_zeros : (s : List ℕ) → length (without_zeros s) ≡ length s
unfolding without_zeros
length-without_zeros [] = refl
length-without_zeros (c ∷ cs) = ap suc (length-without_zeros cs)

-- A string in Base64, its code and its checksum.
abbrev pub packet : Primitives → List ℕ → ℕ → List ℕ
packet p enc c = (enc ++ without_zeros (p.hmac generator_key enc)) ++ hex8 c

-- A text of 32 characters or more has its code inside of the block.
pub received_hmac-long :
    (p : Primitives) (m : Memory)
    → 32 ≤ length (text m)
    → received_hmac p m ≡ take 32 (drop (hmac_offset (length (text m))) m.message)
unfolding received_hmac
received_hmac-long p m h = ground arith

module _ (p : Primitives) (law : IsDocumented p) where
  -- The checksum is appended, and the next handler called.
  pub generate_checksum-text :
      (next : Option Handler) (size c : ℕ) (m : Memory)
      → p.crc (text m) ≡ some c
      → length (text m) + 8 < 4000
      → generate_checksum p next size m
        ≡ handle_next next size (write_message (length (text m)) (hex8 c ++ 0 ∷ []) m)
  unfolding generate_checksum
  generate_checksum-text next size c m e h = ground (arith, length-hex8 c)

  pub text-checksum :
      (c : ℕ) (m : Memory)
      → length (text m) + 8 < length m.message
      → text (write_message (length (text m)) (hex8 c ++ 0 ∷ []) m) ≡ text m ++ hex8 c
  text-checksum c m h =
      c_string-write_at_end (hex8 c) m.message (hex8-NoZero c) (omega (arith, length-hex8 c))

  -- A checksum that is right is taken off, and the next handler called.
  pub verify_checksum-text :
      (next : Option Handler) (size c : ℕ) (m : Memory) (s : List ℕ)
      → text m ≡ s ++ hex8 c
      → p.crc s ≡ some c
      → c < 2 ^ 32
      → verify_checksum p next size m ≡ handle_next next size (write_message (length s) (0 ∷ []) m)
  unfolding verify_checksum received_crc
  verify_checksum-text next size c m s e k h =
      let l : length (text m) ≡ length s + 8 =
        ap length e ∙ length-append s (hex8 c) ∙ ap (λ n. length s + n) (length-hex8 c) in
      let n : length (text m) - 8 ≡ length s = omega (arith, l) in
      let front : take (length (text m) - 8) (text m) ≡ s =
        ap (λ k. take k (text m)) n ∙ ap (take (length s)) e ∙ take-append_left s (hex8 c) in
      let back : drop (length (text m) - 8) (text m) ≡ hex8 c =
        ap (λ k. drop k (text m)) n ∙ ap (drop (length s)) e ∙ drop-append_left s (hex8 c) in
      let read : scan_hex8 (drop (length (text m) - 8) (text m)) ≡ some c =
        ap scan_hex8 back ∙ scan_hex8-hex8 c h in
      let same : p.crc (take (length (text m) - 8) (text m)) ≡ some c = ap p.crc front ∙ k in
      ground (arith, l, n, same, read)

  pub text-write_zero :
      (n : ℕ) (m : Memory)
      → n < length (text m)
      → text (write_message n (0 ∷ []) m) ≡ take n (text m)
  text-write_zero n m h = c_string-write_zero n m.message h

  -- A code that is right is taken off, and the next handler called.
  pub verify_authentication-text :
      (next : Option Handler) (size : ℕ) (m : Memory) (s : List ℕ)
      → text m ≡ s ++ without_zeros (p.hmac generator_key s)
      → length s + 32 < 2 ^ 32
      → verify_authentication p next size m
        ≡ handle_next next size (write_message (length s) (0 ∷ []) m)
  unfolding verify_authentication
  verify_authentication-text next size m s e h =
      let code = without_zeros (p.hmac generator_key s) in
      let lc : length code ≡ 32 =
        length-without_zeros (p.hmac generator_key s) ∙ law.length-hmac generator_key s in
      let l : length (text m) ≡ length s + 32 =
        ap length e ∙ length-append s code ∙ ap (λ n. length s + n) lc in
      let n : hmac_offset (length (text m)) ≡ length s = omega (arith, l) in
      let whole : take (length s + 32) m.message ≡ s ++ code =
        take_text (length s + 32) m.message (omega (arith, l))
        ∙ ap (λ k. take k (text m)) (sym l)
        ∙ take_all (length (text m)) (text m) (omega arith)
        ∙ e in
      let received : take 32 (drop (hmac_offset (length (text m))) m.message) ≡ code =
        ap (λ k. take 32 (drop k m.message)) n
        ∙ take-drop 32 (length s) m.message
        ∙ ap (drop (length s)) whole
        ∙ drop-append_left s code in
      let shorter : text (write_message (hmac_offset (length (text m))) (0 ∷ []) m) ≡ s =
        text-write_zero (hmac_offset (length (text m))) m (omega (arith, l, n))
        ∙ ap (λ k. take k (text m)) n
        ∙ ap (take (length s)) e
        ∙ take-append_left s code in
      let offset = hmac_offset (length (text m)) in
      let m' = write_message offset (0 ∷ []) m in
      let same : eq_bytes (take 32 (drop offset m.message))
            (without_zeros (p.hmac generator_key (text m')))
          ≡ true =
        ap (λ r. eq_bytes r (without_zeros (p.hmac generator_key (text m')))) received
        ∙ ap (λ t. eq_bytes code (without_zeros (p.hmac generator_key t))) shorter
        ∙ eq_bytes_refl code in
      let inside = received_hmac-long p m (omega (arith, l)) in
      let passed : verify_authentication p next size m ≡ handle_next next size m' =
        rw inside (rw same refl) in
      passed ∙ ap (λ k. handle_next next size (write_message k (0 ∷ []) m)) n

  pub length-code : (s : List ℕ) → length (without_zeros (p.hmac generator_key s)) ≡ 32
  length-code s = length-without_zeros (p.hmac generator_key s) ∙ law.length-hmac generator_key s
