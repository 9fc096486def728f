-- ===== src/Messages/Acceptance.antt =====
-- What `processLoRaMessage` of Modules/Gateway accepts.
use gateway_lo_ra.Prelude.{
  ℕ, ◌+◌, ◌-◌, ◌^◌, ◌≤◌, ◌<◌, ◌≡◌, ◌⊎◌, inl, inr, Bool-cases, leb, ◌∙◌, sym, ap, true, List, [],
  ◌∷◌, Option, none, some, length, take, drop, length-take, arith, eq_bytes, eq_bytes_iff, take_all,
  length-c_string,
}
use gateway_lo_ra.Messages.Base.{
  Primitives, IsDocumented, Memory, Handler, handle_next, text, write_message,
}
use gateway_lo_ra.Messages.Memory.{length-write_at, take-drop, take_text}
use gateway_lo_ra.Messages.Checksum.{verify_checksum, received_crc}
use gateway_lo_ra.Messages.Authentication.{
  verify_authentication, received_hmac, without_zeros, verifier_key, hmac_offset,
}
use gateway_lo_ra.Messages.Encryption.{decrypt_base64}
use gateway_lo_ra.Messages.Chain.{is_processed, process_lora_message}
use gateway_lo_ra.Messages.Appended.{text-write_zero, received_hmac-long}

module _ (p : Primitives) where
  verify_checksum_accepts :
      (next : Option Handler) (size : ℕ) (m : Memory)
      → is_processed (verify_checksum p next size m).0 ≡ true
      → let n = length (text m) - 8 in
        (8 ≤ length (text m))
        × (p.crc (take n (text m)) ≡ some (received_crc (drop n (text m)) m))
        × (is_processed (handle_next next size (write_message n (0 ∷ []) m)).0 ≡ true)
  unfolding verify_checksum
  verify_checksum_accepts next size m h = ground arith

  verify_authentication_accepts :
      (next : Option Handler) (size : ℕ) (m : Memory)
      → is_processed (verify_authentication p next size m).0 ≡ true
      → let n = hmac_offset (length (text m)) in
        eq_bytes
          (received_hmac p m)
          (without_zeros (p.hmac verifier_key (text (write_message n (0 ∷ []) m))))
        ≡ true
  unfolding verify_authentication
  verify_authentication_accepts next size m h = ground arith

module _ (p : Primitives) (law : IsDocumented p) where
  last_bytes :
      (n : ℕ) (m : Memory) → n + 32 ≡ length (text m) → take 32 (drop n m.message) ≡ drop n (text m)
  last_bytes n m e =
      take-drop 32 n m.message
      ∙ ap (drop n) (take_text (n + 32) m.message (omega arith))
      ∙ ap (drop n) (take_all (n + 32) (text m) (omega arith))

  text_authentic :
      (m : Memory)
      → length m.message < 2 ^ 32
      → 32 ≤ length (text m)
      → let n = hmac_offset (length (text m)) in
        received_hmac p m ≡ without_zeros (p.hmac verifier_key (text (write_message n (0 ∷ []) m)))
        → (let n = length (text m) - 32 in
            drop n (text m) ≡ without_zeros (p.hmac verifier_key (take n (text m))))
  text_authentic m bound long e =
      let n = hmac_offset (length (text m)) in
      let m' = write_message n (0 ∷ []) m in
      let shorter = length-c_string m.message in
      let same : n ≡ length (text m) - 32 = omega (arith, long, shorter) in
      let front : text m' ≡ take n (text m) =
        text-write_zero p law n m (omega (arith, same, long)) in
      let equal : drop n (text m) ≡ without_zeros (p.hmac verifier_key (take n (text m))) =
        sym (last_bytes n m (omega (arith, same, long)))
        ∙ sym (received_hmac-long p m long)
        ∙ e
        ∙ ap (λ s. without_zeros (p.hmac verifier_key s)) front in
      rw⁻¹ same equal

-- What is authentic about a text: its last 32 bytes are the code of all before them, under the key
-- and with each byte 0 replaced by '0'.
abbrev pub IsAuthentic : Primitives → List ℕ → Type 0
IsAuthentic p signed =
    drop (length signed - 32) signed
    ≡ without_zeros (p.hmac verifier_key (take (length signed - 32) signed))

long_or_short : (n : ℕ) → (40 ≤ n) ⊎ (n < 40)
long_or_short n = elim (Bool-cases (leb 40 n)) [
  | inl e ↦ inl (ground arith)
  | inr e ↦ inr (ground arith)
]

-- `processLoRaMessage` accepts no message but one of at least eight characters whose last eight are
-- read as the CRC-32 of all before them (or leave an uninitialised number that is equal to it), and
-- where the message has at least 40 characters, the 32 bytes before these eight are the code of all
-- before them, under the key and with each byte 0 replaced by '0'. The block is of less than 2 ^ 32
-- bytes.
pub process_accepts :
    (p : Primitives) (law : IsDocumented p) (size : ℕ) (m : Memory)
    → length m.message < 2 ^ 32
    → (process_lora_message p size m).0 ≡ true
    → let signed = take (length (text m) - 8) (text m) in
      (8 ≤ length (text m))
      × (p.crc signed ≡ some (received_crc (drop (length (text m) - 8) (text m)) m))
      × ((length (text m) < 40) ⊎ IsAuthentic p signed)
unfolding process_lora_message
process_accepts p law size m bound h =
    let next = verify_authentication p (some (decrypt_base64 p none)) in
    let (enough, crc, rest) = verify_checksum_accepts p (some next) size m h in
    let n = length (text m) - 8 in
    let m' = write_message n (0 ∷ []) m in
    let unchecked : text m' ≡ take n (text m) = text-write_zero p law n m (omega (arith, enough)) in
    let same : length m'.message ≡ length m.message = length-write_at n (0 ∷ []) m.message in
    let equal =
      verify_authentication_accepts p (some (decrypt_base64 p none)) size m'
        (unfold handle_next in rest) in
    let kept : length (text m') ≡ length (take n (text m)) = ap length unchecked in
    let authentic = λ (long : 40 ≤ length (text m)).
      text_authentic p law m' (omega (arith, same))
        (omega (arith, long, kept, length-take n (text m))) ((eq_bytes_iff _ _).0 equal) in
    (
      enough,
      crc,
      elim (long_or_short (length (text m))) [
        | inl long ↦ inr (rw⁻¹ unchecked (authentic long))
        | inr short ↦ inl short
      ],
    )
