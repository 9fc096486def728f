-- ===== src/Gateway/Chunks.antt =====
-- The chunks that Modules/Gateway/GatewayState/SendingAck cuts the acknowledgement in.
use gateway_lo_ra.Prelude.{
  ℕ, zero, suc, ◌+◌, ◌-◌, ◌/◌, ◌^◌, ◌≤◌, ◌<◌, ◌≡◌, refl, ◌∙◌, sym, ap, true, List, [], ◌∷◌, ◌++◌,
  ltb, if◌then◌else◌, length, take, drop, arith, length-drop, take_all, ◌⊎◌, inl, inr,
}
use gateway_lo_ra.Messages.Base.{Memory, text}
use gateway_lo_ra.Messages.Memory.{take-drop, take_text}
use gateway_lo_ra.Gateway.Ack.{SendingAck, send_chunk, end_round, current_chunk_size}

-- A text in n pieces of 255 bytes, the last ones what is left.
abbrev pub pieces : ℕ → List ℕ → List (List ℕ)
pieces zero s = []
pieces (suc n) s = take 255 s ∷ pieces n (drop 255 s)

-- The calls that find the delay over, at these ticks.
unfoldable pub send_chunks : List ℕ → SendingAck → SendingAck
send_chunks [] a = a
send_chunks (now ∷ ticks) a = send_chunks ticks (send_chunk now a)

take_as_255 :
    (c : ℕ) (s : List ℕ) → (c ≡ 255) ⊎ ((c ≡ length s) × (c < 255)) → take c s ≡ take 255 s
take_as_255 c s (inl e) = ap (λ n. take n s) e
take_as_255 c s (inr e) =
    take_all c s (omega (arith, e.0)) ∙ sym (take_all 255 s (omega (arith, e.0, e.1)))

chunk_piece :
    (m : Memory) (index : ℕ)
    → index ≤ length (text m)
    → length (text m) < 2 ^ 32
    → take (current_chunk_size (length (text m)) index) (drop index m.message)
      ≡ take 255 (drop index (text m))
chunk_piece m index h bound =
    let c = current_chunk_size (length (text m)) index in
    let inside : index + c ≤ length (text m) = ground arith in
    take-drop c index m.message
    ∙ ap (drop index) (take_text (index + c) m.message inside)
    ∙ sym (take-drop c index (text m))
    ∙ take_as_255 c (drop index (text m)) (ground (arith, length-drop index (text m)))

-- A call inside of a round.
module _ (now : ℕ) (a : SendingAck) (bound : length (text a.memory) < 2 ^ 32) where
  send_chunk_inside :
      a.string_index + 255 ≤ length (text a.memory)
      → let a' = send_chunk now a in
        (a'.memory ≡ a.memory)
        × (a'.string_index ≡ a.string_index + 255)
        × (a'.number_of_ack_sendings ≡ a.number_of_ack_sendings)
        × (a'.to_connecting_ethernet ≡ a.to_connecting_ethernet)
        × (a'.packets ≡ a.packets ++ take 255 (drop a.string_index (text a.memory)) ∷ [])
  unfolding send_chunk
  send_chunk_inside h = ground (arith, chunk_piece a.memory a.string_index (omega arith) bound)

  -- The last call of a round.
  send_chunk_last :
      a.string_index ≤ length (text a.memory)
      → length (text a.memory) < a.string_index + 255
      → let a' = send_chunk now a in
        (a'.memory ≡ a.memory)
        × (a'.string_index ≡ 0)
        × (a'.number_of_ack_sendings
            ≡ (if ltb (a.number_of_ack_sendings + 1) 3 then a.number_of_ack_sendings + 1 else 0))
        × (a'.to_connecting_ethernet
            ≡ (if ltb (a.number_of_ack_sendings + 1) 3 then a.to_connecting_ethernet else true))
        × (a'.packets ≡ a.packets ++ take 255 (drop a.string_index (text a.memory)) ∷ [])
  unfolding send_chunk end_round
  send_chunk_last h k = ground (arith, chunk_piece a.memory a.string_index h bound)

append_cons {ℓ} :
    {A : Type ℓ} (xs : List A) (x : A) (ys : List A) → (xs ++ x ∷ []) ++ ys ≡ xs ++ (x ∷ ys)
append_cons [] x ys = refl
append_cons (y ∷ xs) x ys = ap (λ t. y ∷ t) (append_cons xs x ys)

drop_nil : (n : ℕ) → drop {A = ℕ} n [] ≡ []
drop_nil zero = refl
drop_nil (suc n) = refl

drop-drop : (k n : ℕ) (s : List ℕ) → drop k (drop n s) ≡ drop (n + k) s
drop-drop k zero s = ap (λ i. drop i s) (omega arith)
drop-drop k (suc n) [] = drop_nil k ∙ sym (drop_nil (suc n + k))
drop-drop k (suc n) (x ∷ s) =
    let e : suc (n + k) ≡ suc n + k = omega arith in drop-drop k n s ∙ ap (λ i. drop i (x ∷ s)) e

-- How a round that begins with `a` ends with `a'`, n pieces later.
abbrev pub RoundEnds : ℕ → SendingAck → SendingAck → Type 0
RoundEnds n a a' =
    (a'.memory ≡ a.memory)
    × (a'.string_index ≡ 0)
    × (a'.number_of_ack_sendings
        ≡ (if ltb (a.number_of_ack_sendings + 1) 3 then a.number_of_ack_sendings + 1 else 0))
    × (a'.to_connecting_ethernet
        ≡ (if ltb (a.number_of_ack_sendings + 1) 3 then a.to_connecting_ethernet else true))
    × (a'.packets ≡ a.packets ++ pieces n (drop a.string_index (text a.memory)))

pub round_ends :
    (n : ℕ) (ticks : List ℕ) (a : SendingAck)
    → length (text a.memory) < 2 ^ 32
    → a.string_index ≤ length (text a.memory)
    → (length (text a.memory) - a.string_index) / 255 ≡ n
    → length ticks ≡ suc n
    → RoundEnds (suc n) a (send_chunks ticks a)
unfolding send_chunks
round_ends n [] a b h e l = absurd (omega arith)
round_ends zero (now ∷ []) a b h e l = send_chunk_last now a b h (omega arith)
round_ends zero (now ∷ t ∷ ts) a b h e l = absurd (omega arith)
round_ends (suc n) (now ∷ ticks) a b h e l =
    let a1 = send_chunk now a in
    let (same, index, number, flag, sent) = send_chunk_inside now a b (omega arith) in
    let total : length (text a1.memory) ≡ length (text a.memory) = ap (λ m. length (text m)) same in
    let (same', index', number', flag', sent') =
      round_ends n ticks a1 (omega (arith, total)) (omega (arith, total, index))
        (omega (arith, total, index)) (omega arith) in
    let rest : drop a1.string_index (text a1.memory)
        ≡ drop 255 (drop a.string_index (text a.memory)) =
      ap (λ m. drop a1.string_index (text m)) same
      ∙ ap (λ k. drop k (text a.memory)) index
      ∙ sym (drop-drop 255 a.string_index (text a.memory)) in
    (
      same' ∙ same,
      index',
      number' ∙ ap (λ k. if ltb (k + 1) 3 then k + 1 else 0) number,
      flag' ∙ ground (arith, number, flag),
      sent'
          ∙ ap (λ r. a1.packets ++ pieces (suc n) r) rest
          ∙ ap (λ ps. ps ++ pieces (suc n) (drop 255 (drop a.string_index (text a.memory)))) sent
          ∙ append_cons a.packets (take 255 (drop a.string_index (text a.memory)))
              (pieces (suc n) (drop 255 (drop a.string_index (text a.memory)))),
    )
