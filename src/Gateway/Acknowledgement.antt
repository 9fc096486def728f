-- ===== src/Gateway/Acknowledgement.antt =====
-- The packets that Modules/Gateway/GatewayState/SendingAck gives to the radio.
use gateway_lo_ra.Prelude.{
  subst, ℤ, ℕ, zero, suc, ◌+◌, ◌*◌, ◌/◌, ◌^◌, ◌≤◌, ◌<◌, ◌≡◌, refl, ◌∙◌, sym, ap, true, false, List,
  [], ◌∷◌, ◌++◌, ltb, if◌then◌else◌, length, take, drop, arith, length-drop, length-take,
  take-append-drop,
}
use gateway_lo_ra.Messages.Base.{Primitives, text}
use gateway_lo_ra.Gateway.Ack.{SendingAck}
use gateway_lo_ra.Gateway.Chunks.{pieces, send_chunks, RoundEnds, round_ends}
use gateway_lo_ra.Gateway.Due.{acknowledge, are_due, acknowledge-send_chunks}

abbrev pub concat : List (List ℕ) → List ℕ
concat [] = []
concat (s ∷ ss) = s ++ concat ss

abbrev pub AllFit : List (List ℕ) → Type 0
AllFit [] = Unit {0}
AllFit (s ∷ ss) = (length s ≤ 255) × AllFit ss

concat-pieces : (n : ℕ) (s : List ℕ) → length s ≤ 255 * n → concat (pieces n s) ≡ s
concat-pieces zero [] h = refl
concat-pieces zero (x ∷ s) h = absurd (omega arith)
concat-pieces (suc n) s h =
    ap (λ r. take 255 s ++ r) (concat-pieces n (drop 255 s) (omega (arith, length-drop 255 s)))
    ∙ take-append-drop 255 s

pieces-AllFit : (n : ℕ) (s : List ℕ) → AllFit (pieces n s)
pieces-AllFit zero s = tt
pieces-AllFit (suc n) s = ((omega (arith, length-take 255 s)), pieces-AllFit n (drop 255 s))

-- A round of calls, each of which sends.
round_acknowledged :
    (p : Primitives) (id_device message_number : ℤ) (ticks : List ℕ) (a : SendingAck) (s : List ℕ)
    → text a.memory ≡ s
    → length s < 2 ^ 32
    → a.string_index ≡ 0
    → length ticks ≡ suc (length s / 255)
    → are_due p id_device message_number ticks a ≡ true
    → let a' = acknowledge p id_device message_number ticks a in
      (text a'.memory ≡ s)
      × (a'.string_index ≡ 0)
      × (a'.number_of_ack_sendings
          ≡ (if ltb (a.number_of_ack_sendings + 1) 3 then a.number_of_ack_sendings + 1 else 0))
      × (a'.to_connecting_ethernet
          ≡ (if ltb (a.number_of_ack_sendings + 1) 3 then a.to_connecting_ethernet else true))
      × (a'.packets ≡ a.packets ++ pieces (suc (length s / 255)) s)
round_acknowledged p id_device message_number ticks a s e b i l d =
    let n = length s / 255 in
    let total : length (text a.memory) ≡ length s = ap length e in
    let same = acknowledge-send_chunks p id_device message_number ticks a d in
    let ends : RoundEnds (suc n) a (send_chunks ticks a) =
      round_ends n ticks a (omega (arith, total)) (omega arith) (omega (arith, total)) l in
    let ends' : RoundEnds (suc n) a (acknowledge p id_device message_number ticks a) =
      subst (λ r. RoundEnds (suc n) a r) (sym same) ends in
    let (memory, index, number, flag, packets) = ends' in
    (
      ap text memory ∙ e,
      index,
      number,
      flag,
      packets
          ∙ ap (λ k. a.packets ++ pieces (suc n) (drop k (text a.memory))) i
          ∙ ap (λ t. a.packets ++ pieces (suc n) t) e,
    )

-- A formatted acknowledgement is sent three times over, and then the state changes and not before:
-- where sendAcknowledgement is called at polls that all find the delay over, as many in a round as
-- the length of the text by 255 and one more, the radio is given in each of the three rounds the
-- pieces of the text, none of them longer than 255 bytes, which are the text when put together. The
-- text has less than 2 ^ 32 bytes.
pub rounds_sent :
    (p : Primitives) (id_device message_number : ℤ) (t1 t2 t3 : List ℕ) (a : SendingAck)
    → length (text a.memory) < 2 ^ 32
    → a.string_index ≡ 0
    → a.number_of_ack_sendings ≡ 0
    → a.to_connecting_ethernet ≡ false
    → length t1 ≡ suc (length (text a.memory) / 255)
    → length t2 ≡ suc (length (text a.memory) / 255)
    → length t3 ≡ suc (length (text a.memory) / 255)
    → let run = acknowledge p id_device message_number in
      let due = are_due p id_device message_number in
      due t1 a ≡ true
      → due t2 (run t1 a) ≡ true
      → due t3 (run t2 (run t1 a)) ≡ true
      → let a2 = run t2 (run t1 a) in
        let a3 = run t3 a2 in
        let sent = pieces (suc (length (text a.memory) / 255)) (text a.memory) in
        (a2.to_connecting_ethernet ≡ false)
        × (a3.to_connecting_ethernet ≡ true)
        × (a3.packets ≡ a.packets ++ sent ++ sent ++ sent)
        × (concat sent ≡ text a.memory)
        × AllFit sent
rounds_sent p id n t1 t2 t3 a b i c f l1 l2 l3 d1 d2 d3 =
    let s = text a.memory in
    let a1 = acknowledge p id n t1 a in
    let a2 = acknowledge p id n t2 a1 in
    let (e1, i1, c1, f1, p1) = round_acknowledged p id n t1 a s refl b i l1 d1 in
    let (e2, i2, c2, f2, p2) = round_acknowledged p id n t2 a1 s e1 b i1 l2 d2 in
    let (e3, i3, c3, f3, p3) = round_acknowledged p id n t3 a2 s e2 b i2 l3 d3 in
    let sent = pieces (suc (length s / 255)) s in
    (
      ground (arith, c, f, c1, f1, f2),
      ground (arith, c, c1, c2, f3),
      p3 ∙ ap (λ q. q ++ sent) (p2 ∙ ap (λ q. q ++ sent) p1),
      concat-pieces (suc (length s / 255)) s (omega arith),
      pieces-AllFit (suc (length s / 255)) s,
    )
