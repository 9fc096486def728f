-- ===== src/Gateway/Due.antt =====
-- The calls of Modules/Gateway/GatewayState/SendingAck that send a packet.
use gateway_lo_ra.Prelude.{
  ℤ, not, ◌&&◌, ◌||◌, ℕ, ◌≡◌, refl, ◌∙◌, ap, Bool, true, List, [], ◌∷◌, if◌then◌else◌, arith,
}
use gateway_lo_ra.Timer
use gateway_lo_ra.Messages.Base.{Primitives}
use gateway_lo_ra.Gateway.Ack.{
  SendingAck, send_acknowledgement, start_back_off, wait_back_off, format_ack, send_when_due,
  send_chunk,
}
use gateway_lo_ra.Gateway.Chunks.{send_chunks}

-- A call that sends: the message is formatted, the first delay has passed, and the delay between
-- packets is over, or no packet was sent so far.
abbrev pub is_due : ℕ → SendingAck → Bool
is_due now a =
    a.message_formatted
    && a.first_delay_passed
    && not a.first_entry
    && ((Timer.read now a.delay).0 || not a.first_chunk_sent)

module _ (p : Primitives) (id_device message_number : ℤ) where
  -- Calls of `sendAcknowledgement` at these ticks.
  unfoldable pub acknowledge : List ℕ → SendingAck → SendingAck
  acknowledge [] a = a
  acknowledge (now ∷ ticks) a =
      acknowledge ticks (send_acknowledgement p id_device message_number now a)

  unfoldable pub are_due : List ℕ → SendingAck → Bool
  are_due [] a = true
  are_due (now ∷ ticks) a =
      let rest = are_due ticks (send_acknowledgement p id_device message_number now a) in
      is_due now a && rest

  start_back_off_later : (now : ℕ) (a : SendingAck) → is_due now a ≡ true → start_back_off now a ≡ a
  unfolding start_back_off
  start_back_off_later now a h = ground arith

  wait_back_off_passed : (now : ℕ) (a : SendingAck) → is_due now a ≡ true → wait_back_off now a ≡ a
  unfolding wait_back_off
  wait_back_off_passed now a h = ground arith

  format_ack_done :
      (now : ℕ) (a : SendingAck)
      → is_due now a ≡ true
      → format_ack p id_device message_number a ≡ (true, a)
  unfolding format_ack
  format_ack_done now a h = ground arith

  -- What a packet does to the delay does not depend on the delay.
  send_chunk_delay :
      (now : ℕ) (a : SendingAck) (d : Timer.Delay)
      → send_chunk now (record a { delay = d }) ≡ send_chunk now a
  unfolding send_chunk Timer.restart Timer.write
  send_chunk_delay now a d = refl

  send_when_due_now :
      (now : ℕ) (a : SendingAck) → is_due now a ≡ true → send_when_due now a ≡ send_chunk now a
  unfolding send_when_due
  send_when_due_now now a h = ground (arith, send_chunk_delay now a (Timer.read now a.delay).1)

  -- `sendAcknowledgement` behind its first delay.
  abbrev passed : ℕ → SendingAck → Bool × SendingAck → SendingAck
  passed now w r = if w.first_delay_passed then (if r.0 then send_when_due now r.1 else r.1) else w

  send_acknowledgement-send_chunk :
      (now : ℕ) (a : SendingAck)
      → is_due now a ≡ true
      → send_acknowledgement p id_device message_number now a ≡ send_chunk now a
  unfolding send_acknowledgement
  send_acknowledgement-send_chunk now a h =
      let formatted = format_ack p id_device message_number in
      let first : a.first_delay_passed ≡ true = ground arith in
      ap (λ w. passed now (wait_back_off now w) (formatted (wait_back_off now w)))
        (start_back_off_later now a h)
      ∙ ap (λ w. passed now w (formatted w)) (wait_back_off_passed now a h)
      ∙ ap (passed now a) (format_ack_done now a h)
      ∙ ap (λ b. if b then send_when_due now a else a) first
      ∙ send_when_due_now now a h

  pub acknowledge-send_chunks :
      (ticks : List ℕ) (a : SendingAck)
      → are_due ticks a ≡ true
      → acknowledge ticks a ≡ send_chunks ticks a
  unfolding acknowledge are_due send_chunks
  acknowledge-send_chunks [] a h = refl
  acknowledge-send_chunks (now ∷ ticks) a h =
      acknowledge-send_chunks ticks (send_acknowledgement p id_device message_number now a)
        (ground arith)
      ∙ ap (send_chunks ticks) (send_acknowledgement-send_chunk now a (ground arith))
