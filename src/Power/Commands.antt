-- ===== src/Power/Commands.antt =====
-- The commands that Modules/PowerManager sends to the modem.
use gateway_lo_ra.Prelude.{
  ℕ, ◌≤◌, ◌≡◌, ◌∙◌, refl, true, false, List, [], ◌∷◌, ◌++◌, codes, arith, if◌then◌else◌,
}
use gateway_lo_ra.AtHandler.{
  AtHandler, send_at_command, read_at_response, read_if_readable, read_byte,
}
use gateway_lo_ra.Power.State.{
  on, OnFields, Manager, Inputs, become_on, power_down_command, max_tries,
}
use gateway_lo_ra.Power.On.{turn_off_retry}
use gateway_lo_ra.Power.Manager.{turn_off}

abbrev started : OnFields
started = record {
  manual_turning_power = false;
  signal_turning_power_up = false;
  turning_down = false;
  turn_off_was_call = false;
}

read_byte-tx : (c : ℕ) (h : AtHandler) → (read_byte c h).1.tx ≡ h.tx
unfolding read_byte
read_byte-tx c h = ground arith

poll-tx : (rx : List ℕ) (h : AtHandler) → (read_if_readable read_byte rx h).1.tx ≡ h.tx
unfolding read_if_readable
poll-tx [] h = ground arith
poll-tx (c ∷ cs) h = read_byte-tx c (record h { rx = cs })

read_at_response-tx : (h : AtHandler) → (read_at_response false h).1.tx ≡ h.tx
unfolding read_at_response
read_at_response-tx h = poll-tx h.rx h

turn_off_retry-tx :
    (i : Inputs) (m : Manager) → (turn_off_retry i m.on_turn_off m).1.1.handler ≡ m.handler
unfolding turn_off_retry
turn_off_retry-tx i m = ground arith

turn_off-send_at_command :
    (i : Inputs) (m : Manager) (s : OnFields)
    → m.state ≡ on s
    → (turn_off i m).1.handler.tx ≡ (
        if m.on_turn_off.ready_to_send
        then (send_at_command power_down_command m.handler).tx
        else m.handler.tx)
unfolding turn_off turn_off_retry send_at_command
turn_off-send_at_command i m s e = ground (
  arith,
  read_at_response-tx m.handler,
  read_at_response-tx (unfold send_at_command in send_at_command power_down_command m.handler),
)

-- `turnOff` of a modem that is on sends "AT+QPOWD", CR, LF and a byte 0, in this order and nothing
-- else, if the static flag `readyToSend` is set, and nothing if it is not.
pub turn_off-tx :
    (i : Inputs) (m : Manager) (s : OnFields)
    → m.state ≡ on s
    → (turn_off i m).1.handler.tx ≡ (
        if m.on_turn_off.ready_to_send
        then m.handler.tx ++ (codes "AT+QPOWD" ++ b'\r' ∷ b'\n' ∷ 0 ∷ [])
        else m.handler.tx)
unfolding send_at_command
turn_off-tx i m s e = turn_off-send_at_command i m s e

turn_off_answered :
    (i : Inputs) (m : Manager) (s : OnFields)
    → m.state ≡ on s
    → m.on_turn_off.retry_counter ≤ max_tries
    → (turn_off i m).0 ≡ true
    → (turn_off i m).1.on_turn_off.ready_to_send ≡ false
unfolding turn_off turn_off_retry
turn_off_answered i m s e r h = ground arith

-- After a `turnOff` that the modem answered (its tries not used up), the flag `readyToSend` stays
-- cleared: when the modem is on once more, the next `turnOff` sends no command at all.
pub turn_off_silent :
    (i j : Inputs) (m : Manager) (s : OnFields)
    → m.state ≡ on s
    → m.on_turn_off.retry_counter ≤ max_tries
    → (turn_off i m).0 ≡ true
    → let m' = become_on (turn_off i m).1 in (turn_off j m').1.handler.tx ≡ m'.handler.tx
unfolding become_on
turn_off_silent i j m s e r h =
    turn_off-tx j (become_on (turn_off i m).1) started refl
    ∙ rw (turn_off_answered i m s e r h) refl
