-- ===== src/Power/Sleep.antt =====
-- Modules/PowerManager/PowerState/SleepState
use gateway_lo_ra.Prelude.{Bool, true, false, if◌then◌else◌}
use gateway_lo_ra.Power.State.{
  Manager, Inputs, become_on, become_manual_off, send, receive, is_response, power_down_command,
  powered_down,
}
use gateway_lo_ra.Power.On.{turn_off_retry}

-- `awake`
unfoldable pub awake : Manager → Manager
unfolding become_on
awake m = become_on (record m { power_key_sleep = false })

-- `turnOn`
unfoldable pub turn_on : Manager → Bool × Manager
unfolding awake
turn_on m = (true, awake m)

-- `turnOff`: as that of `PowerONState`, on static variables of its own.
unfoldable pub turn_off : Inputs → Manager → Bool × Manager
unfolding send receive turn_off_retry become_manual_off
turn_off i m =
    let m1 : Manager =
      if m.sleep_turn_off.ready_to_send
      then send power_down_command
          (record m { sleep_turn_off = record (m.sleep_turn_off) { ready_to_send = false } })
      else m in
    let (response, m2) = receive m1 in
    if is_response powered_down response
    then (true, become_manual_off m2)
    else (let (done, (t, m3)) = turn_off_retry i m2.sleep_turn_off m2 in
        (done, record m3 { sleep_turn_off = t }))
