-- ===== src/Power/ManualOff.antt =====
-- Modules/PowerManager/PowerState/ManualPowerOFFState
use gateway_lo_ra.Prelude.{ℕ, ◌+◌, Bool, true, false, not, ◌&&◌, ltb, if◌then◌else◌}
use gateway_lo_ra.Power.State.{
  PowerStatus, manual_power_off, power_on, ManualOffFields, manual_off, Manager, Inputs, become_on,
  read_timer, restart_timer,
}

-- `TURN_ON_COUNTER`
abbrev pub turn_on_counter_limit : ℕ
turn_on_counter_limit = 1000

-- `startStopUpdate`, from "Reading button" on: a low button starts a pulse of the power key.
button_pulse : Inputs → ManualOffFields → Manager → Manager
button_pulse i s m =
    let s1 : ManualOffFields =
      if not i.control_button
      then record s { manual_turning_power = true; turning_up = true; button_pushed = true }
      else s in
    let raise = s1.manual_turning_power && not s1.signal_turning_power_up && s1.turning_up in
    let s2 : ManualOffFields = if raise then record s1 { signal_turning_power_up = true } else s1 in
    let m2 : Manager = if raise then restart_timer i (record m { power_key = true }) else m in
    if s2.signal_turning_power_up
    then (let (over, m3) = read_timer i m2 in
        if over && s2.turning_up
        then restart_timer i (record m3 {
          power_key = false;
          state = manual_off (record s2 { signal_turning_power_up = false; turning_up = false });
        })
        else record m3 { state = manual_off s2 })
    else record m2 { state = manual_off s2 }

-- `startStopUpdate`: the modem is taken for on when, after the button, the status pin has been low
-- at more than `TURN_ON_COUNTER` polls before this one.
unfoldable pub start_stop_update : Inputs → ManualOffFields → Manager → PowerStatus × Manager
unfolding button_pulse become_on restart_timer read_timer
start_stop_update i s m =
    let seen = not i.power_status && s.button_pushed in
    if seen && ltb turn_on_counter_limit s.turn_on_counter then (power_on, become_on m) else (
      manual_power_off,
      button_pulse i (if seen then record s { turn_on_counter = s.turn_on_counter + 1 } else s) m,
    )

-- `turnOn`
unfoldable pub turn_on : Inputs → Manager → Bool × Manager
unfolding become_on restart_timer read_timer
turn_on i m =
    let m1 = record m { power_down = true } in
    if not i.power_status
    then (true, become_on m1)
    else (let (over, m2) = read_timer i m1 in
        (
          false,
          (if over
              then restart_timer i (record m2 {
                power_key = not m.signal_turning_on;
                signal_turning_on = not m.signal_turning_on;
              })
              else m2),
        ))

-- `turnOff`
unfoldable pub turn_off : Manager → Bool × Manager
turn_off m = (true, record m { power_down = false })
