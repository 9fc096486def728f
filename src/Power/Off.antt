-- ===== src/Power/Off.antt =====
-- Modules/PowerManager/PowerState/PowerOFFState
use gateway_lo_ra.Prelude.{Bool, true, false, not, if◌then◌else◌}
use gateway_lo_ra.Power.State.{
  PowerStatus, power_off, power_on, Manager, Inputs, become_on, become_manual_off, read_timer,
  restart_timer,
}

-- The first half of a pulse of the power key: a delay that is over raises it.
raise_key : Inputs → Manager → Manager
raise_key i m =
    if m.turning_power
    then m
    else (let (over, m') = read_timer i m in
        if over then restart_timer i (record m' { power_key = true; turning_power = true }) else m')

-- The second half: with the key raised, a delay that is over lowers it.
lower_key : Inputs → Manager → Manager
lower_key i m =
    if m.turning_power
    then (let (over, m') = read_timer i m in
        if over
        then restart_timer i (record m' { power_key = false; turning_power = false })
        else m')
    else m

-- `startStopUpdate`. A low status pin tells that the modem is on.
unfoldable pub start_stop_update : Inputs → Manager → PowerStatus × Manager
unfolding raise_key lower_key become_on read_timer restart_timer
start_stop_update i m =
    if not i.power_status then (power_on, become_on m) else (power_off, lower_key i (raise_key i m))

abbrev is_on : PowerStatus → Bool
is_on power_on = true
is_on _ = false

-- `turnOn`
unfoldable pub turn_on : Inputs → Manager → Bool × Manager
unfolding start_stop_update
turn_on i m = (is_on (start_stop_update i m).0, (start_stop_update i m).1)

-- `turnOff`
unfoldable pub turn_off : Manager → Bool × Manager
unfolding become_manual_off
turn_off m = (true, become_manual_off m)
