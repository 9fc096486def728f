-- ===== src/Power/Manager.antt =====
-- Modules/PowerManager/PowerManager.cpp: each call goes to the state of the moment.
use gateway_lo_ra.Prelude.{Bool, true, false, List, Option, none, ℕ}
use gateway_lo_ra.Power.State.{
  PowerStatus, sleep, PowerState, off, manual_off, on, asleep, Manager, Inputs,
}
use gateway_lo_ra.Power.On
use gateway_lo_ra.Power.On.{BatteryData}
use gateway_lo_ra.Power.Off
use gateway_lo_ra.Power.ManualOff
use gateway_lo_ra.Power.Sleep

-- the virtual calls of the states
abbrev state_start_stop_update : PowerState → Inputs → Manager → PowerStatus × Manager
state_start_stop_update off i m = Off.start_stop_update i m
state_start_stop_update (manual_off s) i m = ManualOff.start_stop_update i s m
state_start_stop_update (on s) i m = On.start_stop_update i s m
state_start_stop_update asleep i m = (sleep, m)

abbrev state_turn_on : PowerState → Inputs → Manager → Bool × Manager
state_turn_on off i m = Off.turn_on i m
state_turn_on (manual_off s) i m = ManualOff.turn_on i m
state_turn_on (on s) i m = (true, m)
state_turn_on asleep i m = Sleep.turn_on m

abbrev state_turn_off : PowerState → Inputs → Manager → Bool × Manager
state_turn_off off i m = Off.turn_off m
state_turn_off (manual_off s) i m = ManualOff.turn_off m
state_turn_off (on s) i m = On.turn_off i s m
state_turn_off asleep i m = Sleep.turn_off i m

abbrev state_go_to_sleep : PowerState → Inputs → Manager → Bool × Manager
state_go_to_sleep (on s) i m = On.go_to_sleep i s m
state_go_to_sleep asleep i m = (true, m)
state_go_to_sleep _ i m = (false, m)

abbrev state_awake : PowerState → Manager → Manager
state_awake asleep m = Sleep.awake m
state_awake _ m = m

abbrev state_reboot : PowerState → Inputs → Manager → Bool × Manager
state_reboot (on s) i m = On.reboot i s m
state_reboot _ i m = (false, m)

abbrev state_measure_battery :
    {Float : Type 0}
    → PowerState
    → (List ℕ → Option (BatteryData Float))
    → Inputs
    → Manager
    → Option (BatteryData Float) × Manager
state_measure_battery (on s) scan i m = On.measure_battery scan i s m
state_measure_battery _ scan i m = (none, m)

unfoldable pub start_stop_update : Inputs → Manager → PowerStatus × Manager
unfolding Off.start_stop_update ManualOff.start_stop_update On.start_stop_update
start_stop_update i m = state_start_stop_update m.state i m

unfoldable pub turn_off : Inputs → Manager → Bool × Manager
unfolding Off.turn_off ManualOff.turn_off On.turn_off Sleep.turn_off
turn_off i m = state_turn_off m.state i m

unfoldable pub turn_on : Inputs → Manager → Bool × Manager
unfolding Off.turn_on ManualOff.turn_on Sleep.turn_on
turn_on i m = state_turn_on m.state i m

unfoldable pub go_to_sleep : Inputs → Manager → Bool × Manager
unfolding On.go_to_sleep
go_to_sleep i m = state_go_to_sleep m.state i m

unfoldable pub awake : Manager → Manager
unfolding Sleep.awake
awake m = state_awake m.state m

unfoldable pub reboot : Inputs → Manager → Bool × Manager
unfolding On.reboot
reboot i m = state_reboot m.state i m

unfoldable pub measure_battery :
    {Float : Type 0}
    → (List ℕ → Option (BatteryData Float))
    → Inputs
    → Manager
    → Option (BatteryData Float) × Manager
unfolding On.measure_battery
measure_battery scan i m = state_measure_battery m.state scan i m
