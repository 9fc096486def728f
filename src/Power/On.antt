-- ===== src/Power/On.antt =====
-- Modules/PowerManager/PowerState/PowerONState
use gateway_lo_ra.Prelude.{
  ℕ, ◌+◌, Bool, true, false, not, ◌&&◌, List, Option, none, some, codes, starts_with, drop, ◌==◌,
  leb, if◌then◌else◌,
}
use gateway_lo_ra.Power.State.{
  PowerStatus, power_off, manual_power_off, power_on, OnFields, on, Manager, TurnOff, Inputs,
  become_off, become_manual_off, become_asleep, read_timer, restart_timer, send, receive,
  is_response, power_down_command, powered_down, max_tries,
}

-- `MAX_COUNT_TURN_OFF`
abbrev pub max_count_turn_off : ℕ
max_count_turn_off = 20

-- `startStopUpdate`, from "Reading button" on: a low button starts a pulse of the power key.
button_pulse : Inputs → OnFields → Manager → Manager
button_pulse i s m =
    let pressed = not i.control_button in
    let s1 : OnFields =
      if pressed then record s { manual_turning_power = true; turning_down = true } else s in
    let raise = s1.manual_turning_power && not s1.signal_turning_power_up && s1.turning_down in
    let s2 : OnFields = if raise then record s1 { signal_turning_power_up = true } else s1 in
    let m2 : Manager = if raise then restart_timer i (record m { power_key = true }) else m in
    if s2.signal_turning_power_up
    then (let (over, m3) = read_timer i m2 in
        if over && s2.turning_down
        then restart_timer i (record m3 {
          power_key = false;
          state = on (record s2 { signal_turning_power_up = false; turning_down = false });
        })
        else record m3 { state = on s2 })
    else record m2 { state = on s2 }

-- the counter of the polls in a row at which the status pin is high, that is, the modem is off
count_off : Inputs → ℕ → ℕ
count_off i n = if i.power_status then n + 1 else 0

-- `startStopUpdate`. The status that it returns after a change of state is the old object's.
unfoldable pub start_stop_update : Inputs → OnFields → Manager → PowerStatus × Manager
unfolding button_pulse count_off restart_timer read_timer become_off become_manual_off
start_stop_update i s m =
    if s.turn_off_was_call
    then (power_on, m)
    else (let m' = record m { turn_off_counter = count_off i m.turn_off_counter } in
        if m'.turn_off_counter == max_count_turn_off
        then (if s.manual_turning_power
            then (manual_power_off, become_manual_off m')
            else (power_off, become_off m'))
        else (power_on, button_pulse i s m'))

-- `reboot`
unfoldable pub reboot : Inputs → OnFields → Manager → Bool × Manager
unfolding send receive become_off read_timer
reboot i s m =
    let m1 : Manager =
      if m.reboot_ready then send power_down_command (record m { reboot_ready = false }) else m in
    let (response, m2) = receive m1 in
    if is_response powered_down response
    then (true, become_off m2)
    else (let (over, m3) = read_timer i m2 in
        (false, if over then record m3 { reboot_ready = true } else m3))

-- `goToSleep`
unfoldable pub go_to_sleep : Inputs → OnFields → Manager → Bool × Manager
unfolding send receive become_asleep read_timer
go_to_sleep i s m =
    let m1 : Manager =
      if m.sleep_ready then send (codes "AT+QSCLK=1") (record m { sleep_ready = false }) else m in
    let (response, m2) = receive m1 in
    if is_response (codes "OK") response
    then (true, become_asleep (record m2 { power_key_sleep = true }))
    else (let (over, m3) = read_timer i m2 in
        (false, if over then record m3 { sleep_ready = true } else m3))

-- The end of a `turnOff` that had no answer: the command again up to `MAX_TRIES + 1` times, and
-- then the power down output, low for one delay. The static variables are those of the caller.
unfoldable pub turn_off_retry : Inputs → TurnOff → Manager → Bool × (TurnOff × Manager)
unfolding read_timer become_manual_off
turn_off_retry i t m =
    let (over, m') = read_timer i m in
    if leb t.retry_counter max_tries
    then (
      false,
      (
        if over then record t { retry_counter = t.retry_counter + 1; ready_to_send = true } else t,
        m',
      ),
    )
    else (if over
        then (if t.hard_power_off_under_process
            then (
              true,
              (
                record {
                  ready_to_send = true;
                  hard_power_off_under_process = false;
                  retry_counter = 0;
                },
                become_manual_off (record m' { power_down = true }),
              ),
            )
            else (
              false,
              (record t { hard_power_off_under_process = true }, record m' { power_down = false }),
            ))
        else (false, (t, m')))

-- `turnOff`
unfoldable pub turn_off : Inputs → OnFields → Manager → Bool × Manager
unfolding send receive turn_off_retry become_manual_off
turn_off i s m =
    let first = m.on_turn_off.ready_to_send in
    let m1 : Manager =
      if first
      then send power_down_command (record m {
        state = on (record s { turn_off_was_call = true });
        on_turn_off = record (m.on_turn_off) { ready_to_send = false };
      })
      else m in
    let (response, m2) = receive m1 in
    if is_response powered_down response
    then (true, become_manual_off m2)
    else (let (done, (t, m3)) = turn_off_retry i m2.on_turn_off m2 in
        (done, record m3 { on_turn_off = t }))

-- `BatteryData`; the voltage is of the type that stands for `float`.
pub record BatteryData (Float : Type 0) : Type 0 where
  pub battery_charge_status : ℕ
  pub charge_level : ℕ
  pub voltage : Float

-- `retrivBatteryData`. `scan` is `sscanf` with `%d,%d,%f`: `some` if it converts all three.
unfoldable pub retriv_battery_data :
    {Float : Type 0} → (List ℕ → Option (BatteryData Float)) → List ℕ → Option (BatteryData Float)
retriv_battery_data scan line =
    if starts_with (codes "+CBC:") line then scan (drop 5 line) else none

-- `measureBattery`: `some` data is the result true, with the caller's record filled in.
unfoldable pub measure_battery :
    {Float : Type 0}
    → (List ℕ → Option (BatteryData Float))
    → Inputs
    → OnFields
    → Manager
    → Option (BatteryData Float) × Manager
unfolding send receive read_timer retriv_battery_data
measure_battery scan i s m =
    let m1 : Manager =
      if m.battery_ready then send (codes "AT+CBC") (record m { battery_ready = false }) else m in
    let (response, m2) = receive m1 in
    let (over, m3) = read_timer i m2 in
    let waiting : Manager = if over then record m3 { battery_ready = true } else m3 in
    elim response [
      | none ↦ (none, waiting)
      | some line ↦ elim (retriv_battery_data scan line) [
        | none ↦ (none, waiting)
        | some battery ↦ (some battery, m2)
      ]
    ]
