-- ===== src/Power/Tests.antt =====
-- The theorems on the power manager at concrete managers.
use gateway_lo_ra.Prelude.{
  ℕ, zero, suc, ◌+◌, ◌<◌, ◌≤◌, ◌⊎◌, ◌++◌, ◌≡◌, refl, true, false, List, [], ◌∷◌, Option, none,
  arith, codes, eq_bytes, c_string,
}
use gateway_lo_ra.Timer
use gateway_lo_ra.Timer.{Delay}
use gateway_lo_ra.AtHandler.{AtHandler, send_at_command, read_at_response}
use gateway_lo_ra.Power.State.{Manager, OnFields, Inputs, on, new, become_on}
use gateway_lo_ra.Power.On.{BatteryData}
use gateway_lo_ra.Power.Manager.{turn_off}
use gateway_lo_ra.Power.Graph.{kind, is_on, is_manual_off, sleeps, step, ◌⟶◌, step-⟶}
use gateway_lo_ra.Power.Shutdown.{Poll, shutdown, expiries, waits_left, shutdown_total}
use gateway_lo_ra.Power.Commands.{turn_off-tx, turn_off_silent}

abbrev uart : List ℕ → AtHandler
uart buffer = record { buffer = buffer; rx = b'\r' ∷ []; tx = [] }

abbrev delay : Delay
delay = record { start_time = 0; duration = 700; is_running = true }

abbrev powered : OnFields
powered = record {
  manual_turning_power = false;
  signal_turning_power_up = false;
  turning_down = false;
  turn_off_was_call = false;
}

-- A modem that is on, with `line` received but for its end.
abbrev running : List ℕ → Manager
running line = record (new (uart line) delay) { state = on powered }

abbrev at_tick : ℕ → Inputs
at_tick now = record { now = now; power_status = false; control_button = true }

abbrev no_battery : List ℕ → Option (BatteryData ℕ)
no_battery line = none

step-⟶_example : is_on ⟶ kind (step no_battery sleeps (at_tick 1) (running (codes "OK"))).state
step-⟶_example = step-⟶ no_battery (at_tick 1) (running (codes "OK")) sleeps

-- n polls, each one 700 ticks after the one before
abbrev polls : ℕ → ℕ → List Poll
polls zero now = []
polls (suc n) now = (at_tick now, []) ∷ polls n (now + 700)

silent_expiries : expiries (polls 26 700) (running []) ≡ 13
unfolding expiries turn_off Timer.read read_at_response send_at_command
silent_expiries = refl

shutdown_total_example :
    (((shutdown (polls 26 700) (running [])).0 ≡ true)
        × (kind (shutdown (polls 26 700) (running [])).1.state ≡ is_manual_off)
        × ((shutdown (polls 26 700) (running [])).1.power_down ≡ false)
      ⊎ (((shutdown (polls 26 700) (running [])).0 ≡ false)
          × (expiries (polls 26 700) (running []) < waits_left (running []))))
    × (waits_left (running []) ≤ 13)
shutdown_total_example = shutdown_total (at_tick 700, []) (polls 25 1400) (running [])

turn_off-tx_example :
    (turn_off (at_tick 1) (running [])).1.handler.tx
    ≡ [] ++ (codes "AT+QPOWD" ++ b'\r' ∷ b'\n' ∷ 0 ∷ [])
turn_off-tx_example = turn_off-tx (at_tick 1) (running []) powered refl

answered : (turn_off (at_tick 1) (running (codes "POWERED DOWN"))).0 ≡ true
unfolding turn_off read_at_response eq_bytes c_string send_at_command
answered = refl

turn_off_silent_example :
    let m' = become_on (turn_off (at_tick 1) (running (codes "POWERED DOWN"))).1 in
    (turn_off (at_tick 2) m').1.handler.tx ≡ m'.handler.tx
turn_off_silent_example =
    turn_off_silent (at_tick 1) (at_tick 2) (running (codes "POWERED DOWN")) powered refl
      (omega arith) answered
