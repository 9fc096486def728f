-- ===== src/Power/State.antt =====
-- Modules/PowerManager/PowerManager.h and PowerState.h: the manager's data, and the calls by which
-- a power state acts on it.
use gateway_lo_ra.Prelude.{ℕ, Bool, true, false, List, Option, none, some, codes, eq_bytes}
use gateway_lo_ra.Timer
use gateway_lo_ra.Timer.{Delay}
use gateway_lo_ra.AtHandler.{AtHandler, send_at_command, read_at_response}

-- `powerStatus_t`
pub data PowerStatus : Type 0 where
  power_off manual_power_off power_on sleep : PowerStatus

-- The fields of a `PowerONState`.
pub record OnFields : Type 0 where
  pub manual_turning_power : Bool
  pub signal_turning_power_up : Bool
  pub turning_down : Bool
  pub turn_off_was_call : Bool

-- The fields of a `ManualPowerOFFState`.
pub record ManualOffFields : Type 0 where
  pub manual_turning_power : Bool
  pub signal_turning_power_up : Bool
  pub turning_up : Bool
  pub turn_on_counter : ℕ
  pub button_pushed : Bool

-- The classes that derive from `PowerState`.
pub data PowerState : Type 0 where
  off : PowerState
  manual_off : ManualOffFields → PowerState
  on : OnFields → PowerState
  asleep : PowerState

-- The static variables of a `turnOff`.
pub record TurnOff : Type 0 where
  pub ready_to_send : Bool
  pub hard_power_off_under_process : Bool
  pub retry_counter : ℕ

-- `PowerManager`, with the static variables of the states' methods: they outlive the states.
pub record Manager : Type 0 where
  pub state : PowerState
  pub timer : Delay
  pub handler : AtHandler
  pub power_key : Bool
  pub power_down : Bool
  pub power_key_sleep : Bool
  pub turning_power : Bool
  pub turn_off_counter : ℕ
  pub reboot_ready : Bool
  pub sleep_ready : Bool
  pub battery_ready : Bool
  pub on_turn_off : TurnOff
  pub sleep_turn_off : TurnOff
  pub signal_turning_on : Bool

-- What a call finds outside: the tick counter, and the levels of the two input pins.
pub record Inputs : Type 0 where
  pub now : ℕ
  pub power_status : Bool
  pub control_button : Bool

-- The static variables before their first use.
abbrev pub fresh_turn_off : TurnOff
fresh_turn_off = record {
  ready_to_send = true;
  hard_power_off_under_process = false;
  retry_counter = 0;
}

-- The constructor of `PowerManager`, on an AT handler and a delay.
abbrev pub new : AtHandler → Delay → Manager
new handler timer = record {
  state = off;
  timer = timer;
  handler = handler;
  power_key = false;
  power_down = true;
  power_key_sleep = false;
  turning_power = false;
  turn_off_counter = 0;
  reboot_ready = true;
  sleep_ready = true;
  battery_ready = true;
  on_turn_off = fresh_turn_off;
  sleep_turn_off = fresh_turn_off;
  signal_turning_on = false;
}

-- `changePowerState (new PowerOFFState (manager))`
unfoldable pub become_off : Manager → Manager
become_off m = record m { state = off }

-- `changePowerState (new ManualPowerOFFState (manager))`: the constructor also drives the power
-- down output low.
unfoldable pub become_manual_off : Manager → Manager
become_manual_off m = record m {
  state = manual_off (record {
    manual_turning_power = false;
    signal_turning_power_up = false;
    turning_up = false;
    turn_on_counter = 0;
    button_pushed = false;
  });
  power_down = false;
}

-- `changePowerState (new PowerONState (manager))`
unfoldable pub become_on : Manager → Manager
become_on m = record m {
  state = on (record {
    manual_turning_power = false;
    signal_turning_power_up = false;
    turning_down = false;
    turn_off_was_call = false;
  });
}

-- `changePowerState (new SleepState (manager))`
unfoldable pub become_asleep : Manager → Manager
become_asleep m = record m { state = asleep }

-- `powerChangeDurationTimer->read ()`
unfoldable pub read_timer : Inputs → Manager → Bool × Manager
read_timer i m = ((Timer.read i.now m.timer).0, record m { timer = (Timer.read i.now m.timer).1 })

-- `powerChangeDurationTimer->restart ()`
unfoldable pub restart_timer : Inputs → Manager → Manager
restart_timer i m = record m { timer = Timer.restart i.now m.timer }

-- `AThandler->sendATCommand (command)`
unfoldable pub send : List ℕ → Manager → Manager
send command m = record m { handler = send_at_command command m.handler }

-- `AThandler->readATResponse (StringToBeRead)`
unfoldable pub receive : Manager → Option (List ℕ) × Manager
receive m = (
  (read_at_response false m.handler).0,
  record m { handler = (read_at_response false m.handler).1 },
)

-- A line was read, and `strcmp` finds it equal to the expected one.
abbrev pub is_response : List ℕ → Option (List ℕ) → Bool
is_response expected none = false
is_response expected (some line) = eq_bytes line expected

-- `AT_CMD_POWER_DOWN` and the answer that it waits for
abbrev pub power_down_command : List ℕ
power_down_command = codes "AT+QPOWD"

abbrev pub powered_down : List ℕ
powered_down = codes "POWERED DOWN"

-- `MAX_TRIES`
abbrev pub max_tries : ℕ
max_tries = 10
