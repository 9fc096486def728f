-- ===== src/Cellular/Module.antt =====
-- Modules/CellularModule/CellularModule.h and ConnectionState.h: the module's data, and what a
-- connection state does to it. The AT handler is the power manager's: the source shares it.
use gateway_lo_ra.Prelude.{ℕ, Bool, true, false, List, Option, none, ℤ}
use gateway_lo_ra.Timer
use gateway_lo_ra.Timer.{Delay}
use gateway_lo_ra.AtHandler.{send_at_command, read_at_response_sized}
use gateway_lo_ra.Power.State.{Manager, Inputs}
use gateway_lo_ra.Cellular.Responses.{NetworkStatus, OperatorInformation, TimeAndDate}

-- `CellularConnectionStatus_t`
pub data ConnectionStatus : Type 0 where
  unavailable_status disconnected module_disconnected trying_to_connect : ConnectionStatus
  poor_signal unavailable_to_register unavailable_to_retriv_operators_info : ConnectionStatus
  unavailable_to_retriv_datetime unavailable_to_attach_to_packet_service : ConnectionStatus
  unavailable_to_set_pdp_context invalid_sim connected_to_network error_null_pointer :
      ConnectionStatus

-- The fields of a state that waits for one answer.
pub record Waiting : Type 0 where
  pub ready_to_send : Bool
  pub connection_attempts : ℕ

-- The fields of a state that waits for data and then for OK: a flag such as `IMEIRetrived` and the
-- data that it stands for are one option.
pub record Retrieving (V : Type 0) : Type 0 where
  pub ready_to_send : Bool
  pub retrieved : Option V
  pub connection_attempts : ℕ

-- The fields of `CheckingSignalStrength`: its second counter.
pub record Signal : Type 0 where
  pub level : Retrieving ℤ
  pub connection_attempts_signal : ℕ

-- The classes that derive from `ConnectionState`.
pub data ConnectionState : Type 0 where
  unavailable connected : ConnectionState
  idle attaching defining_pdp : Waiting → ConnectionState
  checking_signal : Signal → ConnectionState
  consulting_imei : Retrieving ℤ → ConnectionState
  consulting_sim : Retrieving (Unit {0}) → ConnectionState
  consulting_network : Retrieving NetworkStatus → ConnectionState
  consulting_operators : Retrieving OperatorInformation → ConnectionState
  retrieving_time : Retrieving TimeAndDate → ConnectionState

-- `CellInformation`
pub record CellInformation : Type 0 where
  pub signal_level : ℤ
  pub imei : ℤ
  pub network : NetworkStatus
  pub operator : OperatorInformation
  pub timestamp : List ℕ

-- `CellularModule`, with the caller's cell information and the text from which the clock was set.
pub record Module : Type 0 where
  pub power : Manager
  pub refresh_time : Delay
  pub connection : ConnectionState
  pub sim_card_switch : Bool
  pub cell : CellInformation
  pub clock_set_from : List ℕ

-- the constructors of the states
abbrev pub fresh_waiting : Waiting
fresh_waiting = record { ready_to_send = true; connection_attempts = 0 }

abbrev pub fresh : {V : Type 0} → Retrieving V
fresh = record { ready_to_send = true; retrieved = none; connection_attempts = 0 }

-- `changeConnectionState`
unfoldable pub change_connection_state : ConnectionState → Module → Module
change_connection_state s m = record m { connection = s }

-- `ATHandler->sendATCommand (command)`
unfoldable pub send : List ℕ → Module → Module
send command m = record m {
  power = record (m.power) { handler = send_at_command command m.power.handler };
}

-- `ATHandler->readATResponse (StringToBeRead, BUFFER_LEN)`
unfoldable pub receive : Module → Option (List ℕ) × Module
receive m =
    let (line, handler) = read_at_response_sized false 128 m.power.handler in
    (line, record m { power = record (m.power) { handler = handler } })

-- `refreshTime->restart ()`
unfoldable pub restart_refresh : Inputs → Module → Module
restart_refresh i m = record m { refresh_time = Timer.restart i.now m.refresh_time }

-- `refreshTime->read ()`
unfoldable pub read_refresh : Inputs → Module → Bool × Module
read_refresh i m = (
  (Timer.read i.now m.refresh_time).0,
  record m { refresh_time = (Timer.read i.now m.refresh_time).1 },
)
