-- ===== src/Cellular/Connect.antt =====
-- Modules/CellularModule/ConnectionState: `connect` of the current state, as the module calls it,
-- and the count of the expired delays at its end.
use gateway_lo_ra.Prelude.{ℕ, ◌+◌, Bool, true, false, none, leb, if◌then◌else◌}
use gateway_lo_ra.Power.State.{Inputs}
use gateway_lo_ra.Power.Manager.{reboot}
use gateway_lo_ra.Cellular.Module.{
  ConnectionStatus, unavailable_status, module_disconnected, trying_to_connect,
  unavailable_to_register, unavailable_to_retriv_operators_info, unavailable_to_retriv_datetime,
  unavailable_to_attach_to_packet_service, unavailable_to_set_pdp_context, invalid_sim,
  connected_to_network, Waiting, Retrieving, ConnectionState, unavailable, idle, attaching,
  defining_pdp, checking_signal, consulting_imei, consulting_sim, consulting_network,
  consulting_operators, retrieving_time, connected, Module, fresh_waiting, change_connection_state,
  read_refresh,
}
use gateway_lo_ra.Cellular.Connection.{
  Outcome, done, waits, attempt_idle, attempt_signal, attempt_imei, attempt_sim, attempt_network,
  attempt_operators, attempt_time, attempt_attaching, attempt_pdp,
}

-- `MAXATTEMPTS`, and `MAX_ATTEMPTS_TIMEOUT_NO_RESPONSE` of `CheckingSignalStrength`
abbrev pub max_attempts : ℕ
max_attempts = 20

abbrev pub max_attempts_no_response : ℕ
max_attempts_no_response = 40

-- `connect` up to the poll of `refreshTime`
unfoldable pub attempt : Inputs → Module → Outcome
attempt i m = elim m.connection [
  | unavailable ↦ done unavailable_status m
  | connected ↦ done connected_to_network m
  | idle s ↦ attempt_idle s m
  | checking_signal s ↦ attempt_signal i s m
  | consulting_imei s ↦ attempt_imei i s m
  | consulting_sim s ↦ attempt_sim i s m
  | consulting_network s ↦ attempt_network i s m
  | consulting_operators s ↦ attempt_operators i s m
  | retrieving_time s ↦ attempt_time i s m
  | attaching s ↦ attempt_attaching s m
  | defining_pdp s ↦ attempt_pdp s m
]

-- One more attempt, and whether it was the last one: the counter starts again there.
unfoldable pub count_waiting : Waiting → Bool × Waiting
count_waiting s =
    if leb max_attempts (s.connection_attempts + 1)
    then (true, record { ready_to_send = true; connection_attempts = 0 })
    else (false, record { ready_to_send = true; connection_attempts = s.connection_attempts + 1 })

-- `IdleState` leaves its counter as it is.
unfoldable pub count_idle : Waiting → Bool × Waiting
count_idle s = (
  leb max_attempts (s.connection_attempts + 1),
  record { ready_to_send = true; connection_attempts = s.connection_attempts + 1 },
)

-- The data stay, as in `ConsultingAvailableOperators` and `RetrievingTimeAndDate`.
unfoldable pub count_keeping : {V : Type 0} → ℕ → Retrieving V → Bool × Retrieving V
count_keeping max s =
    if leb max (s.connection_attempts + 1)
    then (true, record s { ready_to_send = true; connection_attempts = 0 })
    else (false, record s { ready_to_send = true; connection_attempts = s.connection_attempts + 1 })

-- The data are asked for once more.
unfoldable pub count_dropping : {V : Type 0} → ℕ → Retrieving V → Bool × Retrieving V
count_dropping max s = count_keeping max (record s { retrieved = none })

-- The status of a call that counted: `failure` at the last attempt.
unfoldable pub report :
    {S : Type 0}
    → ConnectionStatus
    → (S → ConnectionState)
    → Bool × S
    → Module
    → ConnectionStatus × Module
report failure keep (last, s) m =
    (if last then failure else trying_to_connect, change_connection_state (keep s) m)

-- `mobileNetworkModule->reboot ()`
unfoldable pub reboot_module : Inputs → Module → Module
reboot_module i m = record m { power = (reboot i m.power).1 }

-- The end of `connect`, where the delay is over.
unfoldable pub retry : Inputs → Module → ConnectionStatus × Module
retry i m = elim m.connection [
  | unavailable ↦ (unavailable_status, m)
  | connected ↦ (connected_to_network, m)
  | idle s ↦ report module_disconnected idle (count_idle s) m
  | checking_signal s ↦
      let (last, level) = count_dropping max_attempts_no_response s.level in
      report module_disconnected checking_signal (last, record s { level = level }) m
  | consulting_imei s ↦ report module_disconnected consulting_imei (count_dropping max_attempts s) m
  | consulting_sim s ↦
      let (last, s') = count_dropping max_attempts s in
      report invalid_sim consulting_sim (last, s') (if last then reboot_module i m else m)
  | consulting_network s ↦
      report unavailable_to_register consulting_network (count_dropping max_attempts s) m
  | consulting_operators s ↦
      report unavailable_to_retriv_operators_info consulting_operators
        (count_keeping max_attempts s) m
  | retrieving_time s ↦
      report unavailable_to_retriv_datetime retrieving_time (count_keeping max_attempts s) m
  | attaching s ↦ report unavailable_to_attach_to_packet_service attaching (count_waiting s) m
  | defining_pdp s ↦ report unavailable_to_set_pdp_context defining_pdp (count_waiting s) m
]

-- `if (refreshTime->read ())`, and `return CELLULAR_CONNECTION_STATUS_TRYING_TO_CONNECT`
unfoldable pub expire : Inputs → Module → ConnectionStatus × Module
expire i m =
    let (over, m') = read_refresh i m in if over then retry i m' else (trying_to_connect, m')

-- What is left of `connect` behind an attempt.
unfoldable pub finish : Inputs → Outcome → ConnectionStatus × Module
finish i (done status m) = (status, m)
finish i (waits m) = expire i m

-- `CellularModule::connectToMobileNetwork`
unfoldable pub connect_to_mobile_network : Inputs → Module → ConnectionStatus × Module
connect_to_mobile_network i m = finish i (attempt i m)

-- `enableConnection`: only `ConnectionUnavailableState` does something.
unfoldable pub enable_connection : Module → Module
enable_connection m = elim m.connection [
  | unavailable ↦ change_connection_state (idle fresh_waiting) m
  | _ ↦ m
]
