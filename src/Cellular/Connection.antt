-- ===== src/Cellular/Connection.antt =====
-- Modules/CellularModule/ConnectionState: `connect`, in every state. A call is an attempt, which
-- sends a command and reads a byte or two, and where that neither moves on nor fails, the wait.
use gateway_lo_ra.Prelude.{
  ℕ, ◌+◌, Bool, false, not, ◌||◌, List, [], ◌∷◌, ◌++◌, Option, none, some, codes, eq_bytes, leb,
  ltb_ℤ, eqb_ℤ, if◌then◌else◌, ℤ, pos, negsuc,
}
use gateway_lo_ra.Power.State.{Inputs, is_response}
use gateway_lo_ra.Cellular.Responses.{
  NetworkStatus, OperatorInformation, TimeAndDate, check_expected_response, retriv_imei,
  retriv_id_cell_data, retriv_operators_information, retrieve_network_time,
}
use gateway_lo_ra.Cellular.Module.{
  ConnectionStatus, module_disconnected, trying_to_connect, Waiting, Retrieving, Signal,
  ConnectionState, idle, attaching, defining_pdp, checking_signal, consulting_imei, consulting_sim,
  consulting_network, consulting_operators, retrieving_time, connected, Module, fresh_waiting,
  fresh, change_connection_state, send, receive, restart_refresh,
}

-- What an attempt comes to: a result of the call, or the wait at its end.
pub data Outcome : Type 0 where
  done : ConnectionStatus → Module → Outcome
  waits : Module → Outcome

abbrev pub ok_response : List ℕ
ok_response = codes "OK"

-- "if (this->readyToSend == true)" of the states that restart the delay there.
unfoldable pub announce :
    {V : Type 0} → Inputs → List ℕ → Retrieving V → Module → Retrieving V × Module
announce i command s m =
    if s.ready_to_send
    then (record s { ready_to_send = false }, restart_refresh i (send command m))
    else (s, m)

-- The data: while there is none, a line is read, and a line restarts the delay.
unfoldable pub gather :
    {V : Type 0} → Inputs → (List ℕ → Option V) → Retrieving V → Module → Retrieving V × Module
gather i parse s m =
    let (line, m') = receive m in
    elim s.retrieved [
      | some v ↦ (s, m)
      | none ↦ elim line [
        | none ↦ (s, m')
        | some l ↦ (record s { retrieved = parse l }, restart_refresh i m')
      ]
    ]

-- The OK behind the data: once they are there, one more line is read.
unfoldable pub confirm : {V : Type 0} → Retrieving V → Module → Option V × Module
confirm s m =
    let (line, m') = receive m in
    elim s.retrieved [
      | none ↦ (none, m)
      | some v ↦ (if is_response ok_response line then some v else none, m')
    ]

-- A state that sends a command and moves on at OK.
unfoldable pub attempt_waiting :
    List ℕ → (Waiting → ConnectionState) → ConnectionState → Waiting → Module → Outcome
attempt_waiting command keep next s m =
    let m1 : Module = if s.ready_to_send then send command m else m in
    let (line, m2) = receive m1 in
    if is_response ok_response line
    then done trying_to_connect (change_connection_state next m2)
    else waits (change_connection_state (keep (record s { ready_to_send = false })) m2)

-- `IdleState::connect`
unfoldable pub attempt_idle : Waiting → Module → Outcome
attempt_idle =
    attempt_waiting (codes "ATI") idle
      (checking_signal (record { level = fresh; connection_attempts_signal = 0 }))

-- `CheckingSignalStrength::connect`
unfoldable pub attempt_signal : Inputs → Signal → Module → Outcome
attempt_signal i s m =
    let (s1, m1) = announce i (codes "AT+CSQ") s.level m in
    let (s2, m2) = gather i check_expected_response s1 m1 in
    let (found, m3) = confirm s2 m2 in
    elim found [
      | none ↦ waits (change_connection_state (checking_signal (record s { level = s2 })) m3)
      | some level ↦
          if ltb_ℤ (negsuc 99) level
          then done trying_to_connect (
              change_connection_state (consulting_imei fresh)
                (record m3 { cell = record (m3.cell) { signal_level = level } }))
          else if leb 20 (s.connection_attempts_signal + 1)
          then done module_disconnected (
              change_connection_state
                (checking_signal (record {
                  level = record s2 { connection_attempts = 0 };
                  connection_attempts_signal = s.connection_attempts_signal + 1;
                }))
                m3)
          else waits (
              change_connection_state
                (checking_signal (record {
                  level = s2;
                  connection_attempts_signal = s.connection_attempts_signal + 1;
                }))
                m3)
    ]

-- `ConsultingIMEI::connect`
unfoldable pub attempt_imei : Inputs → Retrieving ℤ → Module → Outcome
attempt_imei i s m =
    let (s1, m1) = announce i (codes "AT+CGSN") s m in
    let (s2, m2) = gather i retriv_imei s1 m1 in
    let (found, m3) = confirm s2 m2 in
    elim found [
      | none ↦ waits (change_connection_state (consulting_imei s2) m3)
      | some imei ↦ done trying_to_connect (
          change_connection_state (consulting_sim fresh)
            (record m3 { cell = record (m3.cell) { imei = imei } }))
    ]

-- the answers of `ConsultingSIMCardStatus::connect`
unfoldable pub sim_card_ready : List ℕ → Option (Unit {0})
sim_card_ready line = if eq_bytes line (codes "+CPIN: READY") then some tt else none

-- "+CME ERROR: 10" switches to the other SIM card.
unfoldable pub switch_sim_card : Option (List ℕ) → Module → Module
switch_sim_card line m =
    if is_response (codes "+CME ERROR: 10") line
    then record m { sim_card_switch = not m.sim_card_switch }
    else m

unfoldable pub gather_sim : Inputs → Retrieving (Unit {0}) → Module → Retrieving (Unit {0}) × Module
gather_sim i s m =
    let (line, m') = receive m in
    elim s.retrieved [
      | some v ↦ (s, m)
      | none ↦ elim line [
        | none ↦ (s, m')
        | some l ↦ (
          record s { retrieved = sim_card_ready l },
          restart_refresh i (switch_sim_card (some l) m'),
        )
      ]
    ]

-- `ConsultingSIMCardStatus::connect`
unfoldable pub attempt_sim : Inputs → Retrieving (Unit {0}) → Module → Outcome
attempt_sim i s m =
    let (s1, m1) = announce i (codes "AT+CPIN?") s m in
    let (s2, m2) = gather_sim i s1 m1 in
    let (found, m3) = confirm s2 m2 in
    elim found [
      | none ↦ waits (change_connection_state (consulting_sim s2) m3)
      | some v ↦ done trying_to_connect (change_connection_state (consulting_network fresh) m3)
    ]

-- `MODEM_REGISTERED_LOCALY` and `MODEM_REGISTERED_ROAMING`
abbrev pub is_registered : NetworkStatus → Bool
is_registered n = eqb_ℤ n.registration_status (pos 1) || eqb_ℤ n.registration_status (pos 5)

-- `ConsultingNetworkStatus::connect`: the cell information is written before the registration is
-- looked at.
unfoldable pub attempt_network : Inputs → Retrieving NetworkStatus → Module → Outcome
attempt_network i s m =
    let s1 : Retrieving NetworkStatus = record s { ready_to_send = false } in
    let m1 : Module =
      if s.ready_to_send
      then restart_refresh i (send (codes "AT+CREG?") (send (codes "AT+CREG=2") m))
      else m in
    let (s2, m2) = gather i retriv_id_cell_data s1 m1 in
    let (found, m3) = confirm s2 m2 in
    elim found [
      | none ↦ waits (change_connection_state (consulting_network s2) m3)
      | some n ↦
          let m4 = record m3 { cell = record (m3.cell) { network = n } } in
          if is_registered n
          then done trying_to_connect (change_connection_state (consulting_operators fresh) m4)
          else waits (change_connection_state (consulting_network s2) m4)
    ]

-- `ConsultingAvailableOperators::connect`
unfoldable pub attempt_operators : Inputs → Retrieving OperatorInformation → Module → Outcome
attempt_operators i s m =
    let (s1, m1) = announce i (codes "AT+QNWINFO") s m in
    let (s2, m2) = gather i retriv_operators_information s1 m1 in
    let (found, m3) = confirm s2 m2 in
    elim found [
      | none ↦ waits (change_connection_state (consulting_operators s2) m3)
      | some o ↦ done trying_to_connect (
          change_connection_state (retrieving_time fresh)
            (record m3 { cell = record (m3.cell) { operator = o } }))
    ]

-- `RetrievingTimeAndDate::connect`
unfoldable pub attempt_time : Inputs → Retrieving TimeAndDate → Module → Outcome
attempt_time i s m =
    let (s1, m1) = announce i (codes "AT+QLTS=1") s m in
    let (s2, m2) = gather i retrieve_network_time s1 m1 in
    let (found, m3) = confirm s2 m2 in
    elim found [
      | none ↦ waits (change_connection_state (retrieving_time s2) m3)
      | some t ↦ done trying_to_connect (
          change_connection_state (attaching fresh_waiting) (record m3 {
            cell = record (m3.cell) { timestamp = t.date ++ t.time };
            clock_set_from = t.date ++ t.time;
          }))
    ]

-- `AttachingToPacketService::connect`
unfoldable pub attempt_attaching : Waiting → Module → Outcome
attempt_attaching = attempt_waiting (codes "AT+CGATT=1") attaching (defining_pdp fresh_waiting)

-- `APN`: AT+CGDCONT=1,"IP","internet.movil"
abbrev pub apn_command : List ℕ
apn_command =
    codes "AT+CGDCONT=1,"
    ++ 34 ∷ (codes "IP" ++ 34 ∷ b',' ∷ 34 ∷ (codes "internet.movil" ++ 34 ∷ []))

-- `DefinePDPContext::connect`
unfoldable pub attempt_pdp : Waiting → Module → Outcome
attempt_pdp = attempt_waiting apn_command defining_pdp connected
