-- ===== src/Cellular/Gates.antt =====
-- What Modules/CellularModule/ConnectionState has checked before it goes on.
use gateway_lo_ra.Prelude.{
  ◌||◌, ◌&&◌, ltb, ltb_ℤ, negsuc, codes, ◌∙◌, ℕ, ◌≡◌, refl, Bool, true, List, Option, arith, ℤ,
}
use gateway_lo_ra.Power.State.{Inputs}
use gateway_lo_ra.Cellular.Responses.{
  retriv_imei, check_expected_response, retriv_operators_information, retrieve_network_time,
  NetworkStatus, OperatorInformation, TimeAndDate,
}
use gateway_lo_ra.Cellular.Module.{
  ConnectionState, unavailable, idle, attaching, defining_pdp, checking_signal, consulting_imei,
  consulting_sim, consulting_network, consulting_operators, retrieving_time, connected, Module,
  Waiting, Signal, Retrieving, change_connection_state, read_refresh, send, receive,
  restart_refresh,
}
use gateway_lo_ra.Cellular.Connect.{
  connect_to_mobile_network, attempt, finish, reboot_module, retry, report, expire,
}
use gateway_lo_ra.Cellular.Connection.{
  Outcome, done, waits, attempt_waiting, announce, gather, gather_sim, confirm, switch_sim_card,
  is_registered, attempt_idle, attempt_signal, attempt_imei, attempt_sim, attempt_network,
  attempt_operators, attempt_time, attempt_attaching, attempt_pdp,
}
use gateway_lo_ra.Cellular.Order.{rank}

-- Behind the check of the signal strength a level above -100 dBm is stored, and behind the check of
-- the network a registration, at home or roaming.
abbrev pub is_gated : Module → Bool
is_gated m =
    (ltb (rank m.connection) 3 || ltb_ℤ (negsuc 99) m.cell.signal_level)
    && (ltb (rank m.connection) 6 || is_registered m.cell.network)

abbrev outcome_module : Outcome → Module
outcome_module (done status m) = m
outcome_module (waits m) = m

announce-cell :
    {V : Type 0} (i : Inputs) (command : List ℕ) (s : Retrieving V) (m : Module)
    → (announce i command s m).1.cell ≡ m.cell
unfolding announce send restart_refresh
announce-cell i command s m = ground arith

gather-cell :
    {V : Type 0} (i : Inputs) (parse : List ℕ → Option V) (s : Retrieving V) (m : Module)
    → (gather i parse s m).1.cell ≡ m.cell
unfolding gather receive restart_refresh
gather-cell i parse s m = ground arith

gather_sim-cell :
    (i : Inputs) (s : Retrieving (Unit {0})) (m : Module) → (gather_sim i s m).1.cell ≡ m.cell
unfolding gather_sim switch_sim_card receive restart_refresh
gather_sim-cell i s m = ground arith

confirm-cell : {V : Type 0} (s : Retrieving V) (m : Module) → (confirm s m).1.cell ≡ m.cell
unfolding confirm receive
confirm-cell s m = ground arith

-- Asking for data and reading them leaves the cell information as it is.
retrieve-cell :
    {V : Type 0} (i : Inputs) (command : List ℕ) (parse : List ℕ → Option V) (s : Retrieving V)
    (m : Module)
    → let r1 = announce i command s m in
      let r2 = gather i parse r1.0 r1.1 in (confirm r2.0 r2.1).1.cell ≡ m.cell
retrieve-cell i command parse s m =
    let r1 = announce i command s m in
    let r2 = gather i parse r1.0 r1.1 in
    confirm-cell r2.0 r2.1 ∙ gather-cell i parse r1.0 r1.1 ∙ announce-cell i command s m

retrieve_sim-cell :
    (i : Inputs) (command : List ℕ) (s : Retrieving (Unit {0})) (m : Module)
    → let r1 = announce i command s m in
      let r2 = gather_sim i r1.0 r1.1 in (confirm r2.0 r2.1).1.cell ≡ m.cell
retrieve_sim-cell i command s m =
    let r1 = announce i command s m in
    let r2 = gather_sim i r1.0 r1.1 in
    confirm-cell r2.0 r2.1 ∙ gather_sim-cell i r1.0 r1.1 ∙ announce-cell i command s m

idle_gated :
    (i : Inputs) (s : Waiting) (m : Module)
    → m.connection ≡ idle s
    → is_gated m ≡ true
    → is_gated (outcome_module (attempt_idle s m)) ≡ true
unfolding attempt_waiting attempt_idle send receive change_connection_state
idle_gated i s m e g = ground arith

signal_gated :
    (i : Inputs) (s : Signal) (m : Module)
    → m.connection ≡ checking_signal s
    → is_gated m ≡ true
    → is_gated (outcome_module (attempt_signal i s m)) ≡ true
unfolding attempt_signal change_connection_state
signal_gated i s m e g =
    ground (arith, retrieve-cell i (codes "AT+CSQ") check_expected_response s.level m)

imei_gated :
    (i : Inputs) (s : Retrieving ℤ) (m : Module)
    → m.connection ≡ consulting_imei s
    → is_gated m ≡ true
    → is_gated (outcome_module (attempt_imei i s m)) ≡ true
unfolding attempt_imei change_connection_state
imei_gated i s m e g = ground (arith, retrieve-cell i (codes "AT+CGSN") retriv_imei s m)

sim_gated :
    (i : Inputs) (s : Retrieving (Unit {0})) (m : Module)
    → m.connection ≡ consulting_sim s
    → is_gated m ≡ true
    → is_gated (outcome_module (attempt_sim i s m)) ≡ true
unfolding attempt_sim change_connection_state
sim_gated i s m e g = ground (arith, retrieve_sim-cell i (codes "AT+CPIN?") s m)

network_gated :
    (i : Inputs) (s : Retrieving NetworkStatus) (m : Module)
    → m.connection ≡ consulting_network s
    → is_gated m ≡ true
    → is_gated (outcome_module (attempt_network i s m)) ≡ true
unfolding attempt_network announce gather confirm send receive restart_refresh
    change_connection_state
network_gated i s m e g = ground arith

operators_gated :
    (i : Inputs) (s : Retrieving OperatorInformation) (m : Module)
    → m.connection ≡ consulting_operators s
    → is_gated m ≡ true
    → is_gated (outcome_module (attempt_operators i s m)) ≡ true
unfolding attempt_operators change_connection_state
operators_gated i s m e g =
    ground (arith, retrieve-cell i (codes "AT+QNWINFO") retriv_operators_information s m)

time_gated :
    (i : Inputs) (s : Retrieving TimeAndDate) (m : Module)
    → m.connection ≡ retrieving_time s
    → is_gated m ≡ true
    → is_gated (outcome_module (attempt_time i s m)) ≡ true
unfolding attempt_time change_connection_state
time_gated i s m e g = ground (arith, retrieve-cell i (codes "AT+QLTS=1") retrieve_network_time s m)

attaching_gated :
    (i : Inputs) (s : Waiting) (m : Module)
    → m.connection ≡ attaching s
    → is_gated m ≡ true
    → is_gated (outcome_module (attempt_attaching s m)) ≡ true
unfolding attempt_waiting attempt_attaching send receive change_connection_state
attaching_gated i s m e g = ground arith

pdp_gated :
    (i : Inputs) (s : Waiting) (m : Module)
    → m.connection ≡ defining_pdp s
    → is_gated m ≡ true
    → is_gated (outcome_module (attempt_pdp s m)) ≡ true
unfolding attempt_waiting attempt_pdp send receive change_connection_state
pdp_gated i s m e g = ground arith

attempt_gated :
    (i : Inputs) (m : Module) (c : ConnectionState)
    → m.connection ≡ c
    → is_gated m ≡ true
    → is_gated (outcome_module (attempt i m)) ≡ true
unfolding attempt
attempt_gated i m unavailable e g = ground arith
attempt_gated i m connected e g = ground arith
attempt_gated i m (idle s) e g = ground (arith, idle_gated i s m e g)
attempt_gated i m (checking_signal s) e g = ground (arith, signal_gated i s m e g)
attempt_gated i m (consulting_imei s) e g = ground (arith, imei_gated i s m e g)
attempt_gated i m (consulting_sim s) e g = ground (arith, sim_gated i s m e g)
attempt_gated i m (consulting_network s) e g = ground (arith, network_gated i s m e g)
attempt_gated i m (consulting_operators s) e g = ground (arith, operators_gated i s m e g)
attempt_gated i m (retrieving_time s) e g = ground (arith, time_gated i s m e g)
attempt_gated i m (attaching s) e g = ground (arith, attaching_gated i s m e g)
attempt_gated i m (defining_pdp s) e g = ground (arith, pdp_gated i s m e g)

retry_gated :
    (i : Inputs) (m : Module) (c : ConnectionState)
    → m.connection ≡ c
    → is_gated m ≡ true
    → is_gated (retry i m).1 ≡ true
unfolding retry report change_connection_state reboot_module
retry_gated i m unavailable e g = ground arith
retry_gated i m connected e g = ground arith
retry_gated i m (idle s) e g = ground arith
retry_gated i m (checking_signal s) e g = ground arith
retry_gated i m (consulting_imei s) e g = ground arith
retry_gated i m (consulting_sim s) e g = ground arith
retry_gated i m (consulting_network s) e g = ground arith
retry_gated i m (consulting_operators s) e g = ground arith
retry_gated i m (retrieving_time s) e g = ground arith
retry_gated i m (attaching s) e g = ground arith
retry_gated i m (defining_pdp s) e g = ground arith

finish_gated :
    (i : Inputs) (o : Outcome) → is_gated (outcome_module o) ≡ true → is_gated (finish i o).1 ≡ true
unfolding finish expire read_refresh
finish_gated i (done status m) g = g
finish_gated i (waits m) g = ground (arith, retry_gated i (read_refresh i m).1 m.connection refl g)

-- It is an invariant of `connectToMobileNetwork` that a module whose state is behind the check of
-- the signal strength has stored a level above -100 dBm, and one whose state is behind the check of
-- the network has stored a registration at home (1) or roaming (5).
pub connect-is_gated :
    (i : Inputs) (m : Module)
    → is_gated m ≡ true
    → is_gated (connect_to_mobile_network i m).1 ≡ true
unfolding connect_to_mobile_network
connect-is_gated i m g = finish_gated i (attempt i m) (attempt_gated i m m.connection refl g)
