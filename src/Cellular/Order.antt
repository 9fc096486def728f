-- ===== src/Cellular/Order.antt =====
-- The order in which Modules/CellularModule/ConnectionState goes through its states.
use gateway_lo_ra.Prelude.{ℕ, ◌+◌, ◌≤◌, ◌≡◌, refl, arith, ℤ}
use gateway_lo_ra.Power.State.{Inputs}
use gateway_lo_ra.Cellular.Responses.{NetworkStatus, OperatorInformation, TimeAndDate}
use gateway_lo_ra.Cellular.Module.{
  ConnectionState, unavailable, idle, attaching, defining_pdp, checking_signal, consulting_imei,
  consulting_sim, consulting_network, consulting_operators, retrieving_time, connected, Module,
  Waiting, Signal, Retrieving, change_connection_state, read_refresh,
}
use gateway_lo_ra.Cellular.Connect.{
  connect_to_mobile_network, attempt, retry, report, expire, finish,
}
use gateway_lo_ra.Cellular.Connection.{
  Outcome, done, waits, attempt_waiting, attempt_idle, attempt_signal, attempt_imei, attempt_sim,
  attempt_network, attempt_operators, attempt_time, attempt_attaching, attempt_pdp,
}

-- The place of a state in the sequence, from not enabled to connected.
abbrev pub rank : ConnectionState → ℕ
rank unavailable = 0
rank (idle s) = 1
rank (checking_signal s) = 2
rank (consulting_imei s) = 3
rank (consulting_sim s) = 4
rank (consulting_network s) = 5
rank (consulting_operators s) = 6
rank (retrieving_time s) = 7
rank (attaching s) = 8
rank (defining_pdp s) = 9
rank connected = 10

abbrev outcome_rank : Outcome → ℕ
outcome_rank (done status m) = rank m.connection
outcome_rank (waits m) = rank m.connection

attempt_idle_rank :
    (i : Inputs) (s : Waiting) (m : Module)
    → (1 ≤ outcome_rank (attempt_idle s m)) × (outcome_rank (attempt_idle s m) ≤ 2)
unfolding attempt_waiting attempt_idle change_connection_state
attempt_idle_rank i s m = ground arith

attempt_signal_rank :
    (i : Inputs) (s : Signal) (m : Module)
    → (2 ≤ outcome_rank (attempt_signal i s m)) × (outcome_rank (attempt_signal i s m) ≤ 3)
unfolding attempt_signal change_connection_state
attempt_signal_rank i s m = ground arith

attempt_imei_rank :
    (i : Inputs) (s : Retrieving ℤ) (m : Module)
    → (3 ≤ outcome_rank (attempt_imei i s m)) × (outcome_rank (attempt_imei i s m) ≤ 4)
unfolding attempt_imei change_connection_state
attempt_imei_rank i s m = ground arith

attempt_sim_rank :
    (i : Inputs) (s : Retrieving (Unit {0})) (m : Module)
    → (4 ≤ outcome_rank (attempt_sim i s m)) × (outcome_rank (attempt_sim i s m) ≤ 5)
unfolding attempt_sim change_connection_state
attempt_sim_rank i s m = ground arith

attempt_network_rank :
    (i : Inputs) (s : Retrieving NetworkStatus) (m : Module)
    → (5 ≤ outcome_rank (attempt_network i s m)) × (outcome_rank (attempt_network i s m) ≤ 6)
unfolding attempt_network change_connection_state
attempt_network_rank i s m = ground arith

attempt_operators_rank :
    (i : Inputs) (s : Retrieving OperatorInformation) (m : Module)
    → (6 ≤ outcome_rank (attempt_operators i s m)) × (outcome_rank (attempt_operators i s m) ≤ 7)
unfolding attempt_operators change_connection_state
attempt_operators_rank i s m = ground arith

attempt_time_rank :
    (i : Inputs) (s : Retrieving TimeAndDate) (m : Module)
    → (7 ≤ outcome_rank (attempt_time i s m)) × (outcome_rank (attempt_time i s m) ≤ 8)
unfolding attempt_time change_connection_state
attempt_time_rank i s m = ground arith

attempt_attaching_rank :
    (i : Inputs) (s : Waiting) (m : Module)
    → (8 ≤ outcome_rank (attempt_attaching s m)) × (outcome_rank (attempt_attaching s m) ≤ 9)
unfolding attempt_waiting attempt_attaching change_connection_state
attempt_attaching_rank i s m = ground arith

attempt_pdp_rank :
    (i : Inputs) (s : Waiting) (m : Module)
    → (9 ≤ outcome_rank (attempt_pdp s m)) × (outcome_rank (attempt_pdp s m) ≤ 10)
unfolding attempt_waiting attempt_pdp change_connection_state
attempt_pdp_rank i s m = ground arith

rank-retry :
    (i : Inputs) (m : Module) (c : ConnectionState)
    → m.connection ≡ c
    → rank (retry i m).1.connection ≡ rank c
unfolding retry report change_connection_state
rank-retry i m unavailable e = ground arith
rank-retry i m connected e = ground arith
rank-retry i m (idle s) e = ground arith
rank-retry i m (checking_signal s) e = ground arith
rank-retry i m (consulting_imei s) e = ground arith
rank-retry i m (consulting_sim s) e = ground arith
rank-retry i m (consulting_network s) e = ground arith
rank-retry i m (consulting_operators s) e = ground arith
rank-retry i m (retrieving_time s) e = ground arith
rank-retry i m (attaching s) e = ground arith
rank-retry i m (defining_pdp s) e = ground arith

rank-attempt :
    (i : Inputs) (m : Module) (c : ConnectionState)
    → m.connection ≡ c
    → (rank c ≤ outcome_rank (attempt i m)) × (outcome_rank (attempt i m) ≤ rank c + 1)
unfolding attempt
rank-attempt i m unavailable e = ground arith
rank-attempt i m connected e = ground arith
rank-attempt i m (idle s) e = ground (arith, attempt_idle_rank i s m)
rank-attempt i m (checking_signal s) e = ground (arith, attempt_signal_rank i s m)
rank-attempt i m (consulting_imei s) e = ground (arith, attempt_imei_rank i s m)
rank-attempt i m (consulting_sim s) e = ground (arith, attempt_sim_rank i s m)
rank-attempt i m (consulting_network s) e = ground (arith, attempt_network_rank i s m)
rank-attempt i m (consulting_operators s) e = ground (arith, attempt_operators_rank i s m)
rank-attempt i m (retrieving_time s) e = ground (arith, attempt_time_rank i s m)
rank-attempt i m (attaching s) e = ground (arith, attempt_attaching_rank i s m)
rank-attempt i m (defining_pdp s) e = ground (arith, attempt_pdp_rank i s m)

rank-expire : (i : Inputs) (m : Module) → rank (expire i m).1.connection ≡ rank m.connection
unfolding expire read_refresh
rank-expire i m = ground (arith, rank-retry i (read_refresh i m).1 m.connection)

rank-finish : (i : Inputs) (o : Outcome) → rank (finish i o).1.connection ≡ outcome_rank o
unfolding finish
rank-finish i (done status m) = refl
rank-finish i (waits m) = rank-expire i m

-- A call of `connectToMobileNetwork` leaves the module in the state where it is or takes it to the
-- next one of the sequence unavailable, idle, signal strength, IMEI, SIM card, network status,
-- operators, time and date, packet service, PDP context, connected: no check is passed over and
-- none is repeated.
pub connect-rank :
    (i : Inputs) (m : Module)
    → let m' = (connect_to_mobile_network i m).1 in
      (rank m.connection ≤ rank m'.connection) × (rank m'.connection ≤ rank m.connection + 1)
unfolding connect_to_mobile_network
connect-rank i m = ground (arith, rank-attempt i m m.connection refl, rank-finish i (attempt i m))
