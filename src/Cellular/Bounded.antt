-- ===== src/Cellular/Bounded.antt =====
-- How long Modules/CellularModule/ConnectionState tries to connect.
use gateway_lo_ra.Prelude.{
  ℕ, ◌+◌, ◌≤◌, ◌≡◌, refl, Bool, true, false, List, arith, ℤ, ◌<◌, ◌++◌, ◌≢◌, ◌-◌, ◌∷◌, [],
  if◌then◌else◌,
}
use gateway_lo_ra.Power.State.{Inputs}
use gateway_lo_ra.Cellular.Responses.{NetworkStatus, OperatorInformation, TimeAndDate}
use gateway_lo_ra.Cellular.Module.{
  ConnectionStatus, trying_to_connect, ConnectionState, unavailable, idle, attaching, defining_pdp,
  checking_signal, consulting_imei, consulting_sim, consulting_network, consulting_operators,
  retrieving_time, connected, Module, Waiting, Signal, Retrieving, fresh_waiting,
  change_connection_state, read_refresh,
}
use gateway_lo_ra.Cellular.Connect.{
  connect_to_mobile_network, attempt, retry, count_waiting, count_idle, count_keeping,
  count_dropping, report, expire, finish,
}
use gateway_lo_ra.Cellular.Connection.{
  Outcome, done, waits, attempt_waiting, announce, gather, gather_sim, confirm, attempt_idle,
  attempt_signal, attempt_imei, attempt_sim, attempt_network, attempt_operators, attempt_time,
  attempt_attaching, attempt_pdp,
}

-- The delays that may still expire before a call gives up: one less than the attempts of the state,
-- and of those behind it.
abbrev pub budget : ConnectionState → ℕ
budget unavailable = 0
budget (idle s) = 19 - s.connection_attempts + 172
budget (checking_signal s) = 39 - s.level.connection_attempts + 133
budget (consulting_imei s) = 19 - s.connection_attempts + 114
budget (consulting_sim s) = 19 - s.connection_attempts + 95
budget (consulting_network s) = 19 - s.connection_attempts + 76
budget (consulting_operators s) = 19 - s.connection_attempts + 57
budget (retrieving_time s) = 19 - s.connection_attempts + 38
budget (attaching s) = 19 - s.connection_attempts + 19
budget (defining_pdp s) = 19 - s.connection_attempts
budget connected = 0

-- What is left of it behind an attempt after which the connecting goes on.
abbrev left : Outcome → ℕ
left (done trying_to_connect m) = budget m.connection
left (done _ m) = 0
left (waits m) = budget m.connection

idle_left : (i : Inputs) (s : Waiting) (m : Module) → left (attempt_idle s m) ≤ budget (idle s)
unfolding attempt_waiting attempt_idle change_connection_state
idle_left i s m = ground arith

signal_left :
    (i : Inputs) (s : Signal) (m : Module)
    → left (attempt_signal i s m) ≤ budget (checking_signal s)
unfolding attempt_signal announce gather confirm change_connection_state
signal_left i s m = ground arith

imei_left :
    (i : Inputs) (s : Retrieving ℤ) (m : Module)
    → left (attempt_imei i s m) ≤ budget (consulting_imei s)
unfolding attempt_imei announce gather confirm change_connection_state
imei_left i s m = ground arith

sim_left :
    (i : Inputs) (s : Retrieving (Unit {0})) (m : Module)
    → left (attempt_sim i s m) ≤ budget (consulting_sim s)
unfolding attempt_sim announce gather_sim confirm change_connection_state
sim_left i s m = ground arith

network_left :
    (i : Inputs) (s : Retrieving NetworkStatus) (m : Module)
    → left (attempt_network i s m) ≤ budget (consulting_network s)
unfolding attempt_network announce gather confirm change_connection_state
network_left i s m = ground arith

operators_left :
    (i : Inputs) (s : Retrieving OperatorInformation) (m : Module)
    → left (attempt_operators i s m) ≤ budget (consulting_operators s)
unfolding attempt_operators announce gather confirm change_connection_state
operators_left i s m = ground arith

time_left :
    (i : Inputs) (s : Retrieving TimeAndDate) (m : Module)
    → left (attempt_time i s m) ≤ budget (retrieving_time s)
unfolding attempt_time announce gather confirm change_connection_state
time_left i s m = ground arith

attaching_left :
    (i : Inputs) (s : Waiting) (m : Module) → left (attempt_attaching s m) ≤ budget (attaching s)
unfolding attempt_waiting attempt_attaching change_connection_state
attaching_left i s m = ground arith

pdp_left :
    (i : Inputs) (s : Waiting) (m : Module) → left (attempt_pdp s m) ≤ budget (defining_pdp s)
unfolding attempt_waiting attempt_pdp change_connection_state
pdp_left i s m = ground arith

retry_left :
    (i : Inputs) (m : Module) (c : ConnectionState)
    → m.connection ≡ c
    → (retry i m).0 ≡ trying_to_connect
    → budget (retry i m).1.connection < budget c
unfolding retry report change_connection_state count_waiting count_idle count_keeping count_dropping
retry_left i m unavailable e h = ground arith
retry_left i m connected e h = ground arith
retry_left i m (idle s) e h = ground arith
retry_left i m (checking_signal s) e h = ground arith
retry_left i m (consulting_imei s) e h = ground arith
retry_left i m (consulting_sim s) e h = ground arith
retry_left i m (consulting_network s) e h = ground arith
retry_left i m (consulting_operators s) e h = ground arith
retry_left i m (retrieving_time s) e h = ground arith
retry_left i m (attaching s) e h = ground arith
retry_left i m (defining_pdp s) e h = ground arith

-- Whether the poll at the end of `connect` finds the delay over.
abbrev over : Inputs → Outcome → ℕ
over i (done status m) = 0
over i (waits m) = if (read_refresh i m).0 then 1 else 0

left-attempt :
    (i : Inputs) (m : Module) (c : ConnectionState)
    → m.connection ≡ c
    → left (attempt i m) ≤ budget c
unfolding attempt
left-attempt i m unavailable e = ground arith
left-attempt i m connected e = ground arith
left-attempt i m (idle s) e = ground (arith, idle_left i s m)
left-attempt i m (checking_signal s) e = ground (arith, signal_left i s m)
left-attempt i m (consulting_imei s) e = ground (arith, imei_left i s m)
left-attempt i m (consulting_sim s) e = ground (arith, sim_left i s m)
left-attempt i m (consulting_network s) e = ground (arith, network_left i s m)
left-attempt i m (consulting_operators s) e = ground (arith, operators_left i s m)
left-attempt i m (retrieving_time s) e = ground (arith, time_left i s m)
left-attempt i m (attaching s) e = ground (arith, attaching_left i s m)
left-attempt i m (defining_pdp s) e = ground (arith, pdp_left i s m)

budget-finish :
    (i : Inputs) (o : Outcome)
    → (finish i o).0 ≡ trying_to_connect
    → over i o + budget (finish i o).1.connection ≤ left o
unfolding finish expire read_refresh
budget-finish i (done status m') t = ground arith
budget-finish i (waits m') t = ground (arith, retry_left i (read_refresh i m').1 m'.connection refl)

-- A call of `connect` at a poll: the inputs, and the bytes that the modem sent since the last one.
abbrev pub Poll : Type 0
Poll = Inputs × List ℕ

unfoldable pub deliver : List ℕ → Module → Module
deliver bytes m = record m {
  power = record (m.power) {
    handler = record (m.power.handler) { rx = m.power.handler.rx ++ bytes };
  };
}

abbrev pub is_trying : ConnectionStatus → Bool
is_trying trying_to_connect = true
is_trying _ = false

-- The caller's loop, until a call returns something else than that it is trying.
unfoldable pub connect_polls : List Poll → Module → ConnectionStatus × Module
connect_polls [] m = (trying_to_connect, m)
connect_polls ((i, bytes) ∷ ps) m =
    let r = connect_to_mobile_network i (deliver bytes m) in
    let rest = connect_polls ps r.1 in if is_trying r.0 then rest else r

-- How many of these polls found the delay over.
unfoldable pub timeouts : List Poll → Module → ℕ
timeouts [] m = 0
timeouts ((i, bytes) ∷ ps) m =
    let r = connect_to_mobile_network i (deliver bytes m) in
    let rest = timeouts ps r.1 in
    over i (attempt i (deliver bytes m)) + (if is_trying r.0 then rest else 0)

is_trying-true : (s : ConnectionStatus) → is_trying s ≡ true → s ≡ trying_to_connect
is_trying-true s h = ground arith

connect_left :
    (i : Inputs) (m : Module)
    → is_trying (connect_to_mobile_network i m).0 ≡ true
    → over i (attempt i m) + budget (connect_to_mobile_network i m).1.connection
      ≤ budget m.connection
unfolding connect_to_mobile_network
connect_left i m h =
    ground (
      arith,
      budget-finish i (attempt i m) (is_trying-true _ h),
      left-attempt i m m.connection refl,
    )

over_le : (i : Inputs) (o : Outcome) → over i o ≤ 1
over_le i (done s m) = omega arith
over_le i (waits m) = ground arith

polls_left :
    (ps : List Poll) (m : Module)
    → (connect_polls ps m).0 ≡ trying_to_connect
    → timeouts ps m ≤ budget m.connection
unfolding connect_polls timeouts deliver
polls_left [] m h = omega arith
polls_left ((i, bytes) ∷ ps) m h = ground (
  arith,
  connect_left i (deliver bytes m),
  polls_left ps (connect_to_mobile_network i (deliver bytes m)).1,
)

budget_bound : (c : ConnectionState) → budget c ≤ 191
budget_bound unavailable = omega arith
budget_bound connected = omega arith
budget_bound (idle s) = ground arith
budget_bound (checking_signal s) = ground arith
budget_bound (consulting_imei s) = ground arith
budget_bound (consulting_sim s) = ground arith
budget_bound (consulting_network s) = ground arith
budget_bound (consulting_operators s) = ground arith
budget_bound (retrieving_time s) = ground arith
budget_bound (attaching s) = ground arith
budget_bound (defining_pdp s) = ground arith

-- A connection procedure that is called again and again ends, whatever the modem sends or fails to
-- send between the polls: when the delay was over at more polls than the budget of the state where
-- it began, a call has returned that the module is connected or why it is not. The budget counts
-- the attempts that are left, is 191 for a new `IdleState`, and never more.
pub connect_polls_end :
    (ps : List Poll) (m : Module)
    → budget m.connection < timeouts ps m
    → ((connect_polls ps m).0 ≢ trying_to_connect)
      × (budget m.connection ≤ 191)
      × (budget (idle fresh_waiting) ≡ 191)
connect_polls_end ps m h =
    ((λ e. omega (arith, polls_left ps m e)), budget_bound m.connection, omega arith)
