-- ===== src/Cellular/Tests.antt =====
-- The theorems on the connection procedure at concrete modules.
use gateway_lo_ra.Prelude.{
  ℕ, zero, suc, ◌+◌, ◌≤◌, ◌≡◌, ◌≢◌, refl, true, false, List, [], ◌∷◌, some, arith, codes, pos,
  negsuc,
}
use gateway_lo_ra.Timer
use gateway_lo_ra.Timer.{Delay}
use gateway_lo_ra.AtHandler.{read_at_response_sized, send_at_command}
use gateway_lo_ra.Power.State.{Inputs, new}
use gateway_lo_ra.Cellular.Module.{
  ConnectionState, idle, defining_pdp, checking_signal, CellInformation, Module, fresh_waiting,
  trying_to_connect, read_refresh, change_connection_state, receive, send,
}
use gateway_lo_ra.Cellular.Connect.{
  attempt, finish, expire, retry, count_waiting, report, connect_to_mobile_network,
}
use gateway_lo_ra.Cellular.Connection.{attempt_pdp, attempt_waiting}
use gateway_lo_ra.Cellular.Order.{rank, connect-rank}
use gateway_lo_ra.Cellular.Bounded.{
  Poll, budget, deliver, connect_polls, timeouts, connect_polls_end,
}
use gateway_lo_ra.Cellular.Gates.{is_gated, connect-is_gated}

abbrev cell : CellInformation
cell = record {
  signal_level = pos 0;
  imei = pos 0;
  network = record {
    registration_status = pos 0;
    lac = pos 0;
    cell_id = pos 0;
    access_technology = pos 0;
  };
  operator = record { mcc = pos 0; mnc = pos 0; channel = pos 0; band = [] };
  timestamp = [];
}

-- A module in this state, the modem's answers unread.
abbrev in_state : ConnectionState → List ℕ → Module
in_state s line = record {
  power =
      new (record { buffer = line; rx = b'\r' ∷ []; tx = [] })
        (record { start_time = 0; duration = 700; is_running = true });
  refresh_time = record { start_time = 0; duration = 1000; is_running = true };
  connection = s;
  sim_card_switch = false;
  cell = cell;
  clock_set_from = [];
}

abbrev at_tick : ℕ → Inputs
at_tick now = record { now = now; power_status = true; control_button = true }

abbrev polls : ℕ → ℕ → List Poll
polls zero now = []
polls (suc n) now = (at_tick now, []) ∷ polls n (now + 1000)

-- A level of -67 dBm is waiting for its OK.
abbrev measured : ConnectionState
measured = checking_signal (record {
  level = record { ready_to_send = false; retrieved = some (negsuc 66); connection_attempts = 0 };
  connection_attempts_signal = 0;
})

connect-rank_example :
    let m' = (connect_to_mobile_network (at_tick 1) (in_state measured (codes "OK"))).1 in
    (2 ≤ rank m'.connection) × (rank m'.connection ≤ 2 + 1)
connect-rank_example = connect-rank (at_tick 1) (in_state measured (codes "OK"))

connect-is_gated_example :
    is_gated (connect_to_mobile_network (at_tick 1) (in_state measured (codes "OK"))).1 ≡ true
connect-is_gated_example = connect-is_gated (at_tick 1) (in_state measured (codes "OK")) refl

-- A state that has two attempts left, and a modem that does not answer.
abbrev nearly_over : Module
nearly_over =
    in_state (defining_pdp (record { ready_to_send = false; connection_attempts = 18 })) []

two_timeouts : timeouts (polls 3 1000) nearly_over ≡ 2
unfolding timeouts connect_to_mobile_network attempt attempt_pdp attempt_waiting finish expire
    read_refresh Timer.read retry count_waiting report change_connection_state deliver receive send
    read_at_response_sized send_at_command
two_timeouts = refl

connect_polls_end_example :
    ((connect_polls (polls 3 1000) nearly_over).0 ≢ trying_to_connect)
    × (1 ≤ 191)
    × (budget (idle fresh_waiting) ≡ 191)
connect_polls_end_example =
    connect_polls_end (polls 3 1000) nearly_over (omega (arith, two_timeouts))
