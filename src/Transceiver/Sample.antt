-- ===== src/Transceiver/Sample.antt =====
-- Concrete modules of Modules/CellularModule with a transceiver, for the tests.
use gateway_lo_ra.Prelude.{ℕ, true, false, List, [], pos}
use gateway_lo_ra.Power.State.{Inputs, new}
use gateway_lo_ra.Cellular.Module
use gateway_lo_ra.Cellular.Module.{CellInformation}
use gateway_lo_ra.Transceiver.State.{TransceiverState, CellularModule}

abbrev pub cell : CellInformation
cell = record {
  signal_level = pos 0;
  imei = pos 0;
  network = record {
    registration_status = pos 0;
    lac = pos 0;
    cell_id = pos 0;
    access_technology = pos 0;
  };
  operator = record { mcc = pos 0; mnc = pos 0; channel = pos 0; band = [] };
  timestamp = [];
}

-- A module in this state, with these bytes unread, and this text in the static buffer.
abbrev pub in_state : TransceiverState → List ℕ → List ℕ → CellularModule
in_state t rx text = record {
  base = record {
    power =
        new (record { buffer = []; rx = rx; tx = [] })
          (record { start_time = 0; duration = 700; is_running = true });
    refresh_time = record { start_time = 0; duration = 1000; is_running = true };
    connection = Module.connected;
    sim_card_switch = false;
    cell = cell;
    clock_set_from = [];
  };
  transceiver = t;
  posting = record {
    string_to_be_read = text;
    data_len = pos 3;
    wating_for_response = false;
    url_set = false;
  };
  received_message = [];
  new_data_available = false;
}

abbrev pub at_tick : ℕ → Inputs
at_tick now = record { now = now; power_status = true; control_button = true }
