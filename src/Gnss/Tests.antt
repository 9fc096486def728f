-- ===== src/Gnss/Tests.antt =====
-- The theorems on the position at concrete modules, and a concrete `float`.
use gateway_lo_ra.Prelude.{
  ℕ, zero, suc, ◌≤◌, ◌≡◌, ◌≢◌, refl, true, false, List, [], ◌∷◌, Option, none, some, codes, pos,
  length, if◌then◌else◌, ◌==◌, c_string, starts_with, scan_until, skip_space, scan_char, scan_int,
  scan_digits,
}
use gateway_lo_ra.AtHandler.{read_at_response_sized, read_if_readable, read_byte_sized}
use gateway_lo_ra.Power.State.{Inputs, new, power_on}
use gateway_lo_ra.Gateway.Show.{show_ℕ, show_digits}
use gateway_lo_ra.Gnss.State.{
  GeopositioningState, turning_on_gnss, turning_off_gnss, obtaining_position_information, GnssData,
  GnssModule, connection_obtain, receive,
}
use gateway_lo_ra.Gnss.Position.{
  retriv_position_info, scan_position, scan_place, scan_course, scan_date, scan_float_field,
}
use gateway_lo_ra.Gnss.Retrieve.{
  retriv_geopositioning, already_lock_response, session_not_active, send_if, attempt, finish,
  answer_obtaining, answer_position,
}
use gateway_lo_ra.Gnss.Fix.{Fix, position_line}
use gateway_lo_ra.Gnss.Graph.{phase, is_obtaining, is_turning_on, is_turning_off, is_unavailable}
use gateway_lo_ra.Gnss.Timestamp.{is_looking, retriv_geopositioning-obtains}
use gateway_lo_ra.Gnss.Answers.{turning_on-line, turning_off-line}

-- A number as that many ones and a point stands for the `float`.
abbrev show_unary : ℕ → List ℕ
show_unary zero = b'.' ∷ []
show_unary (suc n) = b'1' ∷ show_unary n

abbrev one_more : Option (ℕ × List ℕ) → Option (ℕ × List ℕ)
one_more none = none
one_more (some (n, cs)) = some (suc n, cs)

abbrev scan_unary : List ℕ → Option (ℕ × List ℕ)
scan_unary [] = none
scan_unary (c ∷ cs) = let rest = scan_unary cs in if c == b'.' then some (0, cs) else one_more rest

abbrev fix : Fix ℕ
fix = record {
  utc_first = b'1';
  utc_rest = codes "20000.5";
  latitude = 3;
  longitude = 5;
  hdop = 1;
  altitude = 2;
  fix = 3;
  cog = 0;
  spkm = 0;
  spkn = 0;
  date_first = b'0';
  date_rest = codes "10125";
  nsat = 7;
}

abbrev known : GnssData ℕ
known = record {
  timestamp = codes "010125120000";
  latitude = 3;
  longitude = 5;
  hdop = 1;
  altitude = 2;
  fix = pos 3;
  cog = 0;
  spkm = 0;
  spkn = 0;
  nsat = pos 7;
}

-- A module in this state that has this line read up to its end.
abbrev in_state : GeopositioningState → List ℕ → GnssModule ℕ
in_state s line = record {
  power =
      new (record { buffer = line; rx = b'\r' ∷ []; tx = [] })
        (record { start_time = 0; duration = 700; is_running = true });
  refresh_time = record { start_time = 0; duration = 1000; is_running = true };
  geopositioning = s;
  current_power_status = power_on;
  geodata = known;
  clock_set_from = [];
}

abbrev at_tick : ℕ → Inputs
at_tick now = record { now = now; power_status = true; control_button = true }

abbrev already_on : GnssModule ℕ
already_on = in_state (turning_on_gnss false) already_lock_response

already_on_line :
    (receive (send_if false (codes "AT+QGPS=1") already_on)).0 ≡ some already_lock_response
unfolding receive send_if read_at_response_sized read_if_readable read_byte_sized c_string
already_on_line = refl

turning_on-line_example :
    (already_lock_response ≡ already_lock_response
      → phase (retriv_geopositioning scan_unary (at_tick 1) already_on).1.geopositioning
        ≡ is_turning_on)
    × (already_lock_response ≢ already_lock_response
        → phase (retriv_geopositioning scan_unary (at_tick 1) already_on).1.geopositioning
          ≡ is_obtaining)
turning_on-line_example =
    turning_on-line scan_unary (at_tick 1) already_on false already_lock_response refl
      already_on_line

abbrev already_off : GnssModule ℕ
already_off = in_state (turning_off_gnss false) session_not_active

already_off_line :
    (receive (send_if false (codes "AT+QGPS=0") already_off)).0 ≡ some session_not_active
unfolding receive send_if read_at_response_sized read_if_readable read_byte_sized c_string
already_off_line = refl

turning_off-line_example :
    (session_not_active ≡ session_not_active
      → phase (retriv_geopositioning scan_unary (at_tick 1) already_off).1.geopositioning
        ≡ is_turning_off)
    × (session_not_active ≢ session_not_active
        → phase (retriv_geopositioning scan_unary (at_tick 1) already_off).1.geopositioning
          ≡ is_unavailable)
turning_off-line_example =
    turning_off-line scan_unary (at_tick 1) already_off false session_not_active refl
      already_off_line

-- A module that looks for a position, and has its line.
abbrev located : GnssModule ℕ
located = in_state (obtaining_position_information false 0) (position_line show_unary fix)

located_obtains : (retriv_geopositioning scan_unary (at_tick 1) located).0 ≡ connection_obtain
unfolding retriv_geopositioning attempt answer_obtaining answer_position finish receive send_if
    read_at_response_sized read_if_readable read_byte_sized show_ℕ show_digits retriv_position_info
    starts_with c_string scan_position scan_until skip_space scan_char scan_place scan_float_field
    scan_int scan_digits scan_course scan_date
located_obtains = refl

retriv_geopositioning-obtains_example :
    let g = (retriv_geopositioning scan_unary (at_tick 1) located).1 in
    (is_looking located.geopositioning ≡ true)
    × (phase g.geopositioning ≡ is_turning_off)
    × (g.clock_set_from ≡ g.geodata.timestamp)
    × (length g.geodata.timestamp ≤ 12)
retriv_geopositioning-obtains_example =
    retriv_geopositioning-obtains scan_unary (at_tick 1) located located_obtains
