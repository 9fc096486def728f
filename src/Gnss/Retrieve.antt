-- ===== src/Gnss/Retrieve.antt =====
-- Modules/GNSSModule: `retrivGeopositioning` of the module and of the state that it is in.
use gateway_lo_ra.Prelude.{
  ℕ, ◌+◌, Bool, true, false, not, ◌||◌, ◌&&◌, List, ◌∷◌, ◌++◌, Option, none, some, codes, leb,
  eq_bytes, if◌then◌else◌,
}
use gateway_lo_ra.Power.State.{
  Inputs, PowerStatus, power_on, power_off, manual_power_off, sleep, is_response,
}
use gateway_lo_ra.Power.Manager
use gateway_lo_ra.Gnss.State.{
  GnssState, disconnected, trying_to_connect, connection_obtain, connection_unavailable,
  GeopositioningState, gnss_unavailable, configurate_constellation, turning_on_gnss,
  obtaining_position_information, turning_off_gnss, GnssData, GnssModule,
  change_geopositioning_state, send, receive, read_refresh,
}
use gateway_lo_ra.Gnss.Position.{retriv_position_info}

-- `MAX_RETRIES` of ConfigurateConstellation.cpp and `MAXRETRIES` of
-- ObtainingPositionInformation.cpp
abbrev pub max_retries : ℕ
max_retries = 20

abbrev pub max_position_retries : ℕ
max_position_retries = 30

-- The commands, and the answers that are looked for.
abbrev pub constellation_command : List ℕ
constellation_command = codes "AT+QGPSCFG=" ++ 34 ∷ (codes "gnssconfig" ++ 34 ∷ codes ",4")

abbrev pub already_lock_response : List ℕ
already_lock_response = codes "+CME ERROR: 504"

abbrev pub session_not_active : List ℕ
session_not_active = codes "+CME ERROR: 505"

-- `strcmp (line, ExpectedResponse) == 0 || strcmp (line, response)`: the second comparison lacks
-- its `== 0`, so the condition holds of any line but `response`.
unfoldable pub is_ok_or_not : List ℕ → List ℕ → Bool
is_ok_or_not response line = eq_bytes line (codes "OK") || not (eq_bytes line response)

-- What an attempt comes to: a result of the call, or the poll at its end.
pub data Outcome (Float : Type 0) : Type 0 where
  done : GnssState → GnssModule Float → Outcome Float
  waits : GnssModule Float → Outcome Float

-- The status of a call that neither moved on nor gave up.
unfoldable pub status_so_far : GeopositioningState → GnssState
status_so_far gnss_unavailable = disconnected
status_so_far (turning_off_gnss ready) = disconnected
status_so_far _ = trying_to_connect

-- Whether the status is POWER_ON.
abbrev pub is_power_on : PowerStatus → Bool
is_power_on power_on = true
is_power_on _ = false

abbrev pub eq_power : PowerStatus → PowerStatus → Bool
eq_power power_on power_on = true
eq_power power_off power_off = true
eq_power manual_power_off manual_power_off = true
eq_power sleep sleep = true
eq_power _ _ = false

module _ {Float : Type 0} where
  -- `if (this->readyToSend == true) ATHandler->sendATCommand (command)`
  unfoldable pub send_if : Bool → List ℕ → GnssModule Float → GnssModule Float
  send_if ready command g = if ready then send command g else g

  -- `ConfigurateConstellation::retrivGeopositioning`, behind the read
  unfoldable pub answer_constellation : ℕ → Option (List ℕ) → GnssModule Float → Outcome Float
  answer_constellation tries line g =
      if is_response (codes "OK") line
      then done trying_to_connect (change_geopositioning_state (turning_on_gnss true) g)
      else waits (change_geopositioning_state (configurate_constellation false tries) g)

  -- `TurningOnGNSS::retrivGeopositioning`, behind the read
  unfoldable pub answer_turning_on : Option (List ℕ) → GnssModule Float → Outcome Float
  answer_turning_on none g = waits (change_geopositioning_state (turning_on_gnss false) g)
  answer_turning_on (some line) g =
      if is_ok_or_not already_lock_response line
      then done trying_to_connect
          (change_geopositioning_state (obtaining_position_information true 0) g)
      else waits (change_geopositioning_state (turning_on_gnss false) g)

  -- `TurningOffGNSS::retrivGeopositioning`, behind the read
  unfoldable pub answer_turning_off : Option (List ℕ) → GnssModule Float → Outcome Float
  answer_turning_off none g = waits (change_geopositioning_state (turning_off_gnss false) g)
  answer_turning_off (some line) g =
      if is_ok_or_not session_not_active line
      then done disconnected (change_geopositioning_state gnss_unavailable g)
      else waits (change_geopositioning_state (turning_off_gnss false) g)

  -- `ObtainingPositionInformation::retrivGeopositioning`, behind the read of a line that gave this
  -- position, or none
  unfoldable pub answer_position :
      ℕ → List ℕ → Option (GnssData Float) → GnssModule Float → Outcome Float
  answer_position tries line (some position) g = done connection_obtain (
      change_geopositioning_state (turning_off_gnss true)
        (record g { geodata = position; clock_set_from = position.timestamp }))
  answer_position tries line none g =
      if eq_bytes line session_not_active
      then done trying_to_connect (change_geopositioning_state (turning_on_gnss true) g)
      else waits (change_geopositioning_state (obtaining_position_information false tries) g)

  -- What the expired delay does in the state.
  unfoldable pub retry : GnssModule Float → GnssState × GnssModule Float
  retry g = elim g.geopositioning [
    | gnss_unavailable ↦ (disconnected, g)
    | configurate_constellation ready tries ↦
        if leb max_retries (tries + 1)
        then (connection_unavailable, change_geopositioning_state (turning_off_gnss true) g)
        else (
          trying_to_connect,
          change_geopositioning_state (configurate_constellation true (tries + 1)) g,
        )
    | turning_on_gnss ready ↦
        (trying_to_connect, change_geopositioning_state (turning_on_gnss true) g)
    | obtaining_position_information ready tries ↦
        if leb max_position_retries (tries + 1)
        then (connection_unavailable, change_geopositioning_state (turning_off_gnss true) g)
        else (
          trying_to_connect,
          change_geopositioning_state (obtaining_position_information true (tries + 1)) g,
        )
    | turning_off_gnss ready ↦ (disconnected, change_geopositioning_state (turning_off_gnss true) g)
  ]

  -- What is left of `retrivGeopositioning` behind an attempt.
  unfoldable pub finish : Inputs → Outcome Float → GnssState × GnssModule Float
  finish i (done status g) = (status, g)
  finish i (waits g) =
      let (over, g') = read_refresh i g in
      if over then retry g' else (status_so_far g'.geopositioning, g')

  -- `enableGNSS`: only `GNSSUnavailable` does something.
  unfoldable pub enable_gnss : GnssModule Float → GnssModule Float
  enable_gnss g = elim g.geopositioning [
    | gnss_unavailable ↦ change_geopositioning_state (configurate_constellation true 0) g
    | _ ↦ g
  ]

  -- `GNSSModule::startStopUpdate`: a modem that is found not to be on any more is unavailable.
  unfoldable pub start_stop_update : Inputs → GnssModule Float → GnssModule Float
  start_stop_update i g =
      let (status, power) = Manager.start_stop_update i g.power in
      let g' = record g { power = power; current_power_status = status } in
      if not (eq_power g.current_power_status status) && not (is_power_on status)
      then change_geopositioning_state gnss_unavailable g'
      else g'

module _ {Float : Type 0} (scan_float : List ℕ → Option (Float × List ℕ)) where
  -- The position of a line.
  unfoldable pub answer_obtaining : ℕ → Option (List ℕ) → GnssModule Float → Outcome Float
  answer_obtaining tries none g =
      waits (change_geopositioning_state (obtaining_position_information false tries) g)
  answer_obtaining tries (some line) g =
      answer_position tries line (retriv_position_info scan_float line) g

  -- `retrivGeopositioning` of the state up to the poll of `refreshTime`
  unfoldable pub attempt : GnssModule Float → Outcome Float
  attempt g = elim g.geopositioning [
    | gnss_unavailable ↦ done disconnected g
    | configurate_constellation ready tries ↦
        let (line, g') = receive (send_if ready constellation_command g) in
        answer_constellation tries line g'
    | turning_on_gnss ready ↦
        let (line, g') = receive (send_if ready (codes "AT+QGPS=1") g) in answer_turning_on line g'
    | obtaining_position_information ready tries ↦
        let g1 = send_if ready (codes "AT+QGPSLOC=2") g in
        let (line, g') = receive (send_if ready (codes "AT+QGPSLOC?") g1) in
        answer_obtaining tries line g'
    | turning_off_gnss ready ↦
        let (line, g') = receive (send_if ready (codes "AT+QGPS=0") g) in answer_turning_off line g'
  ]

  -- `GNSSModule::retrivGeopositioning`
  unfoldable pub retriv_geopositioning : Inputs → GnssModule Float → GnssState × GnssModule Float
  retriv_geopositioning i g = finish i (attempt g)
