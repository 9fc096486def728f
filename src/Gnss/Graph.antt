-- ===== src/Gnss/Graph.antt =====
-- The transitions of the geopositioning states of Modules/GNSSModule.
use gateway_lo_ra.Prelude.{ℕ, ◌≡◌, Bool, true, false, not, List, Option}
use gateway_lo_ra.Power.State.{Inputs}
use gateway_lo_ra.Gnss.State.{
  GeopositioningState, gnss_unavailable, configurate_constellation, turning_on_gnss,
  obtaining_position_information, turning_off_gnss, GnssModule,
}
use gateway_lo_ra.Power.Manager
use gateway_lo_ra.Gnss.Retrieve.{
  Outcome, is_power_on, done, waits, enable_gnss, start_stop_update, retriv_geopositioning,
}

-- The class of a state, its fields left out.
pub data Phase : Type 0 where
  is_unavailable is_configurating is_turning_on is_obtaining is_turning_off : Phase

abbrev pub phase : GeopositioningState → Phase
phase gnss_unavailable = is_unavailable
phase (configurate_constellation ready tries) = is_configurating
phase (turning_on_gnss ready) = is_turning_on
phase (obtaining_position_information ready tries) = is_obtaining
phase (turning_off_gnss ready) = is_turning_off

-- The calls of a `GNSSModule` that act on its state.
pub data Call : Type 0 where
  enables retrieves starts_stops : Call

-- The diagram: the edges that each call takes, and whether the modem is found to be off.
pub data Edge : Call → Bool → Phase → Phase → Type 0 where
  stay : {c : Call} {off : Bool} {p : Phase} → Edge c off p p
  enabled : {off : Bool} → Edge enables off is_unavailable is_configurating
  configurated : {off : Bool} → Edge retrieves off is_configurating is_turning_on
  not_configurated : {off : Bool} → Edge retrieves off is_configurating is_turning_off
  turned_on : {off : Bool} → Edge retrieves off is_turning_on is_obtaining
  session_lost : {off : Bool} → Edge retrieves off is_obtaining is_turning_on
  obtained_or_not : {off : Bool} → Edge retrieves off is_obtaining is_turning_off
  turned_off : {off : Bool} → Edge retrieves off is_turning_off is_unavailable
  power_lost : {p : Phase} → Edge starts_stops true p is_unavailable

-- The same as a test, which the tactics compute.
abbrev is_same : Phase → Phase → Bool
is_same is_unavailable is_unavailable = true
is_same is_configurating is_configurating = true
is_same is_turning_on is_turning_on = true
is_same is_obtaining is_obtaining = true
is_same is_turning_off is_turning_off = true
is_same _ _ = false

abbrev has_edge : Call → Bool → Phase → Phase → Bool
has_edge starts_stops true p is_unavailable = true
has_edge enables off is_unavailable is_configurating = true
has_edge retrieves off is_configurating is_turning_on = true
has_edge retrieves off is_configurating is_turning_off = true
has_edge retrieves off is_turning_on is_obtaining = true
has_edge retrieves off is_obtaining is_turning_on = true
has_edge retrieves off is_obtaining is_turning_off = true
has_edge retrieves off is_turning_off is_unavailable = true
has_edge _ _ p q = is_same p q

module _ {Float : Type 0} where
  -- An attempt in this phase either ends the call behind an edge, or goes on to the poll in it.
  abbrev Leads : Phase → Outcome Float → Type 0
  Leads p (done status g) = has_edge retrieves false p (phase g.geopositioning) ≡ true
  Leads p (waits g) = phase g.geopositioning ≡ p

  -- Whether the power manager finds the modem not to be on.
  abbrev pub is_off : Inputs → GnssModule Float → Bool
  is_off i g = not (is_power_on (Manager.start_stop_update i g.power).0)

module _ {Float : Type 0} (scan_float : List ℕ → Option (Float × List ℕ)) where
  -- A call, and the module after it.
  unfoldable pub step : Call → Inputs → GnssModule Float → GnssModule Float
  step enables i g = enable_gnss g
  step retrieves i g = (retriv_geopositioning scan_float i g).1
  step starts_stops i g = start_stop_update i g
