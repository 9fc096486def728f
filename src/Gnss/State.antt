-- ===== src/Gnss/State.antt =====
-- Modules/GNSSModule: GNSSState.h, GNSSModule.h and the fields of the geopositioning states. The
-- AT handler is the power manager's. `float` is a parameter.
use gateway_lo_ra.Prelude.{ℕ, Bool, false, List, Option, ℤ}
use gateway_lo_ra.Timer
use gateway_lo_ra.Timer.{Delay}
use gateway_lo_ra.AtHandler.{send_at_command, read_at_response_sized}
use gateway_lo_ra.Power.State.{Manager, Inputs, PowerStatus}

-- `GNSSState_t`
pub data GnssState : Type 0 where
  disconnected trying_to_connect connection_obtain connection_unavailable : GnssState
  disconecting error_null_pointer : GnssState

-- The classes that derive from `GeopositioningState`, with `readyToSend` and `numberOfTries`.
pub data GeopositioningState : Type 0 where
  gnss_unavailable : GeopositioningState
  configurate_constellation : Bool → ℕ → GeopositioningState
  turning_on_gnss : Bool → GeopositioningState
  obtaining_position_information : Bool → ℕ → GeopositioningState
  turning_off_gnss : Bool → GeopositioningState

-- `GNSSData`
pub record GnssData (Float : Type 0) : Type 0 where
  pub timestamp : List ℕ
  pub latitude : Float
  pub longitude : Float
  pub hdop : Float
  pub altitude : Float
  pub fix : ℤ
  pub cog : Float
  pub spkm : Float
  pub spkn : Float
  pub nsat : ℤ

-- `GNSSModule`, with the caller's data and the text from which the clock was set.
pub record GnssModule (Float : Type 0) : Type 0 where
  pub power : Manager
  pub refresh_time : Delay
  pub geopositioning : GeopositioningState
  pub current_power_status : PowerStatus
  pub geodata : GnssData Float
  pub clock_set_from : List ℕ

module _ {Float : Type 0} where
  -- `changeGeopositioningState`
  unfoldable pub change_geopositioning_state :
      GeopositioningState → GnssModule Float → GnssModule Float
  change_geopositioning_state s g = record g { geopositioning = s }

  -- `ATHandler->sendATCommand (command)`
  unfoldable pub send : List ℕ → GnssModule Float → GnssModule Float
  send command g = record g {
    power = record (g.power) { handler = send_at_command command g.power.handler };
  }

  -- `ATHandler->readATResponse (StringToBeRead, BUFFER_LEN)`
  unfoldable pub receive : GnssModule Float → Option (List ℕ) × GnssModule Float
  receive g =
      let (line, handler) = read_at_response_sized false 128 g.power.handler in
      (line, record g { power = record (g.power) { handler = handler } })

  -- `refreshTime->read ()`
  unfoldable pub read_refresh : Inputs → GnssModule Float → Bool × GnssModule Float
  read_refresh i g = (
    (Timer.read i.now g.refresh_time).0,
    record g { refresh_time = (Timer.read i.now g.refresh_time).1 },
  )
