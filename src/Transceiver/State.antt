-- ===== src/Transceiver/State.antt =====
-- Modules/CellularModule: TransceiverStatus.h, the transceiver states that an enabled module goes
-- through with their fields, and what a state does to the module. The states of the older path
-- over a socket are no constructors here: nothing that an enabled module reaches creates them.
use gateway_lo_ra.Prelude.{ℕ, Bool, true, false, List, Option, ℤ, if◌then◌else◌}
use gateway_lo_ra.Timer
use gateway_lo_ra.AtHandler.{read_at_response_sized}
use gateway_lo_ra.Power.State.{Inputs}
use gateway_lo_ra.Cellular.Module
use gateway_lo_ra.Cellular.Module.{Module}

-- `CellularTransceiverStatus_t`
pub data TransceiverStatus : Type 0 where
  unavaible trynig_to_send fail_to_activate_pdp send_ok unavaible_to_send error_null_pointer :
      TransceiverStatus

-- `currentStatus` of `ConfigurePDPForHTTP`
pub data PdpStep : Type 0 where
  assing_pdpcontext_to_http_stack configuring_pdp_profile activating_pdp_context : PdpStep
  quering_pdp_context configuring_server_dns ping_server_dns : PdpStep

-- `currentStatus` of `ConfigureSSL`
pub data SslStep : Type 0 where
  setting_ssl_context setting_ssl_version setting_ssl_cipher_suite setting_ssl_level : SslStep

-- `currentStatus` of `PostHTTP`
pub data PostStep : Type 0 where
  setting_url posting_data reading_data decoding_data : PostStep

-- The fields of a state that goes through steps.
pub record Stepping (S : Type 0) : Type 0 where
  pub ready_to_send : Bool
  pub attempts : ℕ
  pub current_status : S

-- The fields of `DeactivatePDP`
pub record Deactivating : Type 0 where
  pub ready_to_send : Bool
  pub transmission_was_a_success : Bool

-- The classes that derive from `TransceiverState`, but for those of the socket.
pub data TransceiverState : Type 0 where
  transceiver_unavailable : TransceiverState
  configure_pdp_for_http : Stepping PdpStep → TransceiverState
  configure_ssl : Stepping SslStep → TransceiverState
  post_http : Stepping PostStep → TransceiverState
  deactivate_pdp : Deactivating → TransceiverState

-- The static variables of `PostHTTP::exchangeMessages`: they outlive the state.
pub record Posting : Type 0 where
  pub string_to_be_read : List ℕ
  pub data_len : ℤ
  pub wating_for_response : Bool
  pub url_set : Bool

-- `CellularModule` with its transceiver, and the two variables of the caller that it writes.
pub record CellularModule : Type 0 where
  pub base : Module
  pub transceiver : TransceiverState
  pub posting : Posting
  pub received_message : List ℕ
  pub new_data_available : Bool

-- the constructors of the states
abbrev pub fresh : {S : Type 0} → S → Stepping S
fresh s = record { ready_to_send = true; attempts = 0; current_status = s }

abbrev pub fresh_deactivate : Bool → TransceiverState
fresh_deactivate success =
    deactivate_pdp (record { ready_to_send = true; transmission_was_a_success = success })

-- `changeTransceiverState`
unfoldable pub change_transceiver_state : TransceiverState → CellularModule → CellularModule
change_transceiver_state s c = record c { transceiver = s }

-- `ATHandler->sendATCommand (command)`
unfoldable pub send : List ℕ → CellularModule → CellularModule
send command c = record c { base = Module.send command c.base }

-- `if (this->readyToSend == true) ATHandler->sendATCommand (command)`
unfoldable pub send_if : Bool → List ℕ → CellularModule → CellularModule
send_if ready command c = if ready then send command c else c

-- `ATHandler->readATResponse (StringToBeRead, size)`
unfoldable pub receive : ℕ → CellularModule → Option (List ℕ) × CellularModule
receive size c =
    let (line, handler) = read_at_response_sized false size c.base.power.handler in
    (
      line,
      record c { base = record (c.base) { power = record (c.base.power) { handler = handler } } },
    )

-- `refreshTime->restart ()`
unfoldable pub restart_refresh : Inputs → CellularModule → CellularModule
restart_refresh i c = record c { base = Module.restart_refresh i c.base }

-- `refreshTime->write (duration)`
unfoldable pub write_refresh : ℕ → CellularModule → CellularModule
write_refresh duration c = record c {
  base = record (c.base) { refresh_time = Timer.write duration c.base.refresh_time };
}

-- `refreshTime->write (duration); refreshTime->restart ()`
unfoldable pub start_refresh : Inputs → ℕ → CellularModule → CellularModule
unfolding write_refresh restart_refresh
start_refresh i duration c = restart_refresh i (write_refresh duration c)

-- `refreshTime->read ()`
unfoldable pub read_refresh : Inputs → CellularModule → Bool × CellularModule
read_refresh i c =
    let (over, base) = Module.read_refresh i c.base in (over, record c { base = base })
