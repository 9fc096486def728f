-- ===== src/Route/States.antt =====
-- Modules/Gateway/Gateway.cpp and GatewayState: the states, and the calls of `update` in their
-- order. A call finds the state that the call before it has left; in a state that does not
-- implement it, it does nothing. What the modules return to a state is an argument.
use gateway_lo_ra.Prelude.{ℕ, Bool, true, false, List, [], Option, none, some, if◌then◌else◌}
use gateway_lo_ra.Cellular.Module.{
  ConnectionStatus, unavailable_status, trying_to_connect, connected_to_network,
}
use gateway_lo_ra.Gnss.State.{GnssState, connection_obtain, connection_unavailable}
use gateway_lo_ra.Ethernet.Sending.{
  GatewayStatus, loralora_trying_ethernet, loragnss_trying_ethernet, loralora_trying_mobile_network,
  loragnss_trying_mobile_network, stays, sensing_battery_status, connecting_to_mobile_network,
  Network, Sending, exchange,
}

-- `ReceptedTypeMessage_t`
pub data ReceptedTypeMessage : Type 0 where
  loralora loragnss : ReceptedTypeMessage

-- The classes that derive from `GatewayState`, with the status of the message; the flag of
-- `GettingGNSSPosition` is its static `moduleTurningOff`.
pub data GatewayState : Type 0 where
  waiting_for_message sensing_battery exchanging_messages : GatewayState
  getting_gnss_position : Bool → GatewayState
  sending_ack connecting_ethernet obtaing_time_utc formatting_message : GatewayStatus → GatewayState
  connecting_to_mobile : GatewayStatus → GatewayState
  sending_through_ethernet : Sending → GatewayState

-- What the modules return in one update: the type of a message that was received and parsed; that
-- the acknowledgement is sent; that the battery was measured; the status of the position and
-- whether the modem is turned off; the status of the connection; the type of the message that is
-- held; that the exchange is over; whether Ethernet connects; the network, and the message.
pub record Event : Type 0 where
  pub received : Option ReceptedTypeMessage
  pub is_acknowledged : Bool
  pub is_measured : Bool
  pub position : GnssState
  pub is_turned_off : Bool
  pub connection : ConnectionStatus
  pub is_exchanged : Bool
  pub ethernet_connects : Bool
  pub network : Network
  pub message : List ℕ

-- `WaitingForMessage::waitForMessage`, the choice of the next state
unfoldable pub wait_for_message : Event → GatewayState → GatewayState
wait_for_message e waiting_for_message = elim e.received [
  | none ↦ waiting_for_message
  | some loralora ↦ sending_ack loralora_trying_ethernet
  | some loragnss ↦ sending_ack loragnss_trying_ethernet
]
wait_for_message e s = s

-- `SendingAck::sendAcknowledgement`, the same
unfoldable pub send_acknowledgement : Event → GatewayState → GatewayState
send_acknowledgement e (sending_ack status) =
    if e.is_acknowledged then connecting_ethernet status else sending_ack status
send_acknowledgement e s = s

-- `SensingBatteryStatus::updatePowerStatus`; in the other states it changes no state.
unfoldable pub update_power_status : Event → GatewayState → GatewayState
update_power_status e sensing_battery =
    if e.is_measured then getting_gnss_position false else sensing_battery
update_power_status e s = s

-- Whether the search for the position has come to an end.
abbrev pub is_position_final : GnssState → Bool
is_position_final connection_obtain = true
is_position_final connection_unavailable = true
is_position_final _ = false

-- `GettingGNSSPosition::obtainGNSSPosition`
unfoldable pub obtain_gnss_position : Event → GatewayState → GatewayState
obtain_gnss_position e (getting_gnss_position true) =
    if e.is_turned_off then waiting_for_message else getting_gnss_position true
obtain_gnss_position e (getting_gnss_position false) =
    getting_gnss_position (is_position_final e.position)
obtain_gnss_position e s = s

-- `ConnectingToMobileNetwork::connectToMobileNetwork`
unfoldable pub connect_to_mobile_network : Event → GatewayState → GatewayState
connect_to_mobile_network e (connecting_to_mobile status) = elim e.connection [
  | connected_to_network ↦ formatting_message status
  | unavailable_status ↦ connecting_to_mobile status
  | trying_to_connect ↦ connecting_to_mobile status
  | _ ↦ sensing_battery
]
connect_to_mobile_network e s = s

-- A new `SendingMessageThroughEthernet`: of the gateway's chain it is only told here that it is
-- there.
abbrev pub new_sending : GatewayStatus → Sending
new_sending status = record {
  current_status = status;
  connection_retries = 0;
  sequence_message_number = 0;
  prev_chain_hash = [];
  curr_chain_hash = [];
  sent = [];
  next = stays;
}

-- `FormattingMessage::formatMessage`, the choice of the next state
unfoldable pub format_message : GatewayState → GatewayState
format_message (formatting_message loralora_trying_mobile_network) = exchanging_messages
format_message (formatting_message loragnss_trying_mobile_network) = exchanging_messages
format_message (formatting_message status) = sending_through_ethernet (new_sending status)
format_message s = s

-- `ExchangingMessages::exchangeMessages`, the same
unfoldable pub exchange_messages : Event → GatewayState → GatewayState
exchange_messages e exchanging_messages =
    if e.is_exchanged then sensing_battery else exchanging_messages
exchange_messages e s = s

-- `ConnectingEthernet::connectEthernetToLocalNetwork`: where Ethernet does not connect, only a
-- status that tries it changes the state.
unfoldable pub connect_ethernet_to_local_network : Event → GatewayState → GatewayState
connect_ethernet_to_local_network e (connecting_ethernet status) =
    if e.ethernet_connects then obtaing_time_utc status else elim status [
      | loralora_trying_ethernet ↦ connecting_to_mobile loralora_trying_mobile_network
      | loragnss_trying_ethernet ↦ connecting_to_mobile loragnss_trying_mobile_network
      | other ↦ connecting_ethernet other
    ]
connect_ethernet_to_local_network e s = s

-- `ObtaingTimeUTCThroughEthernet::queryUTCTimeViaRemoteServer`, with a time or without one
unfoldable pub query_utc_time_via_remote_server : GatewayState → GatewayState
query_utc_time_via_remote_server (obtaing_time_utc status) = formatting_message status
query_utc_time_via_remote_server s = s

-- The state behind `SendingMessageThroughEthernet`.
abbrev pub leave_sending : Sending → GatewayState
leave_sending x = elim x.next [
  | stays ↦ sending_through_ethernet x
  | sensing_battery_status ↦ sensing_battery
  | connecting_to_mobile_network status ↦ connecting_to_mobile status
]

-- `SendingMessageThroughEthernet::exchangeMessagesThroughEthernet`
unfoldable pub exchange_messages_through_ethernet : Event → GatewayState → GatewayState
exchange_messages_through_ethernet e (sending_through_ethernet x) =
    leave_sending (exchange e.network e.message x)
exchange_messages_through_ethernet e s = s

-- `Gateway::update`
unfoldable pub update : Event → GatewayState → GatewayState
update e s =
    let s = wait_for_message e s in
    let s = send_acknowledgement e s in
    let s = update_power_status e s in
    let s = obtain_gnss_position e s in
    let s = connect_to_mobile_network e s in
    let s = format_message s in
    let s = exchange_messages e s in
    let s = connect_ethernet_to_local_network e s in
    let s = query_utc_time_via_remote_server s in exchange_messages_through_ethernet e s
