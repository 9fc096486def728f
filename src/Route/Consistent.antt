-- ===== src/Route/Consistent.antt =====
-- The statuses with which the states of Modules/Gateway follow one another.
use gateway_lo_ra.Prelude.{◌≡◌, Bool, true, false, ◌&&◌, ◌||◌, arith}
use gateway_lo_ra.Ethernet.Sending.{
  GatewayStatus, loralora_trying_mobile_network, loragnss_trying_mobile_network, Next, stays,
  Sending,
}
use gateway_lo_ra.Ethernet.Delivery.{is_trying_ethernet}
use gateway_lo_ra.Route.States.{
  GatewayState, sending_ack, connecting_ethernet, obtaing_time_utc, formatting_message,
  connecting_to_mobile, sending_through_ethernet,
}

abbrev pub is_trying_mobile : GatewayStatus → Bool
is_trying_mobile loralora_trying_mobile_network = true
is_trying_mobile loragnss_trying_mobile_network = true
is_trying_mobile _ = false

abbrev pub is_staying : Next → Bool
is_staying stays = true
is_staying _ = false

-- The states of Ethernet try Ethernet, that of the mobile network tries the mobile network, and a
-- message is formatted for either.
abbrev pub is_consistent : GatewayState → Bool
is_consistent (sending_ack status) = is_trying_ethernet status
is_consistent (connecting_ethernet status) = is_trying_ethernet status
is_consistent (obtaing_time_utc status) = is_trying_ethernet status
is_consistent (formatting_message status) = is_trying_ethernet status || is_trying_mobile status
is_consistent (connecting_to_mobile status) = is_trying_mobile status
is_consistent (sending_through_ethernet x) =
    is_trying_ethernet x.current_status && is_staying x.next
is_consistent _ = true

pub staying : (n : Next) → is_staying n ≡ true → n ≡ stays
staying n h = ground arith

-- The states in which the gateway is getting on to Ethernet.
abbrev is_connecting : GatewayState → Bool
is_connecting (connecting_ethernet status) = true
is_connecting _ = false

abbrev pub is_getting_on : GatewayState → Bool
is_getting_on (connecting_ethernet status) = true
is_getting_on (obtaing_time_utc status) = true
is_getting_on _ = false
