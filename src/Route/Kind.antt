-- ===== src/Route/Kind.antt =====
-- The kind of the message that the states of Modules/Gateway hand on.
use gateway_lo_ra.Prelude.{
  ℕ, ◌≡◌, refl, Bool, true, false, ◌&&◌, List, Option, none, some, arith, ◌+◌, ◌++◌, [], ◌∷◌, ℤ,
  pos, negsuc, not,
}
use gateway_lo_ra.Ethernet.Sending.{
  stays, Network, Sending, Received, bytes, recv_error, exchange, fall_back, receive_loop,
  await_answer, progress, connect_failed, send_loop, http_request,
}
use gateway_lo_ra.Ethernet.Delivery.{is_gnss}
use gateway_lo_ra.Route.Consistent.{is_consistent, is_staying, staying}
use gateway_lo_ra.Route.States.{
  GatewayState, waiting_for_message, sensing_battery, exchanging_messages, getting_gnss_position,
  sending_ack, connecting_ethernet, obtaing_time_utc, formatting_message, connecting_to_mobile,
  sending_through_ethernet, Event, wait_for_message, send_acknowledgement, update_power_status,
  obtain_gnss_position, connect_to_mobile_network, format_message, exchange_messages,
  connect_ethernet_to_local_network, query_utc_time_via_remote_server, leave_sending,
  exchange_messages_through_ethernet, update,
}

-- Whether the message that a state carries has a position; `none` where it carries none.
abbrev pub carried : GatewayState → Option Bool
carried (sending_ack status) = some (is_gnss status)
carried (connecting_ethernet status) = some (is_gnss status)
carried (obtaing_time_utc status) = some (is_gnss status)
carried (formatting_message status) = some (is_gnss status)
carried (connecting_to_mobile status) = some (is_gnss status)
carried (sending_through_ethernet x) = some (is_gnss x.current_status)
carried _ = none

abbrev same : Bool → Bool → Bool
same true b = b
same false b = not b

-- A state that sends over Ethernet has not been left yet.
abbrev is_settled : GatewayState → Bool
is_settled (sending_through_ethernet x) = is_staying x.next
is_settled _ = true

-- The state carries no message, or one of this kind.
abbrev pub is_of : Bool → GatewayState → Bool
is_of kind s = elim (carried s) [ none ↦ true | some k ↦ same kind k ] && is_settled s

acknowledge_of :
    (kind : Bool) (e : Event) (s : GatewayState)
    → is_of kind s ≡ true
    → is_of kind (send_acknowledgement e s) ≡ true
unfolding send_acknowledgement
acknowledge_of kind e s h = ground arith

power_of :
    (kind : Bool) (e : Event) (s : GatewayState)
    → is_of kind s ≡ true
    → is_of kind (update_power_status e s) ≡ true
unfolding update_power_status
power_of kind e s h = ground arith

position_of :
    (kind : Bool) (e : Event) (s : GatewayState)
    → is_of kind s ≡ true
    → is_of kind (obtain_gnss_position e s) ≡ true
unfolding obtain_gnss_position
position_of kind e s h = ground arith

mobile_of :
    (kind : Bool) (e : Event) (s : GatewayState)
    → is_of kind s ≡ true
    → is_of kind (connect_to_mobile_network e s) ≡ true
unfolding connect_to_mobile_network
mobile_of kind e s h = ground arith

format_of :
    (kind : Bool) (s : GatewayState) → is_of kind s ≡ true → is_of kind (format_message s) ≡ true
unfolding format_message
format_of kind s h = ground arith

exchange_of :
    (kind : Bool) (e : Event) (s : GatewayState)
    → is_of kind s ≡ true
    → is_of kind (exchange_messages e s) ≡ true
unfolding exchange_messages
exchange_of kind e s h = ground arith

connect_of :
    (kind : Bool) (e : Event) (s : GatewayState)
    → is_of kind s ≡ true
    → is_of kind (connect_ethernet_to_local_network e s) ≡ true
unfolding connect_ethernet_to_local_network
connect_of kind e s h = ground arith

query_of :
    (kind : Bool) (s : GatewayState)
    → is_of kind s ≡ true
    → is_of kind (query_utc_time_via_remote_server s) ≡ true
unfolding query_utc_time_via_remote_server
query_of kind s h = ground arith

fall_back_of :
    (kind : Bool) (x : Sending)
    → same kind (is_gnss x.current_status) ≡ true
    → x.next ≡ stays
    → is_of kind (leave_sending (fall_back x)) ≡ true
unfolding fall_back
fall_back_of kind x h n = ground arith

receive_of :
    (kind : Bool) (answers : List Received) (x : Sending)
    → same kind (is_gnss x.current_status) ≡ true
    → x.next ≡ stays
    → is_of kind (leave_sending (receive_loop answers x)) ≡ true
unfolding receive_loop progress
receive_of kind [] x h n = ground arith
receive_of kind (bytes b ∷ answers) x h n = receive_of kind answers (progress x) h n
receive_of kind (recv_error ∷ answers) x h n = fall_back_of kind x h n

await_of :
    (kind : Bool) (w : Network) (result : ℤ) (x : Sending)
    → same kind (is_gnss x.current_status) ≡ true
    → x.next ≡ stays
    → is_of kind (leave_sending (await_answer w result x)) ≡ true
unfolding await_answer
await_of kind w (pos r) x h n =
    ground (arith, receive_of kind w.answers x h n, fall_back_of kind x h n)
await_of kind w (negsuc r) x h n = fall_back_of kind x h n

sending_of :
    (kind : Bool) (w : Network) (message : List ℕ) (x : Sending)
    → same kind (is_gnss x.current_status) ≡ true
    → x.next ≡ stays
    → is_of kind (leave_sending (exchange w message x)) ≡ true
unfolding exchange connect_failed
sending_of kind w message x h n =
    let loop = send_loop w.sends (http_request message) in
    ground (
      arith,
      await_of kind w loop.0 (record x { sent = x.sent ++ loop.1 }) h n,
      fall_back_of kind x h n,
      fall_back_of kind (record x { connection_retries = x.connection_retries + 1 }) h n,
    )

ethernet_of :
    (kind : Bool) (e : Event) (s : GatewayState)
    → is_of kind s ≡ true
    → is_of kind (exchange_messages_through_ethernet e s) ≡ true
unfolding exchange_messages_through_ethernet
ethernet_of kind e (sending_through_ethernet x) h =
    ground (arith, staying x.next, sending_of kind e.network e.message x)
ethernet_of kind e waiting_for_message h = refl
ethernet_of kind e sensing_battery h = refl
ethernet_of kind e exchanging_messages h = refl
ethernet_of kind e (getting_gnss_position b) h = refl
ethernet_of kind e (sending_ack status) h = h
ethernet_of kind e (connecting_ethernet status) h = h
ethernet_of kind e (obtaing_time_utc status) h = h
ethernet_of kind e (formatting_message status) h = h
ethernet_of kind e (connecting_to_mobile status) h = h

carried_of :
    (kind : Bool) (e : Event) (s : GatewayState)
    → is_consistent s ≡ true
    → carried s ≡ some kind
    → is_of kind (wait_for_message e s) ≡ true
unfolding wait_for_message
carried_of kind e s c h = ground arith

-- A gateway that carries a message from one state to the next keeps its kind: after an update,
-- whatever the modules return, it still carries a message of this kind, with a position or without
-- one, or it carries no message any more.
pub update-is_of :
    (kind : Bool) (e : Event) (s : GatewayState)
    → is_consistent s ≡ true
    → carried s ≡ some kind
    → is_of kind (update e s) ≡ true
unfolding update
update-is_of kind e s c h = ethernet_of kind e _ (
    query_of kind _ (
      connect_of kind e _ (
        exchange_of kind e _ (
          format_of kind _ (
            mobile_of kind e _ (
              position_of kind e _
                (power_of kind e _ (acknowledge_of kind e _ (carried_of kind e s c h)))))))))
