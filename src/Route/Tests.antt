-- ===== src/Route/Tests.antt =====
-- The theorems on the update of the gateway at a concrete state.
use gateway_lo_ra.Prelude.{◌≡◌, refl, true, false, [], none, codes}
use gateway_lo_ra.Cellular.Module.{trying_to_connect}
use gateway_lo_ra.Gnss.State.{disconnected}
use gateway_lo_ra.Ethernet.Sending.{loragnss_trying_ethernet}
use gateway_lo_ra.Route.States.{connecting_ethernet, Event, update}
use gateway_lo_ra.Route.Kind.{is_of, update-is_of}

-- Ethernet does not connect.
abbrev no_ethernet : Event
no_ethernet = record {
  received = none;
  is_acknowledged = false;
  is_measured = false;
  position = disconnected;
  is_turned_off = false;
  connection = trying_to_connect;
  is_exchanged = false;
  ethernet_connects = false;
  network = record {
    opens = false;
    connects = false;
    sends = [];
    answers_in_time = false;
    answers = [];
  };
  message = codes "hi";
}

update-is_of_example :
    is_of true (update no_ethernet (connecting_ethernet loragnss_trying_ethernet)) ≡ true
update-is_of_example =
    update-is_of true no_ethernet (connecting_ethernet loragnss_trying_ethernet) refl refl
