-- ===== src/Ethernet/Tests.antt =====
-- The theorems on the delivery over Ethernet at concrete networks.
use gateway_lo_ra.Prelude.{
  ◌+◌, ◌<◌, ◌≡◌, refl, true, false, [], ◌∷◌, ◌++◌, arith, codes, pos, length, replicate,
}
use gateway_lo_ra.Gateway.Show.{show_ℕ, show_digits}
use gateway_lo_ra.Ethernet.Sending.{
  loralora_trying_mobile_network, connecting_to_mobile_network, loralora_trying_ethernet, stays,
  sensing_battery_status, Network, Sending, exchange,
}
use gateway_lo_ra.Ethernet.Delivery.{
  pieces, request_head, exchange-delivers, exchanges, exchanges-give_up,
}

abbrev sending : Sending
sending = record {
  current_status = loralora_trying_ethernet;
  connection_retries = 0;
  sequence_message_number = 5;
  prev_chain_hash = codes "a";
  curr_chain_hash = codes "b";
  sent = [];
  next = stays;
}

-- A network that takes 10 bytes with every call, and answers in two pieces.
abbrev network : Network
network = record {
  opens = true;
  connects = true;
  sends = replicate 2499 (pos 10);
  answers_in_time = true;
  answers = pieces (codes "HTTP/1.1 200" ∷ codes " OK" ∷ []);
}

fits : length (request_head 2 ++ codes "hi") < 2500
unfolding show_ℕ show_digits
fits = omega arith

exchange-delivers_example :
    ((exchange network (codes "hi") sending).sent ≡ [] ++ (request_head 2 ++ codes "hi"))
    × ((exchange network (codes "hi") sending).next ≡ sensing_battery_status)
    × ((exchange network (codes "hi") sending).sequence_message_number ≡ 5 + 2)
exchange-delivers_example =
    exchange-delivers network (codes "hi") (codes "HTTP/1.1 200" ∷ codes " OK" ∷ []) sending fits
      refl refl refl (omega (arith, fits)) refl refl

-- A server that refuses the connection.
abbrev refusing : Network
refusing = record {
  opens = true;
  connects = false;
  sends = [];
  answers_in_time = false;
  answers = [];
}

exchanges-give_up_example :
    (exchanges (replicate 20 refusing) (codes "hi") sending).next
    ≡ connecting_to_mobile_network loralora_trying_mobile_network
exchanges-give_up_example =
    exchanges-give_up (replicate 20 refusing) (codes "hi") sending refl refl refl (omega arith)
      (omega arith)
