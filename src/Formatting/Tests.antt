-- ===== src/Formatting/Tests.antt =====
-- The theorem on the messages to the server at concrete services, and a text that is written.
use gateway_lo_ra.Prelude.{
  ℕ, zero, suc, ◌≡◌, ◌≤◌, refl, List, [], ◌∷◌, ◌++◌, arith, codes, length, take, pos, negsuc,
}
use gateway_lo_ra.Gateway.Show.{show_ℕ, show_ℤ, show_digits}
use gateway_lo_ra.Ethernet.Sending.{loralora_trying_mobile_network}
use gateway_lo_ra.Route.States.{loragnss}
use gateway_lo_ra.Parsing.Message.{Recepted}
use gateway_lo_ra.Formatting.MetaData.{
  Services, Chain, add_meta_data, json_fields, url_path_channel, epoch_to_timestamp,
  hash_and_base64,
}
use gateway_lo_ra.Formatting.Sealed.{open_message, add_meta_data-open_message}
use gateway_lo_ra.Formatting.Payload.{loragnss_payload, head_fields, motion_fields}

-- The first 44 bytes, or as many of them as there are and then 'A', stand for a hash.
abbrev first_bytes : ℕ → List ℕ → List ℕ
first_bytes zero cs = []
first_bytes (suc n) [] = b'A' ∷ first_bytes n []
first_bytes (suc n) (c ∷ cs) = c ∷ first_bytes n cs

length-first_bytes : (n : ℕ) (cs : List ℕ) → length (first_bytes n cs) ≡ n
length-first_bytes zero cs = refl
length-first_bytes (suc n) [] = omega (arith, length-first_bytes n [])
length-first_bytes (suc n) (c ∷ cs) = omega (arith, length-first_bytes n cs)

abbrev services : Services
services = record {
  sha256 = λ text. text;
  base64 = λ text. first_bytes 44 text;
  localtime = λ seconds. record {
    tm_mday = 3;
    tm_mon = 0;
    tm_year = 125;
    tm_hour = 12;
    tm_min = 5;
    tm_sec = 59;
  };
  new_buffer = [];
}

abbrev chain : Chain
chain = record {
  current_status = loralora_trying_mobile_network;
  device_identifier = codes "gateway-1";
  url = codes "/main";
  secondary_url = codes "/second";
  sequence_message_number = pos 7;
  prev_chain_hash = codes "before";
  curr_chain_hash = [];
}

abbrev message : List ℕ
message = b'"' ∷ b'A' ∷ b'"' ∷ b':' ∷ b'1' ∷ []

epoch_to_timestamp_at : epoch_to_timestamp services 0 20 ≡ codes "030125120559"
unfolding epoch_to_timestamp show_ℕ show_digits
epoch_to_timestamp_at = refl

json_fields_fit : length (json_fields services 0 message chain) ≤ 2443
unfolding json_fields url_path_channel epoch_to_timestamp hash_and_base64 show_ℤ show_ℕ show_digits
json_fields_fit = omega arith

add_meta_data-open_message_example :
    let (sealed, g') = add_meta_data services 0 message chain in
    let (curr, object) = open_message sealed in
    (curr ≡ first_bytes 44 object)
    × (object ≡ b'{' ∷ (json_fields services 0 message chain ++ b'}' ∷ []))
    × (g'.curr_chain_hash ≡ curr)
add_meta_data-open_message_example =
    add_meta_data-open_message services 0 message chain (length-first_bytes 44) json_fields_fit

abbrev recepted : Recepted ℕ
recepted = record {
  imei = pos 359;
  lora_message_number = pos 1;
  tracker_event = codes "MOVE";
  latitude = 3;
  longitude = 5;
  hdop = 1;
  altitude = 2;
  cog = 0;
  spkm = 4;
  gnss_timestamp = codes "030125";
  battery_charge_status = 1;
  charge_level = 87;
  imu_status = 255;
  imu_timestamp = [];
  ax = 1;
  ay = 0;
  az = 2;
  yaw = 3;
  roll = 1;
  pitch = 0;
  type_message = loragnss;
}

loragnss_payload_at :
    take 39 (loragnss_payload show_ℕ show_ℕ (negsuc 59) recepted)
    ≡ b'"'
      ∷ (codes "Type"
          ++ (b'"'
              ∷ b':'
              ∷ b'"'
              ∷ (codes "LORAGNSS"
                  ++ (b'"'
                      ∷ b','
                      ∷ b'"'
                      ∷ (codes "IMEI"
                          ++ (b'"'
                              ∷ b':'
                              ∷ (codes "359,"
                                  ++ (b'"'
                                      ∷ (codes "RSSI"
                                          ++ (b'"' ∷ b':' ∷ (codes "-60" ++ [])))))))))))
unfolding loragnss_payload head_fields motion_fields show_ℤ show_ℕ show_digits
loragnss_payload_at = refl
