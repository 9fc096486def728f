-- ===== src/Formatting/Payload.antt =====
-- Modules/Gateway/GatewayState/FormattingMessage: `formatLORALORAMessage` and
-- `formatLORAGNSSMessage`. The "%.6f" and "%.2f" of `snprintf` and `JWTManager::encodeJWT` are
-- parameters.
use gateway_lo_ra.Prelude.{ℕ, ◌-◌, List, [], ◌∷◌, ◌++◌, codes, take, ℤ, pos}
use gateway_lo_ra.Gateway.Show.{show_ℤ}
use gateway_lo_ra.Parsing.Message.{Recepted}
use gateway_lo_ra.Formatting.MetaData.{Services, Chain, add_meta_data, size_of_message_buffer}

-- The position of the gateway, as far as a message has it.
pub record GatewayGnss (Float : Type 0) : Type 0 where
  pub latitude : Float
  pub longitude : Float
  pub altitude : Float

-- `"key":`, the value, and what follows
abbrev value_of : List ℕ → List ℕ → List ℕ → List ℕ
value_of key value rest = b'"' ∷ (key ++ (b'"' ∷ b':' ∷ (value ++ rest)))

abbrev quoted : List ℕ → List ℕ
quoted text = b'"' ∷ (text ++ b'"' ∷ [])

-- `"key":value,`
abbrev number_of : List ℕ → List ℕ → List ℕ → List ℕ
number_of key value rest = value_of key value (b',' ∷ rest)

-- `"key":"value",`
abbrev text_of : List ℕ → List ℕ → List ℕ → List ℕ
text_of key text rest = number_of key (quoted text) rest

module _ {Float : Type 0} (show_6 show_2 : Float → List ℕ) where
  -- The last fields of both messages
  unfoldable pub motion_fields : Recepted Float → List ℕ
  motion_fields r = number_of (codes "BSTA") (show_ℤ (pos r.battery_charge_status)) (
      number_of (codes "BLVL") (show_ℤ (pos r.charge_level)) (
        number_of (codes "SIMU") (show_ℤ (pos r.imu_status)) (
          number_of (codes "AX") (show_2 r.ax) (
            number_of (codes "AY") (show_2 r.ay) (
              number_of (codes "AZ") (show_2 r.az) (
                number_of (codes "YAW") (show_2 r.yaw) (
                  number_of (codes "ROLL") (show_2 r.roll)
                    (value_of (codes "PTCH") (show_2 r.pitch) []))))))))

  -- The first fields of both messages
  unfoldable pub head_fields : List ℕ → ℤ → Recepted Float → List ℕ → List ℕ
  head_fields type rssi r rest = text_of (codes "Type") type (
      number_of (codes "IMEI") (show_ℤ r.imei)
        (number_of (codes "RSSI") (show_ℤ rssi) (text_of (codes "EVNT") r.tracker_event rest)))

  -- The `snprintf` of `formatLORALORAMessage`: the position is that of the gateway.
  unfoldable pub loralora_payload : ℤ → GatewayGnss Float → Recepted Float → List ℕ
  loralora_payload rssi gnss r = take (size_of_message_buffer - 1) (
      head_fields (codes "LORALORA") rssi r (
        number_of (codes "LAT") (show_6 gnss.latitude) (
          number_of (codes "LONG") (show_6 gnss.longitude) (
            number_of (codes "ALT") (show_2 gnss.altitude)
              (text_of (codes "TIME") r.imu_timestamp (motion_fields r))))))

  -- The `snprintf` of `formatLORAGNSSMessage`: the position is that of the tracker.
  unfoldable pub loragnss_payload : ℤ → Recepted Float → List ℕ
  loragnss_payload rssi r = take (size_of_message_buffer - 1) (
      head_fields (codes "LORAGNSS") rssi r (
        number_of (codes "LAT") (show_6 r.latitude) (
          number_of (codes "LONG") (show_6 r.longitude) (
            number_of (codes "HDOP") (show_2 r.hdop) (
              number_of (codes "ALT") (show_2 r.altitude) (
                number_of (codes "COG") (show_2 r.cog) (
                  number_of (codes "SPD") (show_2 r.spkm)
                    (text_of (codes "TIME") r.gnss_timestamp (motion_fields r)))))))))

  module _ (encode_jwt : List ℕ → List ℕ) (v : Services) (seconds : ℕ) where
    -- What both do with the text: the message, and the gateway.
    unfoldable pub finish_format : List ℕ → Chain → List ℕ × Chain
    finish_format payload g =
        let (sealed, g') = add_meta_data v seconds payload g in
        (encode_jwt sealed ++ b'\n' ∷ [], g')

    -- `formatLORALORAMessage`
    unfoldable pub format_loralora_message :
        ℤ → GatewayGnss Float → Recepted Float → Chain → List ℕ × Chain
    format_loralora_message rssi gnss r = finish_format (loralora_payload rssi gnss r)

    -- `formatLORAGNSSMessage`
    unfoldable pub format_loragnss_message : ℤ → Recepted Float → Chain → List ℕ × Chain
    format_loragnss_message rssi r = finish_format (loragnss_payload rssi r)
