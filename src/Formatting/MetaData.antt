-- ===== src/Formatting/MetaData.antt =====
-- Modules/Gateway/GatewayState/FormattingMessage: `addMetaData`, with `hash_and_base64` and
-- `epochToTimestamp` of Modules/timeStampTools. SHA-256 and Base64 of mbedtls and `localtime` are
-- parameters. The strings fit in the buffers that they are copied to with `strcpy`.
use gateway_lo_ra.Prelude.{
  ℕ, ◌+◌, ◌-◌, ◌*◌, ◌%◌, Bool, false, List, [], ◌∷◌, ◌++◌, codes, take, drop, length, ltb, ◌==◌,
  ◌&&◌, if◌then◌else◌, ℤ,
}
use gateway_lo_ra.Gateway.Show.{show_ℕ, show_ℤ}
use gateway_lo_ra.Ethernet.Sending.{
  GatewayStatus, loralora_trying_mobile_network, loragnss_trying_mobile_network,
}

-- `struct tm`
pub record Tm : Type 0 where
  pub tm_mday : ℕ
  pub tm_mon : ℕ
  pub tm_year : ℕ
  pub tm_hour : ℕ
  pub tm_min : ℕ
  pub tm_sec : ℕ

-- What the function calls: SHA-256, Base64, and `localtime`; and the bytes of a new buffer.
pub record Services : Type 0 where
  pub sha256 : List ℕ → List ℕ
  pub base64 : List ℕ → List ℕ
  pub localtime : ℕ → Tm
  pub new_buffer : List ℕ

-- The fields of the gateway, and the status of the message.
pub record Chain : Type 0 where
  pub current_status : GatewayStatus
  pub device_identifier : List ℕ
  pub url : List ℕ
  pub secondary_url : List ℕ
  pub sequence_message_number : ℤ
  pub prev_chain_hash : List ℕ
  pub curr_chain_hash : List ℕ

-- `sizeOfMessageBuffer`, `sizeOfHash` and `sizeOfTimeStamp`
abbrev pub size_of_message_buffer : ℕ
size_of_message_buffer = 2500

abbrev pub size_of_hash : ℕ
size_of_hash = 100

abbrev pub size_of_time_stamp : ℕ
size_of_time_stamp = 20

-- "%02d"
abbrev two_digits : ℕ → List ℕ
two_digits n = if ltb n 10 then b'0' ∷ show_ℕ n else show_ℕ n

-- `epochToTimestamp`
unfoldable pub epoch_to_timestamp : Services → ℕ → ℕ → List ℕ
epoch_to_timestamp v seconds len =
    let t : Tm = v.localtime seconds in
    take (len - 1) (
      two_digits t.tm_mday
      ++ (two_digits (t.tm_mon + 1)
          ++ (two_digits (t.tm_year % 100)
              ++ (two_digits t.tm_hour ++ (two_digits t.tm_min ++ two_digits t.tm_sec)))))

-- `hash_and_base64`: what the buffer holds afterwards; the callers do not read the result.
unfoldable pub hash_and_base64 : Services → List ℕ → ℕ → List ℕ
hash_and_base64 v input output_size =
    let encoded = v.base64 (v.sha256 input) in
    if ltb (length encoded) output_size then encoded else v.new_buffer

-- The channel of the way that the message goes.
unfoldable pub url_path_channel : Chain → List ℕ
url_path_channel g = elim g.current_status [
  | loralora_trying_mobile_network ↦ g.url
  | loragnss_trying_mobile_network ↦ g.url
  | _ ↦ g.secondary_url
]

-- "Armar JSON intermedio": a key with its text, and the comma behind it.
abbrev field : List ℕ → List ℕ → List ℕ → List ℕ
field key value rest = b'"' ∷ (key ++ (b'"' ∷ b':' ∷ b'"' ∷ (value ++ (b'"' ∷ b',' ∷ rest))))

-- The fields of the intermediate JSON, and the message behind them.
unfoldable pub json_fields : Services → ℕ → List ℕ → Chain → List ℕ
json_fields v seconds message g =
    let expires = seconds + 24 * 60 * 60 in
    field (codes "iss") g.device_identifier (
      field (codes "aud") (url_path_channel g) (
        field (codes "ias") (epoch_to_timestamp v seconds size_of_time_stamp) (
          field (codes "exp") (epoch_to_timestamp v expires size_of_time_stamp) (
            field (codes "d") (hash_and_base64 v message size_of_hash) (
              b'"'
              ∷ (codes "seq"
                  ++ (b'"'
                      ∷ b':'
                      ∷ (show_ℤ g.sequence_message_number
                          ++ (b',' ∷ field (codes "prev") g.prev_chain_hash message)))))))))

-- `workBuffer`
unfoldable pub work_buffer : Services → ℕ → List ℕ → Chain → List ℕ
work_buffer v seconds message g =
    take (size_of_message_buffer - 1) (b'{' ∷ (json_fields v seconds message g ++ b'}' ∷ []))

abbrev pub is_text : ℕ → List ℕ → Bool
is_text c [] = false
is_text c (d ∷ ds) = c == d

-- "Quitar llaves externas"
unfoldable pub without_braces : List ℕ → List ℕ
without_braces work =
    let len = length work in
    if ltb 2 len && (is_text b'{' work && is_text b'}' (drop (len - 1) work))
    then take (len - 2) (drop 1 work)
    else work

-- "{\"curr\":\"%s\",%s}"
unfoldable pub whole_message : List ℕ → List ℕ → List ℕ
whole_message hash work =
    b'{'
    ∷ b'"'
    ∷ (codes "curr" ++ (b'"' ∷ b':' ∷ b'"' ∷ (hash ++ (b'"' ∷ b',' ∷ (work ++ b'}' ∷ [])))))

-- `addMetaData`: the message, and the gateway.
unfoldable pub add_meta_data : Services → ℕ → List ℕ → Chain → List ℕ × Chain
add_meta_data v seconds message g =
    let work = work_buffer v seconds message g in
    let hash = hash_and_base64 v work size_of_hash in
    (
      take (size_of_message_buffer - 1) (whole_message hash (without_braces work)),
      record g { curr_chain_hash = hash },
    )
