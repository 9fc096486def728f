-- ===== src/Exchanging/State.antt =====
-- Modules/Gateway/GatewayState/ExchangingMessages: `exchangeMessages`, on the cellular module.
use gateway_lo_ra.Prelude.{ℕ, ◌+◌, Bool, true, false, List, Option, none, some, if◌then◌else◌}
use gateway_lo_ra.Power.State.{Inputs}
use gateway_lo_ra.Transceiver.State.{
  TransceiverStatus, unavaible, trynig_to_send, send_ok, CellularModule,
}
use gateway_lo_ra.Transceiver.Exchange.{exchange_messages, enable_transceiver}
use gateway_lo_ra.Exchanging.Answer.{ServerAnswer, corrupted, read_answer}

-- The gateway in this state. The message and the received message are one buffer of `update`, and
-- `newDataAvailable` is the variable that the module is given, so both stand in `cellular`;
-- `is_enabled` is the static `enableTransceiver`. `is_over` tells that the state was changed to
-- `SensingBatteryStatus`.
pub record Exchanging : Type 0 where
  pub cellular : CellularModule
  pub is_enabled : Bool
  pub sequence_message_number : ℕ
  pub prev_chain_hash : List ℕ
  pub curr_chain_hash : List ℕ
  pub is_over : Bool

-- `newDataAvailable = false; enableTransceiver = false; changeState (new SensingBatteryStatus)`
unfoldable pub leave : Exchanging → Exchanging
leave x = record x {
  cellular = record (x.cellular) { new_data_available = false };
  is_enabled = false;
  is_over = true;
}

-- `progressOnHashChain ()` and `increaseSequenceNumber ()`
unfoldable pub progress : Exchanging → Exchanging
progress x = record x {
  prev_chain_hash = x.curr_chain_hash;
  sequence_message_number = x.sequence_message_number + 1;
}

-- The effects of an answer: all but a corrupted one move the chain on.
unfoldable pub answer : ServerAnswer → Exchanging → Exchanging
answer corrupted x = leave x
answer _ x = leave (progress x)

-- The new data of the server: `payload` is what `decodeJWT` made of them.
unfoldable pub receive_answer : Option (List ℕ) → Exchanging → Exchanging
receive_answer none x = leave x
receive_answer (some payload) x =
    answer (read_answer payload)
      (record x { cellular = record (x.cellular) { received_message = payload } })

-- What `exchangeMessages` does with the status of the module.
unfoldable pub react : (List ℕ → Option (List ℕ)) → TransceiverStatus → Exchanging → Exchanging
react decode_jwt send_ok x =
    if x.cellular.new_data_available
    then receive_answer (decode_jwt x.cellular.received_message) x
    else leave x
react decode_jwt trynig_to_send x = x
react decode_jwt unavaible x = x
react decode_jwt _ x = leave x

-- `ExchangingMessages::exchangeMessages`; `decode_jwt` is `JWTManager::decodeJWT`.
unfoldable pub exchange : (List ℕ → Option (List ℕ)) → Inputs → Exchanging → Exchanging
exchange decode_jwt i x =
    let c = if x.is_enabled then x.cellular else enable_transceiver x.cellular in
    let (status, c') = exchange_messages i false c.received_message c in
    react decode_jwt status (record x { cellular = c'; is_enabled = true })
