-- ===== src/Exchanging/Tests.antt =====
-- The theorems on the exchange with the server at concrete gateways.
use gateway_lo_ra.Prelude.{
  ℕ, ◌≡◌, ◌⊎◌, refl, true, false, List, [], ◌∷◌, Option, some, arith, codes, pos, starts_with,
}
use gateway_lo_ra.Transceiver.State.{TransceiverState, fresh_deactivate}
use gateway_lo_ra.Transceiver.Sample.{in_state, at_tick}
use gateway_lo_ra.Transceiver.Ending.{silent}
use gateway_lo_ra.Exchanging.Answer.{
  extract_field, key, very_low_latency, silent_operation_mode, silenced, read_answer, find_text,
  find_behind, skip_quotes, copy_value,
}
use gateway_lo_ra.Exchanging.Fields.{field, extract_field-field}
use gateway_lo_ra.Exchanging.ReadBack.{server_text, read_answer-server_text}
use gateway_lo_ra.Exchanging.State.{Exchanging, exchange}
use gateway_lo_ra.Exchanging.Progress.{
  IsKept, IsMovedOn, exchange-chain, exchanges, exchanges-never_over, IsEnded, exchanges-end,
}

read_answer-server_text_example :
    read_answer (server_text very_low_latency silent_operation_mode 12)
    ≡ silenced (some very_low_latency) (pos 12)
read_answer-server_text_example =
    read_answer-server_text very_low_latency silent_operation_mode 12 (omega arith)

-- {"MODE":"NOPM"}
abbrev mode_text : List ℕ
mode_text = b'{' ∷ field (codes "MODE") (codes "NOPM") (b'}' ∷ [])

extract_field-field_example : extract_field mode_text (key (codes "MODE")) 30 ≡ some (codes "NOPM")
unfolding starts_with
extract_field-field_example =
    extract_field-field (b'{' ∷ []) (codes "MODE") (codes "OPM") (b'}' ∷ []) b'N' 30 refl refl refl
      refl refl (omega arith)

-- A value that is cut to a buffer of three bytes.
cut_value : extract_field mode_text (key (codes "MODE")) 3 ≡ some (codes "NO")
unfolding extract_field find_text find_behind skip_quotes copy_value starts_with
cut_value = refl

-- A gateway whose transceiver is in this state, with these bytes unread.
abbrev exchanging : TransceiverState → List ℕ → Exchanging
exchanging t rx = record {
  cellular = in_state t rx [];
  is_enabled = true;
  sequence_message_number = 4;
  prev_chain_hash = codes "a";
  curr_chain_hash = codes "b";
  is_over = false;
}

abbrev decode_token : List ℕ → Option (List ℕ)
decode_token token = some token

exchange-chain_example :
    let x = exchanging (fresh_deactivate true) [] in
    IsKept x (exchange decode_token (at_tick 1) x)
    ⊎ IsMovedOn x (exchange decode_token (at_tick 1) x)
exchange-chain_example =
    exchange-chain decode_token (at_tick 1) (exchanging (fresh_deactivate true) [])

exchanges-never_over_example :
    let x =
      exchanges decode_token (at_tick 1 ∷ at_tick 2 ∷ []) (exchanging (fresh_deactivate true) []) in
    (x.is_over ≡ false) × (silent x.cellular ≡ some true)
exchanges-never_over_example =
    exchanges-never_over decode_token (at_tick 1 ∷ at_tick 2 ∷ []) true
      (exchanging (fresh_deactivate true) []) refl refl refl

exchanges-end_example : IsEnded (
    exchanges decode_token
      (at_tick 1 ∷ at_tick 2 ∷ at_tick 3 ∷ [])
      (exchanging (fresh_deactivate false) (b'O' ∷ b'K' ∷ b'\r' ∷ [])))
exchanges-end_example =
    exchanges-end decode_token (at_tick 1) (at_tick 2) (at_tick 3) [] false
      (exchanging (fresh_deactivate false) (b'O' ∷ b'K' ∷ b'\r' ∷ [])) refl refl (refl, refl, refl)
