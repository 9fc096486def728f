-- ===== src/Transceiver/Exchange.antt =====
-- Modules/CellularModule: `exchangeMessages` of the module and of the state that it is in.
use gateway_lo_ra.Prelude.{ℕ, ◌+◌, Bool, true, List, leb, if◌then◌else◌}
use gateway_lo_ra.Power.State.{Inputs}
use gateway_lo_ra.Cellular.Module
use gateway_lo_ra.Transceiver.State.{
  TransceiverStatus, unavaible, trynig_to_send, fail_to_activate_pdp, error_null_pointer,
  assing_pdpcontext_to_http_stack, Stepping, TransceiverState, transceiver_unavailable,
  configure_pdp_for_http, configure_ssl, post_http, deactivate_pdp, CellularModule, fresh,
  fresh_deactivate, change_transceiver_state, read_refresh, write_refresh,
}
use gateway_lo_ra.Transceiver.Configure.{
  Outcome, done, waits, attempt_pdp, attempt_ssl, attempt_deactivate,
}
use gateway_lo_ra.Transceiver.Post.{attempt_post}

-- `MAXATTEMPTS`, and that of PostHTTP.cpp
abbrev pub max_attempts : ℕ
max_attempts = 20

abbrev pub max_post_attempts : ℕ
max_post_attempts = 5

-- `exchangeMessages` of the state up to the poll of `refreshTime`. Only the state that is
-- unavailable does not look at the pointers that it is given.
unfoldable pub attempt : Inputs → Bool → List ℕ → CellularModule → Outcome
attempt i is_null message c = elim c.transceiver [
  | transceiver_unavailable ↦ done unavaible c
  | configure_pdp_for_http s ↦ if is_null then done error_null_pointer c else attempt_pdp i s c
  | configure_ssl s ↦ if is_null then done error_null_pointer c else attempt_ssl i s c
  | post_http s ↦ if is_null then done error_null_pointer c else attempt_post i message s c
  | deactivate_pdp s ↦ if is_null then done error_null_pointer c else attempt_deactivate s c
]

-- The end of `ConfigurePDPForHTTP` and `ConfigureSSL`, where the delay is over.
unfoldable pub retry_configure :
    {S : Type 0}
    → (Stepping S → TransceiverState)
    → Stepping S
    → CellularModule
    → TransceiverStatus × CellularModule
retry_configure keep s c =
    if leb max_attempts (s.attempts + 1)
    then (
      fail_to_activate_pdp,
      change_transceiver_state (keep (record s { ready_to_send = true; attempts = 0 })) c,
    )
    else (
      trynig_to_send,
      change_transceiver_state (keep (record s { ready_to_send = true; attempts = s.attempts + 1 }))
          c,
    )

-- The end of `PostHTTP`: the last attempt gives up, and claims a success where the server's answer
-- had been announced.
unfoldable pub retry_post :
    {S : Type 0}
    → (Stepping S → TransceiverState)
    → Stepping S
    → CellularModule
    → TransceiverStatus × CellularModule
retry_post keep s c =
    let c' = write_refresh 10000 c in
    if leb max_post_attempts (s.attempts + 1)
    then (
      trynig_to_send,
      change_transceiver_state (fresh_deactivate c.posting.wating_for_response) c',
    )
    else (
      trynig_to_send,
      change_transceiver_state (keep (record s { ready_to_send = true; attempts = s.attempts + 1 }))
          c',
    )

-- What the expired delay does in the state.
unfoldable pub retry : CellularModule → TransceiverStatus × CellularModule
retry c = elim c.transceiver [
  | transceiver_unavailable ↦ (unavaible, c)
  | configure_pdp_for_http s ↦ retry_configure configure_pdp_for_http s c
  | configure_ssl s ↦ retry_configure configure_ssl s c
  | post_http s ↦ retry_post post_http s c
  | deactivate_pdp s ↦ (
    trynig_to_send,
    change_transceiver_state (deactivate_pdp (record s { ready_to_send = true })) c,
  )
]

-- `if (refreshTime->read ())`, and `return CELLULAR_TRANSCEIVER_STATUS_TRYNING_TO_SEND`
unfoldable pub expire : Inputs → CellularModule → TransceiverStatus × CellularModule
expire i c = let (over, c') = read_refresh i c in if over then retry c' else (trynig_to_send, c')

-- What is left of the state's `exchangeMessages` behind an attempt.
unfoldable pub finish : Inputs → Outcome → TransceiverStatus × CellularModule
finish i (done status c) = (status, c)
finish i (waits c) = expire i c

-- Both of the module's states go back to unavailable.
unfoldable pub reset_states : CellularModule → CellularModule
reset_states c = record c {
  base = Module.change_connection_state Module.unavailable c.base;
  transceiver = transceiver_unavailable;
}

-- The module's part of `exchangeMessages`: a status that ends the exchange resets the module.
unfoldable pub settle : TransceiverStatus → CellularModule → CellularModule
settle trynig_to_send c = c
settle unavaible c = c
settle _ c = reset_states c

-- `CellularModule::exchangeMessages`
unfoldable pub exchange_messages :
    Inputs → Bool → List ℕ → CellularModule → TransceiverStatus × CellularModule
exchange_messages i is_null message c =
    let (status, c') = finish i (attempt i is_null message c) in (status, settle status c')

-- `enableTransceiver`: only `TransceiverUnavailable` does something.
unfoldable pub enable_transceiver : CellularModule → CellularModule
enable_transceiver c = elim c.transceiver [
  | transceiver_unavailable ↦
      change_transceiver_state (configure_pdp_for_http (fresh assing_pdpcontext_to_http_stack)) c
  | _ ↦ c
]
