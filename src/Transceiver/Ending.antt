-- ===== src/Transceiver/Ending.antt =====
-- How an exchange of Modules/CellularModule/TransceiverState ends: with `DeactivatePDP`.
use gateway_lo_ra.Prelude.{
  ℕ, ◌++◌, length, c_string, eq_bytes, ◌≤◌, ◌≡◌, refl, Bool, true, false, List, [], ◌∷◌, is_empty,
  Option, none, some, arith, codes, if◌then◌else◌,
}
use gateway_lo_ra.AtHandler.{
  is_terminator, send_at_command, read_at_response_sized, read_byte_sized, read_if_readable,
}
use gateway_lo_ra.Power.State.{Inputs}
use gateway_lo_ra.Cellular.Module
use gateway_lo_ra.Cellular.Module.{ConnectionState, unavailable}
use gateway_lo_ra.Transceiver.State.{
  TransceiverStatus, trynig_to_send, send_ok, unavaible_to_send, Deactivating, TransceiverState,
  transceiver_unavailable, configure_pdp_for_http, configure_ssl, post_http, deactivate_pdp,
  CellularModule, change_transceiver_state, read_refresh, send_if, send, receive,
}
use gateway_lo_ra.Transceiver.Configure.{Outcome, done, waits, attempt_deactivate}
use gateway_lo_ra.Transceiver.Exchange.{
  attempt, retry, expire, finish, settle, reset_states, exchange_messages,
}

-- The calls of a caller that goes on as long as the status is that of a try.
unfoldable pub exchange_calls :
    List ℕ → List Inputs → CellularModule → TransceiverStatus × CellularModule
exchange_calls message [] c = (trynig_to_send, c)
exchange_calls message (i ∷ is) c =
    let r = exchange_messages i false message c in
    let rest = exchange_calls message is r.1 in elim r.0 [ trynig_to_send ↦ rest | _ ↦ r ]

-- Whether the module is deactivating the context, with the flag that it keeps there.
abbrev pub deactivating : TransceiverState → Option Bool
deactivating (deactivate_pdp s) = some s.transmission_was_a_success
deactivating _ = none

-- The same, where the modem has sent nothing that is unread.
abbrev pub silent : CellularModule → Option Bool
silent c = if is_empty c.base.power.handler.rx then deactivating c.transceiver else none

abbrev silent_wait : Outcome → Option Bool
silent_wait (done status c) = none
silent_wait (waits c) = silent c

silent_attempt :
    (s : Deactivating) (c : CellularModule)
    → is_empty c.base.power.handler.rx ≡ true
    → silent_wait (attempt_deactivate s c) ≡ some s.transmission_was_a_success
unfolding attempt_deactivate send_if send receive Module.send change_transceiver_state
    read_at_response_sized read_if_readable send_at_command
silent_attempt s c h = ground arith

silent-finish :
    (i : Inputs) (o : Outcome) (success : Bool)
    → silent_wait o ≡ some success
    → ((finish i o).0 ≡ trynig_to_send) × (silent (finish i o).1 ≡ some success)
unfolding finish expire retry read_refresh Module.read_refresh change_transceiver_state
silent-finish i (done status c) success h = ground arith
silent-finish i (waits c) success h = ground arith

pub silent_call :
    (i : Inputs) (message : List ℕ) (success : Bool) (c : CellularModule) (t : TransceiverState)
    → c.transceiver ≡ t
    → silent c ≡ some success
    → ((exchange_messages i false message c).0 ≡ trynig_to_send)
      × (silent (exchange_messages i false message c).1 ≡ some success)
unfolding exchange_messages attempt settle
silent_call i message success c (deactivate_pdp s) e h =
    ground (arith, silent_attempt s c, silent-finish i (attempt_deactivate s c) success)
silent_call i message success c transceiver_unavailable e h = ground arith
silent_call i message success c (configure_pdp_for_http s) e h = ground arith
silent_call i message success c (configure_ssl s) e h = ground arith
silent_call i message success c (post_http s) e h = ground arith

-- A modem that has gone silent keeps the exchange from ending: a module that is deactivating the
-- context, with nothing unread, is still trying after any number of calls at any ticks, and it is
-- still deactivating. Nothing counts its attempts.
pub exchange_calls-never_end :
    (message : List ℕ) (is : List Inputs) (success : Bool) (c : CellularModule)
    → silent c ≡ some success
    → ((exchange_calls message is c).0 ≡ trynig_to_send)
      × (silent (exchange_calls message is c).1 ≡ some success)
unfolding exchange_calls
exchange_calls-never_end message [] success c h = (refl, h)
exchange_calls-never_end message (i ∷ is) success c h =
    let r = exchange_messages i false message c in
    ground (
      arith,
      silent_call i message success c c.transceiver refl h,
      exchange_calls-never_end message is success r.1,
    )

-- The module is deactivating the context, with this much of a line read, and these bytes unread.
abbrev pub IsReading : List ℕ → List ℕ → Bool → CellularModule → Type 0
IsReading line rx success c =
    (c.base.power.handler.buffer ≡ line)
    × (c.base.power.handler.rx ≡ rx)
    × (deactivating c.transceiver ≡ some success)

abbrev ReadsOn : List ℕ → List ℕ → Bool → Outcome → Type 0
ReadsOn line rx success (done status c) = true ≡ false
ReadsOn line rx success (waits c) = IsReading line rx success c

reading_attempt :
    (s : Deactivating) (x : ℕ) (line rx : List ℕ) (c : CellularModule)
    → c.base.power.handler.buffer ≡ line
    → c.base.power.handler.rx ≡ x ∷ rx
    → is_terminator x ≡ false
    → length line ≤ 100
    → ReadsOn (line ++ x ∷ []) rx s.transmission_was_a_success (attempt_deactivate s c)
unfolding attempt_deactivate send_if send receive Module.send change_transceiver_state
    read_at_response_sized read_if_readable read_byte_sized send_at_command
reading_attempt s x line rx c hb hr ht hl = ground arith

IsReading-finish :
    (i : Inputs) (o : Outcome) (line rx : List ℕ) (success : Bool)
    → ReadsOn line rx success o
    → ((finish i o).0 ≡ trynig_to_send) × IsReading line rx success (finish i o).1
unfolding finish expire retry read_refresh Module.read_refresh change_transceiver_state
IsReading-finish i (done status c) line rx success h = ground arith
IsReading-finish i (waits c) line rx success h = ground arith

pub IsReading-call :
    (i : Inputs) (message : List ℕ) (x : ℕ) (line rx : List ℕ) (success : Bool) (c : CellularModule)
    (t : TransceiverState)
    → c.transceiver ≡ t
    → IsReading line (x ∷ rx) success c
    → is_terminator x ≡ false
    → length line ≤ 100
    → ((exchange_messages i false message c).0 ≡ trynig_to_send)
      × IsReading (line ++ x ∷ []) rx success (exchange_messages i false message c).1
unfolding exchange_messages attempt settle
IsReading-call i message x line rx success c (deactivate_pdp s) e h ht hl = ground (
  arith,
  reading_attempt s x line rx c,
  IsReading-finish i (attempt_deactivate s c) (line ++ x ∷ []) rx success,
)
IsReading-call i message x line rx success c transceiver_unavailable e h ht hl = ground arith
IsReading-call i message x line rx success c (configure_pdp_for_http s) e h ht hl = ground arith
IsReading-call i message x line rx success c (configure_ssl s) e h ht hl = ground arith
IsReading-call i message x line rx success c (post_http s) e h ht hl = ground arith

-- The call that finds OK complete, and the byte that ends its line unread.
pub ending_call :
    (i : Inputs) (message rx : List ℕ) (success : Bool) (c : CellularModule) (t : TransceiverState)
    → c.transceiver ≡ t
    → IsReading (codes "OK") (b'\r' ∷ rx) success c
    → ((exchange_messages i false message c).0 ≡ (if success then send_ok else unavaible_to_send))
      × ((exchange_messages i false message c).1.transceiver ≡ transceiver_unavailable)
      × ((exchange_messages i false message c).1.base.connection ≡ unavailable)
unfolding exchange_messages attempt settle finish reset_states attempt_deactivate send_if send
    receive Module.send Module.change_connection_state change_transceiver_state
    read_at_response_sized read_if_readable read_byte_sized send_at_command eq_bytes c_string
ending_call i message rx success c (deactivate_pdp s) e h = ground arith
ending_call i message rx success c transceiver_unavailable e h = ground arith
ending_call i message rx success c (configure_pdp_for_http s) e h = ground arith
ending_call i message rx success c (configure_ssl s) e h = ground arith
ending_call i message rx success c (post_http s) e h = ground arith

-- A module that is deactivating the context, between two lines, ends the exchange at the third call
-- when the modem has sent OK, whatever the ticks of the calls: the status is the success or the
-- failure that the state was created with, and the transceiver and the connection are unavailable.
pub exchange_calls-end :
    (message rx : List ℕ) (i j k : Inputs) (success : Bool) (c : CellularModule)
    → IsReading [] (b'O' ∷ b'K' ∷ b'\r' ∷ rx) success c
    → ((exchange_calls message (i ∷ j ∷ k ∷ []) c).0
        ≡ (if success then send_ok else unavaible_to_send))
      × ((exchange_calls message (i ∷ j ∷ k ∷ []) c).1.transceiver ≡ transceiver_unavailable)
      × ((exchange_calls message (i ∷ j ∷ k ∷ []) c).1.base.connection ≡ unavailable)
unfolding exchange_calls
exchange_calls-end message rx i j k success c h =
    let c1 = (exchange_messages i false message c).1 in
    let c2 = (exchange_messages j false message c1).1 in
    ground (
      arith,
      IsReading-call i message b'O' [] (b'K' ∷ b'\r' ∷ rx) success c c.transceiver refl h refl,
      IsReading-call j message b'K' (b'O' ∷ []) (b'\r' ∷ rx) success c1 c1.transceiver refl,
      ending_call k message rx success c2 c2.transceiver refl,
    )
