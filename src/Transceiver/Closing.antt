-- ===== src/Transceiver/Closing.antt =====
-- How long Modules/CellularModule/TransceiverState tries to configure the modem and to post.
use gateway_lo_ra.Prelude.{
  ℕ, ◌+◌, ◌-◌, ◌≤◌, ◌≡◌, refl, Bool, true, false, List, [], ◌∷◌, arith, if◌then◌else◌,
}
use gateway_lo_ra.Power.State.{Inputs}
use gateway_lo_ra.Cellular.Bounded.{Poll}
use gateway_lo_ra.Cellular.Bounded
use gateway_lo_ra.Transceiver.State.{
  TransceiverStatus, unavaible, trynig_to_send, PdpStep, SslStep, PostStep, setting_url,
  posting_data, reading_data, decoding_data, Stepping, TransceiverState, transceiver_unavailable,
  configure_pdp_for_http, configure_ssl, post_http, deactivate_pdp, CellularModule,
  change_transceiver_state, read_refresh, send, restart_refresh, start_refresh, write_refresh,
}
use gateway_lo_ra.Transceiver.Configure.{
  Outcome, done, waits, attempt_pdp, attempt_ssl, attempt_query, attempt_dns, attempt_ping,
  expect_ok,
}
use gateway_lo_ra.Transceiver.Post.{
  attempt_post, attempt_set_url, attempt_posting, attempt_result, attempt_reading, answer_posting,
  answer_message, answer_reading,
}
use gateway_lo_ra.Transceiver.Exchange.{
  attempt, retry, retry_configure, retry_post, expire, finish, settle, reset_states,
  exchange_messages,
}

-- Whether a step of `PostHTTP` waits for an answer.
abbrev pub is_asking : PostStep → Bool
is_asking decoding_data = false
is_asking _ = true

-- Whether the state may still give up for want of an answer: it is configuring or posting, and has
-- not read the server's answer yet.
abbrev pub is_open : TransceiverState → Bool
is_open (configure_pdp_for_http s) = true
is_open (configure_ssl s) = true
is_open (post_http s) = is_asking s.current_status
is_open transceiver_unavailable = false
is_open (deactivate_pdp s) = false

abbrev post_budget : PostStep → ℕ → ℕ
post_budget setting_url attempts = 4 - attempts + 11
post_budget posting_data attempts = 4 - attempts + 6
post_budget reading_data attempts = 4 - attempts + 1
post_budget decoding_data attempts = 0

-- The delays that may still expire while the state is open.
abbrev pub budget : TransceiverState → ℕ
budget transceiver_unavailable = 0
budget (configure_pdp_for_http s) = 19 - s.attempts + 36
budget (configure_ssl s) = 19 - s.attempts + 16
budget (post_http s) = post_budget s.current_status s.attempts
budget (deactivate_pdp s) = 0

-- What is left of it behind an attempt.
abbrev left : Outcome → ℕ
left (done trynig_to_send c) = budget c.transceiver
left (done unavaible c) = budget c.transceiver
left (done _ c) = 0
left (waits c) = budget c.transceiver

-- An attempt that ends in the poll leaves the state open.
abbrev stays_open : Outcome → Bool
stays_open (done status c) = true
stays_open (waits c) = is_open c.transceiver

-- What the budget of a state is about.
abbrev IsWithin : ℕ → Outcome → Type 0
IsWithin b o = (left o ≤ b) × (stays_open o ≡ true)

pdp_left :
    (i : Inputs) (s : Stepping PdpStep) (c : CellularModule)
    → IsWithin (budget (configure_pdp_for_http s)) (attempt_pdp i s c)
unfolding attempt_pdp expect_ok attempt_query attempt_dns attempt_ping change_transceiver_state
pdp_left i s c = ground arith

ssl_left :
    (i : Inputs) (s : Stepping SslStep) (c : CellularModule)
    → IsWithin (budget (configure_ssl s)) (attempt_ssl i s c)
unfolding attempt_ssl expect_ok change_transceiver_state
ssl_left i s c = ground arith

url_left :
    (i : Inputs) (s : Stepping PostStep) (c : CellularModule)
    → s.current_status ≡ setting_url
    → IsWithin (budget (post_http s)) (attempt_set_url i s c)
unfolding attempt_set_url change_transceiver_state
url_left i s c h = ground arith

posting_left :
    (i : Inputs) (message : List ℕ) (s : Stepping PostStep) (c : CellularModule)
    → s.current_status ≡ posting_data
    → IsWithin (budget (post_http s)) (attempt_posting i message s c)
unfolding attempt_posting answer_posting attempt_result change_transceiver_state restart_refresh
    send
posting_left i message s c h = ground arith

reading_left :
    (i : Inputs) (s : Stepping PostStep) (c : CellularModule)
    → s.current_status ≡ reading_data
    → IsWithin (budget (post_http s)) (attempt_reading i s c)
unfolding attempt_reading answer_reading answer_message change_transceiver_state restart_refresh
    start_refresh write_refresh
reading_left i s c h = ground arith

post_left :
    (i : Inputs) (message : List ℕ) (s : Stepping PostStep) (step : PostStep) (c : CellularModule)
    → s.current_status ≡ step
    → is_asking step ≡ true
    → IsWithin (budget (post_http s)) (attempt_post i message s c)
unfolding attempt_post
post_left i message s setting_url c e h = ground (arith, url_left i s c)
post_left i message s posting_data c e h = ground (arith, posting_left i message s c)
post_left i message s reading_data c e h = ground (arith, reading_left i s c)
post_left i message s decoding_data c e h = ground arith

left-attempt :
    (i : Inputs) (is_null : Bool) (message : List ℕ) (c : CellularModule) (t : TransceiverState)
    → c.transceiver ≡ t
    → is_open t ≡ true
    → IsWithin (budget t) (attempt i is_null message c)
unfolding attempt
left-attempt i is_null message c transceiver_unavailable e h = ground arith
left-attempt i is_null message c (configure_pdp_for_http s) e h = ground (arith, pdp_left i s c)
left-attempt i is_null message c (configure_ssl s) e h = ground (arith, ssl_left i s c)
left-attempt i is_null message c (post_http s) e h =
    ground (arith, post_left i message s s.current_status c refl)
left-attempt i is_null message c (deactivate_pdp s) e h = ground arith

-- Whether the poll at the end of a call finds the delay over.
abbrev over : Inputs → Outcome → ℕ
over i (done status c) = 0
over i (waits c) = if (read_refresh i c).0 then 1 else 0

retry-left :
    (c : CellularModule) (t : TransceiverState)
    → c.transceiver ≡ t
    → is_open t ≡ true
    → 1 + left (done (retry c).0 (retry c).1) ≤ budget t
unfolding retry retry_configure retry_post change_transceiver_state
retry-left c transceiver_unavailable e h = ground arith
retry-left c (configure_pdp_for_http s) e h = ground arith
retry-left c (configure_ssl s) e h = ground arith
retry-left c (post_http s) e h = ground arith
retry-left c (deactivate_pdp s) e h = ground arith

left-finish :
    (i : Inputs) (o : Outcome)
    → stays_open o ≡ true
    → over i o + left (done (finish i o).0 (finish i o).1) ≤ left o
unfolding finish expire read_refresh
left-finish i (done status c) h = ground arith
left-finish i (waits c) h = ground (arith, retry-left (read_refresh i c).1 c.transceiver refl)

budget-settle :
    (status : TransceiverStatus) (c : CellularModule)
    → budget (settle status c).transceiver ≡ left (done status c)
unfolding settle reset_states
budget-settle status c = ground arith

-- One call spends what its expired delay takes.
exchange_left :
    (i : Inputs) (is_null : Bool) (message : List ℕ) (c : CellularModule)
    → is_open c.transceiver ≡ true
    → over i (attempt i is_null message c)
        + budget (exchange_messages i is_null message c).1.transceiver
      ≤ budget c.transceiver
unfolding exchange_messages
exchange_left i is_null message c h =
    let o : Outcome = attempt i is_null message c in
    let within = left-attempt i is_null message c c.transceiver refl h in
    ground (arith, left-finish i o within.1, within.0, budget-settle (finish i o).0 (finish i o).1)

unfoldable pub deliver : List ℕ → CellularModule → CellularModule
deliver bytes c = record c { base = Bounded.deliver bytes c.base }

-- The caller's loop, for as long as the state is open.
unfoldable pub exchange_polls : List ℕ → List Poll → CellularModule → CellularModule
exchange_polls message [] c = c
exchange_polls message ((i, bytes) ∷ ps) c =
    let rest = exchange_polls message ps (exchange_messages i false message (deliver bytes c)).1 in
    if is_open c.transceiver then rest else c

-- How many of these polls found the delay over.
unfoldable pub timeouts : List ℕ → List Poll → CellularModule → ℕ
timeouts message [] c = 0
timeouts message ((i, bytes) ∷ ps) c =
    let rest = timeouts message ps (exchange_messages i false message (deliver bytes c)).1 in
    if is_open c.transceiver then over i (attempt i false message (deliver bytes c)) + rest else 0

polls_left :
    (message : List ℕ) (ps : List Poll) (c : CellularModule)
    → timeouts message ps c + budget (exchange_polls message ps c).transceiver
      ≤ budget c.transceiver
unfolding exchange_polls timeouts deliver
polls_left message [] c = omega arith
polls_left message ((i, bytes) ∷ ps) c = ground (
  arith,
  exchange_left i false message (deliver bytes c),
  polls_left message ps (exchange_messages i false message (deliver bytes c)).1,
)

open_budget : (t : TransceiverState) → is_open t ≡ true → 1 ≤ budget t
open_budget transceiver_unavailable h = ground arith
open_budget (configure_pdp_for_http s) h = ground arith
open_budget (configure_ssl s) h = ground arith
open_budget (post_http s) h = ground arith
open_budget (deactivate_pdp s) h = ground arith

budget_bound : (t : TransceiverState) → budget t ≤ 55
budget_bound transceiver_unavailable = ground arith
budget_bound (configure_pdp_for_http s) = ground arith
budget_bound (configure_ssl s) = ground arith
budget_bound (post_http s) = ground arith
budget_bound (deactivate_pdp s) = ground arith

-- Configuring the modem and posting a message come to an end, whatever the modem sends or fails to
-- send between the polls: when the delay was over at as many polls as the budget of the state where
-- they began, the transceiver is unavailable again, has read the server's answer, or is
-- deactivating the context. The budget counts the attempts that are left, and is 55 at most.
pub exchange_polls-closes :
    (message : List ℕ) (ps : List Poll) (c : CellularModule)
    → budget c.transceiver ≤ timeouts message ps c
    → (is_open (exchange_polls message ps c).transceiver ≡ false) × (budget c.transceiver ≤ 55)
exchange_polls-closes message ps c h = (
  ground (arith, polls_left message ps c, open_budget (exchange_polls message ps c).transceiver),
  budget_bound c.transceiver,
)
