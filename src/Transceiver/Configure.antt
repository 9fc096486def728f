-- ===== src/Transceiver/Configure.antt =====
-- Modules/CellularModule/TransceiverState: ConfigurePDPForHTTP, ConfigureSSL and DeactivatePDP. A
-- call is an attempt, which sends a command and reads a byte, and where that neither moves on nor
-- ends the call, the poll of the delay behind it.
use gateway_lo_ra.Prelude.{
  ℕ, Bool, true, false, List, [], ◌∷◌, ◌++◌, none, some, codes, if◌then◌else◌,
}
use gateway_lo_ra.Power.State.{Inputs, is_response}
use gateway_lo_ra.Transceiver.State.{
  TransceiverStatus, trynig_to_send, send_ok, unavaible_to_send, PdpStep,
  assing_pdpcontext_to_http_stack, configuring_pdp_profile, activating_pdp_context,
  quering_pdp_context, configuring_server_dns, ping_server_dns, SslStep, setting_ssl_context,
  setting_ssl_version, setting_ssl_cipher_suite, setting_ssl_level, setting_url, Stepping,
  Deactivating, TransceiverState, transceiver_unavailable, configure_pdp_for_http, configure_ssl,
  post_http, deactivate_pdp, CellularModule, fresh, change_transceiver_state, send, send_if,
  receive, start_refresh,
}

-- What an attempt comes to: a result of the call, or the poll at its end.
pub data Outcome : Type 0 where
  done : TransceiverStatus → CellularModule → Outcome
  waits : CellularModule → Outcome

-- `BUFFER_LEN`, and the expected response "OK"
abbrev pub buffer_len : ℕ
buffer_len = 128

abbrev pub ok_response : List ℕ
ok_response = codes "OK"

-- A text in quotation marks.
abbrev pub quoted : List ℕ → List ℕ
quoted text = 34 ∷ (text ++ 34 ∷ [])

-- `REFRESH_TIME_MS`
abbrev pub refresh_time_ms : ℕ
refresh_time_ms = 20000

-- The first command of a state, which also sets the delay.
unfoldable pub send_first : Inputs → Bool → List ℕ → CellularModule → CellularModule
send_first i ready command c = if ready then start_refresh i refresh_time_ms (send command c) else c

-- The state moves on to `next` at OK, and waits at any other line or none.
unfoldable pub expect_ok :
    {S : Type 0}
    → (Stepping S → TransceiverState)
    → Stepping S
    → TransceiverState
    → CellularModule
    → Outcome
expect_ok keep s next c =
    let (line, c') = receive buffer_len c in
    if is_response ok_response line
    then done trynig_to_send (change_transceiver_state next c')
    else waits (change_transceiver_state (keep (record s { ready_to_send = false })) c')

-- `this->currentStatus = step; this->readyToSend = true`
abbrev pub go_to :
    {S : Type 0} → (Stepping S → TransceiverState) → Stepping S → S → TransceiverState
go_to keep s step = keep (record s { ready_to_send = true; current_status = step })

-- The commands of `ConfigurePDPForHTTP`
abbrev pub pdp_command : PdpStep → List ℕ
pdp_command assing_pdpcontext_to_http_stack =
    codes "AT+QHTTPCFG=" ++ (quoted (codes "contextid") ++ codes ",1")
pdp_command configuring_pdp_profile =
    codes "AT+QICSGP=1,1,"
    ++ (quoted (codes "internet.movil")
        ++ (b','
            ∷ (quoted (codes "internet") ++ (b',' ∷ (quoted (codes "internet") ++ codes ",3")))))
pdp_command activating_pdp_context = codes "AT+QIACT=1"
pdp_command quering_pdp_context = codes "AT+QIACT?"
pdp_command configuring_server_dns =
    codes "AT+QIDNSCFG=1," ++ (quoted (codes "8.8.8.8") ++ b',' ∷ quoted (codes "8.8.4.4"))
pdp_command ping_server_dns =
    codes "AT+QIDNSGIP=1," ++ quoted (codes "intent-lion-loudly.ngrok-free.app")

-- QUERING_PDP_CONTEXT: any line moves on.
unfoldable pub attempt_query : Stepping PdpStep → CellularModule → Outcome
attempt_query s c =
    let (line, c') = receive buffer_len c in
    elim line [
      | none ↦ waits (
          change_transceiver_state (configure_pdp_for_http (record s { ready_to_send = false })) c')
      | some l ↦
          done trynig_to_send
            (change_transceiver_state (go_to configure_pdp_for_http s configuring_server_dns) c')
    ]

-- CONFIGURING_SERVER_DNS: a line that is not OK ends the call too, the delay not polled.
unfoldable pub attempt_dns : Stepping PdpStep → CellularModule → Outcome
attempt_dns s c =
    let (line, c') = receive buffer_len c in
    let kept =
      change_transceiver_state (configure_pdp_for_http (record s { ready_to_send = false })) c' in
    elim line [
      | none ↦ waits kept
      | some l ↦
          if is_response ok_response (some l)
          then done trynig_to_send
              (change_transceiver_state (configure_ssl (fresh setting_ssl_context)) c')
          else done trynig_to_send kept
    ]

-- PING_SERVER_DNS: OK makes it send again.
unfoldable pub attempt_ping : Stepping PdpStep → CellularModule → Outcome
attempt_ping s c =
    let (line, c') = receive buffer_len c in
    let kept =
      change_transceiver_state (configure_pdp_for_http (record s { ready_to_send = false })) c' in
    elim line [
      | none ↦ waits kept
      | some l ↦
          if is_response ok_response (some l)
          then done trynig_to_send (
              change_transceiver_state (configure_pdp_for_http (record s { ready_to_send = true }))
                c')
          else done trynig_to_send kept
    ]

-- `ConfigurePDPForHTTP::exchangeMessages`
unfoldable pub attempt_pdp : Inputs → Stepping PdpStep → CellularModule → Outcome
attempt_pdp i s c =
    let c1 = send_if s.ready_to_send (pdp_command s.current_status) c in
    elim s.current_status [
      | assing_pdpcontext_to_http_stack ↦
          expect_ok configure_pdp_for_http s
            (go_to configure_pdp_for_http s configuring_pdp_profile)
            (send_first i s.ready_to_send (pdp_command assing_pdpcontext_to_http_stack) c)
      | configuring_pdp_profile ↦
          expect_ok configure_pdp_for_http s (go_to configure_pdp_for_http s activating_pdp_context)
            c1
      | activating_pdp_context ↦
          expect_ok configure_pdp_for_http s (go_to configure_pdp_for_http s quering_pdp_context) c1
      | quering_pdp_context ↦ attempt_query s c1
      | configuring_server_dns ↦ attempt_dns s c1
      | ping_server_dns ↦ attempt_ping s c1
    ]

-- The commands of `ConfigureSSL`
abbrev pub ssl_command : SslStep → List ℕ
ssl_command setting_ssl_context = codes "AT+QHTTPCFG=" ++ (quoted (codes "sslctxid") ++ codes ",1")
ssl_command setting_ssl_version =
    codes "AT+QSSLCFG=" ++ (quoted (codes "sslversion") ++ codes ",1,1")
ssl_command setting_ssl_cipher_suite =
    codes "AT+QSSLCFG=" ++ (quoted (codes "ciphersuite") ++ codes ",1,0x0005")
ssl_command setting_ssl_level = codes "AT+QSSLCFG=" ++ (quoted (codes "seclevel") ++ codes ",1,0")

-- `ConfigureSSL::exchangeMessages`
unfoldable pub attempt_ssl : Inputs → Stepping SslStep → CellularModule → Outcome
attempt_ssl i s c =
    let c1 = send_if s.ready_to_send (ssl_command s.current_status) c in
    elim s.current_status [
      | setting_ssl_context ↦
          expect_ok configure_ssl s (go_to configure_ssl s setting_ssl_version)
            (send_first i s.ready_to_send (ssl_command setting_ssl_context) c)
      | setting_ssl_version ↦ expect_ok configure_ssl s (go_to configure_ssl s setting_ssl_level) c1
      | setting_ssl_cipher_suite ↦
          expect_ok configure_ssl s (go_to configure_ssl s setting_ssl_level) c1
      | setting_ssl_level ↦ expect_ok configure_ssl s (post_http (fresh setting_url)) c1
    ]

-- `DeactivatePDP::exchangeMessages`
unfoldable pub attempt_deactivate : Deactivating → CellularModule → Outcome
attempt_deactivate s c =
    let (line, c') = receive buffer_len (send_if s.ready_to_send (codes "AT+QIDEACT=1") c) in
    if is_response ok_response line
    then done (if s.transmission_was_a_success then send_ok else unavaible_to_send)
        (change_transceiver_state transceiver_unavailable c')
    else waits (change_transceiver_state (deactivate_pdp (record s { ready_to_send = false })) c')
