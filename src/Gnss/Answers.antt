-- ===== src/Gnss/Answers.antt =====
-- What Modules/GNSSModule makes of the modem's answers.
use gateway_lo_ra.Prelude.{
  ℕ, ◌≡◌, ◌≢◌, ◌↔◌, refl, Bool, true, false, List, Option, some, arith, codes, eq_bytes,
  eq_bytes_iff, if◌then◌else◌,
}
use gateway_lo_ra.Power.State.{Inputs}
use gateway_lo_ra.Gnss.State.{
  turning_on_gnss, turning_off_gnss, GnssModule, change_geopositioning_state, receive, read_refresh,
}
use gateway_lo_ra.Gnss.Retrieve.{
  send_if, is_ok_or_not, already_lock_response, session_not_active, answer_turning_on,
  answer_turning_off, retry, finish, attempt, retriv_geopositioning,
}
use gateway_lo_ra.Gnss.Graph.{phase, is_obtaining, is_turning_on, is_turning_off, is_unavailable}

-- The condition of the source holds of every line but the one that it names.
is_ok_or_not_iff :
    (response line : List ℕ)
    → eq_bytes (codes "OK") response ≡ false
    → (is_ok_or_not response line ≡ true) ↔ (line ≢ response)
unfolding is_ok_or_not
is_ok_or_not_iff response line h = grind (
  arith,
  eq_bytes_iff line response,
  eq_bytes_iff line (codes "OK"),
  eq_bytes_iff (codes "OK") response,
)

module _ {Float : Type 0} (scan_float : List ℕ → Option (Float × List ℕ)) where
  turning_on_moves :
      (i : Inputs) (g : GnssModule Float) (r : Bool) (line : List ℕ)
      → g.geopositioning ≡ turning_on_gnss r
      → (receive (send_if r (codes "AT+QGPS=1") g)).0 ≡ some line
      → phase (retriv_geopositioning scan_float i g).1.geopositioning
        ≡ (if is_ok_or_not already_lock_response line then is_obtaining else is_turning_on)
  unfolding retriv_geopositioning attempt answer_turning_on finish retry change_geopositioning_state
      read_refresh
  turning_on_moves i g r line e h = ground arith

  turning_off_moves :
      (i : Inputs) (g : GnssModule Float) (r : Bool) (line : List ℕ)
      → g.geopositioning ≡ turning_off_gnss r
      → (receive (send_if r (codes "AT+QGPS=0") g)).0 ≡ some line
      → phase (retriv_geopositioning scan_float i g).1.geopositioning
        ≡ (if is_ok_or_not session_not_active line then is_unavailable else is_turning_off)
  unfolding retriv_geopositioning attempt answer_turning_off finish retry
      change_geopositioning_state read_refresh
  turning_off_moves i g r line e h = ground arith

  -- A module that turns its receiver on, and reads a line, goes on to look for a position exactly
  -- when the line is not "+CME ERROR: 504", which is what a modem says whose receiver is on already.
  pub turning_on-line :
      (i : Inputs) (g : GnssModule Float) (r : Bool) (line : List ℕ)
      → g.geopositioning ≡ turning_on_gnss r
      → (receive (send_if r (codes "AT+QGPS=1") g)).0 ≡ some line
      → (line ≡ already_lock_response
          → phase (retriv_geopositioning scan_float i g).1.geopositioning ≡ is_turning_on)
        × (line ≢ already_lock_response
            → phase (retriv_geopositioning scan_float i g).1.geopositioning ≡ is_obtaining)
  unfolding eq_bytes
  turning_on-line i g r line e h =
      grind
        (arith, turning_on_moves i g r line e h, is_ok_or_not_iff already_lock_response line refl)

  -- A module that turns its receiver off, and reads a line, is done exactly when the line is not
  -- "+CME ERROR: 505", which is what a modem says whose receiver is off already.
  pub turning_off-line :
      (i : Inputs) (g : GnssModule Float) (r : Bool) (line : List ℕ)
      → g.geopositioning ≡ turning_off_gnss r
      → (receive (send_if r (codes "AT+QGPS=0") g)).0 ≡ some line
      → (line ≡ session_not_active
          → phase (retriv_geopositioning scan_float i g).1.geopositioning ≡ is_turning_off)
        × (line ≢ session_not_active
            → phase (retriv_geopositioning scan_float i g).1.geopositioning ≡ is_unavailable)
  unfolding eq_bytes
  turning_off-line i g r line e h =
      grind (arith, turning_off_moves i g r line e h, is_ok_or_not_iff session_not_active line refl)
