-- ===== src/Gnss/Timestamp.antt =====
-- The position that Modules/GNSSModule/GeopositioningState/ObtainingPositionInformation hands over.
use gateway_lo_ra.Prelude.{
  ℕ, ◌≤◌, ◌≡◌, refl, Bool, true, false, List, Option, none, some, arith, codes, length,
  length-append, length-take, drop, length-scan_until, ℤ,
}
use gateway_lo_ra.Power.State.{Inputs}
use gateway_lo_ra.Gnss.State.{
  connection_obtain, GeopositioningState, gnss_unavailable, configurate_constellation,
  turning_on_gnss, obtaining_position_information, turning_off_gnss, GnssData, GnssModule,
  change_geopositioning_state, read_refresh, receive,
}
use gateway_lo_ra.Gnss.Position.{scan_position, scan_date, retriv_position_info}
use gateway_lo_ra.Gnss.Retrieve.{
  Outcome, done, waits, send_if, answer_constellation, answer_turning_on, answer_turning_off,
  answer_position, answer_obtaining, retry, status_so_far, finish, attempt, retriv_geopositioning,
}
use gateway_lo_ra.Gnss.Graph.{phase, is_turning_off}

-- Whether the state is the one that looks for a position.
abbrev pub is_looking : GeopositioningState → Bool
is_looking (obtaining_position_information ready tries) = true
is_looking _ = false

module _ {Float : Type 0} (scan_float : List ℕ → Option (Float × List ℕ)) where
  abbrev HasShortTimestamp : GnssData Float → Type 0
  HasShortTimestamp d = length d.timestamp ≤ 12

  scan_date-bound : (cs : List ℕ) (r : List ℕ × ℤ) → scan_date cs ≡ some r → length r.0 ≤ 6
  unfolding scan_date
  scan_date-bound cs r h = grind (arith, length-scan_until)

  scan_position-HasShortTimestamp :
      (cs : List ℕ) (d : GnssData Float)
      → scan_position scan_float cs ≡ some d
      → HasShortTimestamp d
  unfolding scan_position
  scan_position-HasShortTimestamp cs d h =
      grind (arith, scan_date-bound, length-append, length-take)

  -- The state goes on to turning the receiver off, with the clock set from the caller's new data,
  -- whose timestamp leaves room in its 20 bytes.
  abbrev IsHandedOver : GnssModule Float → Type 0
  IsHandedOver g =
      (phase g.geopositioning ≡ is_turning_off)
      × (g.clock_set_from ≡ g.geodata.timestamp)
      × HasShortTimestamp g.geodata

  -- The status that a position was obtained comes with one that is handed over.
  abbrev Grants : Bool → Outcome Float → Type 0
  Grants looking (done connection_obtain g) = (looking ≡ true) × IsHandedOver g
  Grants looking (done _ g) = Unit {0}
  Grants looking (waits g) = Unit {0}

  answer_position-Grants :
      (tries : ℕ) (line : List ℕ) (position : Option (GnssData Float)) (g : GnssModule Float)
      → ((d : GnssData Float) → position ≡ some d → HasShortTimestamp d)
      → Grants true (answer_position tries line position g)
  unfolding answer_position change_geopositioning_state
  answer_position-Grants tries line none g h = ground arith
  answer_position-Grants tries line (some d) g h = (refl, (refl, refl, h d refl))

  retriv_position_info-HasShortTimestamp :
      (line : List ℕ) (d : GnssData Float)
      → retriv_position_info scan_float line ≡ some d
      → HasShortTimestamp d
  unfolding retriv_position_info
  retriv_position_info-HasShortTimestamp line d h =
      ground (arith, scan_position-HasShortTimestamp (drop 9 line) d)

  answer_obtaining-Grants :
      (tries : ℕ) (line : Option (List ℕ)) (g : GnssModule Float)
      → Grants true (answer_obtaining scan_float tries line g)
  unfolding answer_obtaining
  answer_obtaining-Grants tries none g = tt
  answer_obtaining-Grants tries (some l) g =
      answer_position-Grants tries l (retriv_position_info scan_float l) g
        (retriv_position_info-HasShortTimestamp l)

  attempt-Grants :
      (g : GnssModule Float) (s : GeopositioningState)
      → g.geopositioning ≡ s
      → Grants (is_looking s) (attempt scan_float g)
  unfolding attempt answer_constellation answer_turning_on answer_turning_off
  attempt-Grants g gnss_unavailable e = ground arith
  attempt-Grants g (configurate_constellation r t) e = ground arith
  attempt-Grants g (turning_on_gnss r) e = ground arith
  attempt-Grants g (obtaining_position_information r t) e =
      let read = receive (send_if r (codes "AT+QGPSLOC?") (send_if r (codes "AT+QGPSLOC=2") g)) in
      ground (arith, answer_obtaining-Grants t read.0 read.1)
  attempt-Grants g (turning_off_gnss r) e = ground arith

  finish-Grants :
      (i : Inputs) (looking : Bool) (o : Outcome Float)
      → Grants looking o
      → (finish i o).0 ≡ connection_obtain
      → (looking ≡ true) × IsHandedOver (finish i o).1
  unfolding finish read_refresh retry status_so_far
  finish-Grants i looking (done status g) h e = ground arith
  finish-Grants i looking (waits g) h e = ground arith

  -- Where a call of the module reports that it has obtained a position, it was looking for one, goes
  -- on to turn the receiver off, and has set the clock from the timestamp that it hands over, which
  -- has 12 characters at most and so fits in the 20 bytes of `GNSSData`.
  pub retriv_geopositioning-obtains :
      (i : Inputs) (g : GnssModule Float)
      → (retriv_geopositioning scan_float i g).0 ≡ connection_obtain
      → (is_looking g.geopositioning ≡ true)
        × (phase (retriv_geopositioning scan_float i g).1.geopositioning ≡ is_turning_off)
        × ((retriv_geopositioning scan_float i g).1.clock_set_from
            ≡ (retriv_geopositioning scan_float i g).1.geodata.timestamp)
        × (length (retriv_geopositioning scan_float i g).1.geodata.timestamp ≤ 12)
  unfolding retriv_geopositioning
  retriv_geopositioning-obtains i g e = ground (
    arith,
    attempt-Grants g g.geopositioning refl,
    finish-Grants i (is_looking g.geopositioning) (attempt scan_float g),
  )
