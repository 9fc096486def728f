-- ===== src/Gnss/Position.antt =====
-- Modules/GNSSModule/GeopositioningState/ObtainingPositionInformation: the modem's position line.
use gateway_lo_ra.Prelude.{
  ℕ, List, ◌++◌, Option, none, some, codes, starts_with, drop, take, scan_int, scan_char,
  scan_until, skip_space, ◌>>=◌, if◌then◌else◌, ℤ,
}
use gateway_lo_ra.Gnss.State.{GnssData}

-- "%6[^,],%d": the date and the number of satellites
unfoldable pub scan_date : List ℕ → Option (List ℕ × ℤ)
scan_date cs = do
  (date, rest) ← scan_until 6 b',' cs
  rest ← scan_char b',' rest
  (nsat, rest) ← scan_int rest
  some (date, nsat)

module _ {Float : Type 0} (scan_float : List ℕ → Option (Float × List ℕ)) where
  -- "%f,"
  unfoldable pub scan_float_field : List ℕ → Option (Float × List ℕ)
  scan_float_field cs = do
    (value, rest) ← scan_float cs
    rest ← scan_char b',' rest
    some (value, rest)

  -- "%f,%f,%f,%f,%d,": latitude, longitude, hdop, altitude and fix
  unfoldable pub scan_place : List ℕ → Option ((Float × Float × Float × Float × ℤ) × List ℕ)
  scan_place cs = do
    (latitude, rest) ← scan_float_field cs
    (longitude, rest) ← scan_float_field rest
    (hdop, rest) ← scan_float_field rest
    (altitude, rest) ← scan_float_field rest
    (fix, rest) ← scan_int rest
    rest ← scan_char b',' rest
    some ((latitude, longitude, hdop, altitude, fix), rest)

  -- "%f,%f,%f,": cog, spkm and spkn
  unfoldable pub scan_course : List ℕ → Option ((Float × Float × Float) × List ℕ)
  scan_course cs = do
    (cog, rest) ← scan_float_field cs
    (spkm, rest) ← scan_float_field rest
    (spkn, rest) ← scan_float_field rest
    some ((cog, spkm, spkn), rest)

  -- `sscanf` of the fields, and what `retrivGeopositioning` makes of them where there are eleven.
  unfoldable pub scan_position : List ℕ → Option (GnssData Float)
  scan_position cs = do
    (utc, rest) ← scan_until 9 b',' (skip_space cs)
    rest ← scan_char b',' rest
    (place, rest) ← scan_place rest
    (course, rest) ← scan_course rest
    (date, nsat) ← scan_date rest
    some (record {
      timestamp = date ++ take 6 utc;
      latitude = place.0;
      longitude = place.1;
      hdop = place.2;
      altitude = place.3;
      fix = place.4;
      cog = course.0;
      spkm = course.1;
      spkn = course.2;
      nsat = nsat;
    })

  -- `retrivPositionInfo`
  unfoldable pub retriv_position_info : List ℕ → Option (GnssData Float)
  retriv_position_info response =
      if starts_with (codes "+QGPSLOC:") response then scan_position (drop 9 response) else none
