-- ===== src/Parsing/Located.antt =====
-- The messages with a position that a tracker writes, as Modules/Gateway/Gateway.cpp reads them.
use gateway_lo_ra.Prelude.{
  ℕ, ◌≡◌, refl, true, List, ◌∷◌, ◌++◌, Option, some, arith, codes, eq_bytes, scan_until-append,
  scan_until, pos,
}
use gateway_lo_ra.Gateway.Show.{show_ℕ}
use gateway_lo_ra.Route.States.{loragnss}
use gateway_lo_ra.Parsing.Message.{
  Recepted, Scanning, convert, keep_loragnss, scanning, loragnss_format, battery_format,
  place_format, parse_recepted_lora_message, set_imei, set_number, set_event, set_timestamp,
  set_bat, set_charge, set_status, set_latitude, set_longitude, set_hdop, set_altitude, set_cog,
  set_spkm,
}
use gateway_lo_ra.Parsing.Tracker.{
  Tracker, IsTracker, ReadsBack, motion_text, with_motion, convert-motion_text, read_int-show,
  read_long_long-show, read_word-show, read_float-show,
}

-- The position of a tracker.
pub record Place (Float : Type 0) : Type 0 where
  pub latitude : Float
  pub longitude : Float
  pub hdop : Float
  pub altitude : Float
  pub cog : Float
  pub spkm : Float

module _ {Float : Type 0} (show_float : Float → List ℕ) where
  -- The fields of the message, each with its comma, from its end
  abbrev status_text : Tracker Float → List ℕ
  status_text t = b',' ∷ (show_ℕ t.status ++ motion_text show_float t)

  abbrev charge_text : Tracker Float → List ℕ
  charge_text t = b',' ∷ (show_ℕ t.charge ++ status_text t)

  abbrev bat_text : Tracker Float → List ℕ
  bat_text t = b',' ∷ (show_ℕ t.bat ++ charge_text t)

  abbrev time_text : Tracker Float → List ℕ
  time_text t = b',' ∷ ((t.time_first ∷ t.time_rest) ++ bat_text t)

  abbrev spkm_text : Place Float → Tracker Float → List ℕ
  spkm_text p t = b',' ∷ (show_float p.spkm ++ time_text t)

  abbrev cog_text : Place Float → Tracker Float → List ℕ
  cog_text p t = b',' ∷ (show_float p.cog ++ spkm_text p t)

  abbrev altitude_text : Place Float → Tracker Float → List ℕ
  altitude_text p t = b',' ∷ (show_float p.altitude ++ cog_text p t)

  abbrev hdop_text : Place Float → Tracker Float → List ℕ
  hdop_text p t = b',' ∷ (show_float p.hdop ++ altitude_text p t)

  abbrev longitude_text : Place Float → Tracker Float → List ℕ
  longitude_text p t = b',' ∷ (show_float p.longitude ++ hdop_text p t)

  abbrev latitude_text : Place Float → Tracker Float → List ℕ
  latitude_text p t = b',' ∷ (show_float p.latitude ++ longitude_text p t)

  abbrev event_text : Place Float → Tracker Float → List ℕ
  event_text p t = b',' ∷ ((t.event_first ∷ t.event_rest) ++ latitude_text p t)

  abbrev number_text : Place Float → Tracker Float → List ℕ
  number_text p t = b',' ∷ (show_ℕ t.number ++ event_text p t)

  abbrev imei_text : Place Float → Tracker Float → List ℕ
  imei_text p t = b',' ∷ (show_ℕ t.imei ++ number_text p t)

  -- "LORAGNSS,imei,number,event,latitude,longitude,hdop,altitude,cog,spkm,time,bat,charge,status",
  -- and the motion
  abbrev pub loragnss_text : Place Float → Tracker Float → List ℕ
  loragnss_text p t = codes "LORAGNSS" ++ imei_text p t

module _ {Float : Type 0} where
  abbrev with_place : Place Float → Scanning Float → Scanning Float
  with_place p x = set_spkm p.spkm (
      set_cog p.cog (
        set_altitude p.altitude
          (set_hdop p.hdop (set_longitude p.longitude (set_latitude p.latitude x)))))

  abbrev with_event : Tracker Float → Scanning Float → Scanning Float
  with_event t x =
      set_event (t.event_first ∷ t.event_rest) (set_number (pos t.number) (set_imei (pos t.imei) x))

  abbrev with_battery : Tracker Float → Scanning Float → Scanning Float
  with_battery t x = set_status (pos t.status) (
      set_charge (pos t.charge)
        (set_bat (pos t.bat) (set_timestamp (t.time_first ∷ t.time_rest) x)))

module _ {Float : Type 0} (show_float : Float → List ℕ)
    (scan_float : List ℕ → Option (Float × List ℕ))
    (reads_back : ReadsBack show_float scan_float) where
  -- From the time on.
  convert-time_text :
      (t : Tracker Float) (x : Scanning Float)
      → IsTracker t
      → convert (battery_format scan_float) (time_text show_float t) x
        ≡ (true, with_motion t (with_battery t x))
  unfolding convert
  convert-time_text t x
        (imei, number, bat, charge, status, event_free, event_short, time_free, time_short) =
      let x1 : Scanning Float = set_timestamp (t.time_first ∷ t.time_rest) x in
      let x2 : Scanning Float = set_bat (pos t.bat) x1 in
      let x3 : Scanning Float = set_charge (pos t.charge) x2 in
      let x4 : Scanning Float = set_status (pos t.status) x3 in
      ground (
        arith,
        read_word-show set_timestamp t.time_first t.time_rest
            (show_ℕ t.bat ++ charge_text show_float t) x time_free time_short,
        read_int-show set_bat t.bat (charge_text show_float t) x1 (omega arith) refl,
        read_int-show set_charge t.charge (status_text show_float t) x2 (omega arith) refl,
        read_int-show set_status t.status (motion_text show_float t) x3 (omega arith) refl,
        convert-motion_text show_float scan_float reads_back t x4,
      )

  -- From the position on.
  convert-latitude_text :
      (p : Place Float) (t : Tracker Float) (x : Scanning Float)
      → IsTracker t
      → convert (place_format scan_float) (latitude_text show_float p t) x
        ≡ (true, with_motion t (with_battery t (with_place p x)))
  unfolding convert
  convert-latitude_text p t x h =
      let read = read_float-show show_float scan_float reads_back in
      let x1 : Scanning Float = set_latitude p.latitude x in
      let x2 : Scanning Float = set_longitude p.longitude x1 in
      let x3 : Scanning Float = set_hdop p.hdop x2 in
      let x4 : Scanning Float = set_altitude p.altitude x3 in
      let x5 : Scanning Float = set_cog p.cog x4 in
      let x6 : Scanning Float = set_spkm p.spkm x5 in
      ground (
        arith,
        read set_latitude p.latitude (longitude_text show_float p t) x refl,
        read set_longitude p.longitude (hdop_text show_float p t) x1 refl,
        read set_hdop p.hdop (altitude_text show_float p t) x2 refl,
        read set_altitude p.altitude (cog_text show_float p t) x3 refl,
        read set_cog p.cog (spkm_text show_float p t) x4 refl,
        read set_spkm p.spkm (time_text show_float t) x5 refl,
        convert-time_text t x6 h,
      )

  convert-loragnss_text :
      (p : Place Float) (t : Tracker Float) (x : Scanning Float)
      → IsTracker t
      → convert (loragnss_format scan_float) (imei_text show_float p t) x
        ≡ (true, with_motion t (with_battery t (with_place p (with_event t x))))
  unfolding convert
  convert-loragnss_text p t x h =
      let (imei, number, bat, charge, status, event_free, event_short, time_free, time_short) = h in
      let x1 : Scanning Float = set_imei (pos t.imei) x in
      let x2 : Scanning Float = set_number (pos t.number) x1 in
      let x3 : Scanning Float = set_event (t.event_first ∷ t.event_rest) x2 in
      ground (
        arith,
        read_long_long-show set_imei t.imei (number_text show_float p t) x (omega arith) refl,
        read_int-show set_number t.number (event_text show_float p t) x1 (omega arith) refl,
        read_word-show set_event t.event_first t.event_rest
            (show_float p.latitude ++ longitude_text show_float p t) x2 event_free event_short,
        convert-latitude_text p t x3 h,
      )

  prefix_text :
      (p : Place Float) (t : Tracker Float)
      → scan_until 15 b',' (loragnss_text show_float p t)
        ≡ some (codes "LORAGNSS", imei_text show_float p t)
  prefix_text p t =
      scan_until-append 15 b',' b'L' (codes "ORAGNSS") (show_ℕ t.imei ++ number_text show_float p t)
        refl (omega arith)

  -- A message that a tracker writes with its position is parsed, and the gateway has every field as
  -- the tracker wrote it: the identity, the number, the event, the position, the time, the battery
  -- and the motion. The tracker's texts have a character at least, 19 at most and no comma, its
  -- bytes are below 256, its identity below 2^63 and its number below 2^31, and "%f" reads back what
  -- it writes.
  pub parse-loragnss_text :
      (p : Place Float) (t : Tracker Float) (r : Recepted Float)
      → IsTracker t
      → parse_recepted_lora_message scan_float (loragnss_text show_float p t) r ≡ (
        true,
        record {
          imei = pos t.imei;
          lora_message_number = pos t.number;
          tracker_event = t.event_first ∷ t.event_rest;
          latitude = p.latitude;
          longitude = p.longitude;
          hdop = p.hdop;
          altitude = p.altitude;
          cog = p.cog;
          spkm = p.spkm;
          gnss_timestamp = t.time_first ∷ t.time_rest;
          battery_charge_status = t.bat;
          charge_level = t.charge;
          imu_status = t.status;
          imu_timestamp = r.imu_timestamp;
          ax = t.ax;
          ay = t.ay;
          az = t.az;
          yaw = t.yaw;
          roll = t.roll;
          pitch = t.pitch;
          type_message = loragnss;
        },
      )
  unfolding parse_recepted_lora_message keep_loragnss eq_bytes
  parse-loragnss_text p t r h =
      ground (arith, prefix_text p t, convert-loragnss_text p t (scanning r) h, h)
