-- ===== src/Parsing/Tracker.antt =====
-- The messages that a tracker writes, as Modules/Gateway/Gateway.cpp reads them.
use gateway_lo_ra.Prelude.{
  ℕ, ◌≤◌, ◌<◌, ◌^◌, ◌≡◌, refl, Bool, true, List, [], ◌∷◌, ◌++◌, Option, some, arith, codes,
  eq_bytes, length, is_free_of, scan_until-append, scan_until, scan_char, ℤ, pos, ◌==◌,
}
use gateway_lo_ra.Gateway.Show.{show_ℕ}
use gateway_lo_ra.Gateway.Decimal.{scan_int-show_ℕ, scan_long_long-show_ℕ, is_digit_free}
use gateway_lo_ra.Route.States.{loralora}
use gateway_lo_ra.Parsing.Message.{
  Recepted, Scanning, convert, read_int, read_long_long, read_word, read_float, keep_loralora,
  scanning, motion_format, loralora_format, parse_recepted_lora_message, set_imei, set_number,
  set_event, set_timestamp, set_bat, set_charge, set_status, set_ax, set_ay, set_az, set_yaw,
  set_roll, set_pitch,
}

-- The text goes on with a comma, or ends.
abbrev pub is_comma_next : List ℕ → Bool
is_comma_next [] = true
is_comma_next (c ∷ cs) = c == b','

-- What "%f" documents: it reads back what was written, up to a comma or the end.
abbrev pub ReadsBack :
    {Float : Type 0} → (Float → List ℕ) → (List ℕ → Option (Float × List ℕ)) → Type 0
ReadsBack show_float scan_float =
    (x : _) (rest : List ℕ)
    → is_comma_next rest ≡ true
    → scan_float (show_float x ++ rest) ≡ some (x, rest)

comma_digit_free : (rest : List ℕ) → is_comma_next rest ≡ true → is_digit_free rest ≡ true
comma_digit_free [] h = refl
comma_digit_free (c ∷ cs) h = ground arith

module _ {Float : Type 0} where
  pub read_int-show :
      (set : ℤ → Scanning Float → Scanning Float) (n : ℕ) (rest : List ℕ) (x : Scanning Float)
      → n < 2 ^ 31
      → is_comma_next rest ≡ true
      → read_int set (b',' ∷ (show_ℕ n ++ rest)) x ≡ some (rest, set (pos n) x)
  unfolding read_int scan_char
  read_int-show set n rest x h c =
      ground (arith, scan_int-show_ℕ n rest h (comma_digit_free rest c))

  pub read_long_long-show :
      (set : ℤ → Scanning Float → Scanning Float) (n : ℕ) (rest : List ℕ) (x : Scanning Float)
      → n < 2 ^ 63
      → is_comma_next rest ≡ true
      → read_long_long set (b',' ∷ (show_ℕ n ++ rest)) x ≡ some (rest, set (pos n) x)
  unfolding read_long_long scan_char
  read_long_long-show set n rest x h c =
      ground (arith, scan_long_long-show_ℕ n rest h (comma_digit_free rest c))

  pub read_word-show :
      (set : List ℕ → Scanning Float → Scanning Float) (c : ℕ) (cs rest : List ℕ)
      (x : Scanning Float)
      → is_free_of b',' (c ∷ cs) ≡ true
      → length (c ∷ cs) ≤ 19
      → read_word set (b',' ∷ ((c ∷ cs) ++ b',' ∷ rest)) x ≡ some (b',' ∷ rest, set (c ∷ cs) x)
  unfolding read_word scan_char
  read_word-show set c cs rest x h l = ground (arith, scan_until-append 19 b',' c cs rest h l)

-- What a tracker knows: the texts of the event and the time, each with its first character apart.
pub record Tracker (Float : Type 0) : Type 0 where
  pub imei : ℕ
  pub number : ℕ
  pub event_first : ℕ
  pub event_rest : List ℕ
  pub bat : ℕ
  pub charge : ℕ
  pub time_first : ℕ
  pub time_rest : List ℕ
  pub status : ℕ
  pub ax : Float
  pub ay : Float
  pub az : Float
  pub yaw : Float
  pub roll : Float
  pub pitch : Float

-- The identity fits in a `long long` and the number in an `int`, what is sent as a byte is below
-- 256, and the texts have 19 characters at most and no comma.
abbrev pub IsTracker : {Float : Type 0} → Tracker Float → Type 0
IsTracker t =
    (t.imei < 2 ^ 63)
    × (t.number < 2 ^ 31)
    × (t.bat < 256)
    × (t.charge < 256)
    × (t.status < 256)
    × (is_free_of b',' (t.event_first ∷ t.event_rest) ≡ true)
    × (length (t.event_first ∷ t.event_rest) ≤ 19)
    × (is_free_of b',' (t.time_first ∷ t.time_rest) ≡ true)
    × (length (t.time_first ∷ t.time_rest) ≤ 19)

module _ {Float : Type 0} (show_float : Float → List ℕ) where
  -- ",ax,ay,az,yaw,roll,pitch", from its end
  abbrev pitch_text : Tracker Float → List ℕ
  pitch_text t = b',' ∷ (show_float t.pitch ++ [])

  abbrev roll_text : Tracker Float → List ℕ
  roll_text t = b',' ∷ (show_float t.roll ++ pitch_text t)

  abbrev yaw_text : Tracker Float → List ℕ
  yaw_text t = b',' ∷ (show_float t.yaw ++ roll_text t)

  abbrev az_text : Tracker Float → List ℕ
  az_text t = b',' ∷ (show_float t.az ++ yaw_text t)

  abbrev ay_text : Tracker Float → List ℕ
  ay_text t = b',' ∷ (show_float t.ay ++ az_text t)

  abbrev pub motion_text : Tracker Float → List ℕ
  motion_text t = b',' ∷ (show_float t.ax ++ ay_text t)

  -- "imei,number,event,bat,charge,time,status", each with its comma, from its end
  abbrev status_text : Tracker Float → List ℕ
  status_text t = b',' ∷ (show_ℕ t.status ++ motion_text t)

  abbrev time_text : Tracker Float → List ℕ
  time_text t = b',' ∷ ((t.time_first ∷ t.time_rest) ++ status_text t)

  abbrev charge_text : Tracker Float → List ℕ
  charge_text t = b',' ∷ (show_ℕ t.charge ++ time_text t)

  abbrev bat_text : Tracker Float → List ℕ
  bat_text t = b',' ∷ (show_ℕ t.bat ++ charge_text t)

  abbrev event_text : Tracker Float → List ℕ
  event_text t = b',' ∷ ((t.event_first ∷ t.event_rest) ++ bat_text t)

  abbrev number_text : Tracker Float → List ℕ
  number_text t = b',' ∷ (show_ℕ t.number ++ event_text t)

  abbrev imei_text : Tracker Float → List ℕ
  imei_text t = b',' ∷ (show_ℕ t.imei ++ number_text t)

  -- "LORALORA,imei,number,event,bat,charge,time,status,ax,ay,az,yaw,roll,pitch"
  abbrev pub loralora_text : Tracker Float → List ℕ
  loralora_text t = codes "LORALORA" ++ imei_text t

module _ {Float : Type 0} where
  abbrev pub with_motion : Tracker Float → Scanning Float → Scanning Float
  with_motion t x =
      set_pitch t.pitch
        (set_roll t.roll (set_yaw t.yaw (set_az t.az (set_ay t.ay (set_ax t.ax x)))))

  abbrev with_head : Tracker Float → Scanning Float → Scanning Float
  with_head t x = set_timestamp (t.time_first ∷ t.time_rest) (
      set_charge (pos t.charge) (
        set_bat (pos t.bat) (
          set_event (t.event_first ∷ t.event_rest)
            (set_number (pos t.number) (set_imei (pos t.imei) x)))))

module _ {Float : Type 0} (show_float : Float → List ℕ)
    (scan_float : List ℕ → Option (Float × List ℕ))
    (reads_back : ReadsBack show_float scan_float) where
  pub read_float-show :
      (set : Float → Scanning Float → Scanning Float) (f : Float) (rest : List ℕ)
      (x : Scanning Float)
      → is_comma_next rest ≡ true
      → read_float scan_float set (b',' ∷ (show_float f ++ rest)) x ≡ some (rest, set f x)
  unfolding read_float scan_char
  read_float-show set f rest x c = ground (arith, reads_back f rest c)

  pub convert-motion_text :
      (t : Tracker Float) (x : Scanning Float)
      → convert (motion_format scan_float) (motion_text show_float t) x ≡ (true, with_motion t x)
  unfolding convert
  convert-motion_text t x = ground (
    arith,
    read_float-show set_ax t.ax (ay_text show_float t) x refl,
    read_float-show set_ay t.ay (az_text show_float t) (set_ax t.ax x) refl,
    read_float-show set_az t.az (yaw_text show_float t) (set_ay t.ay (set_ax t.ax x)) refl,
    read_float-show set_yaw t.yaw (roll_text show_float t)
        (set_az t.az (set_ay t.ay (set_ax t.ax x))) refl,
    read_float-show set_roll t.roll (pitch_text show_float t)
        (set_yaw t.yaw (set_az t.az (set_ay t.ay (set_ax t.ax x)))) refl,
    read_float-show set_pitch t.pitch []
        (set_roll t.roll (set_yaw t.yaw (set_az t.az (set_ay t.ay (set_ax t.ax x))))) refl,
  )

  convert-loralora_text :
      (t : Tracker Float) (x : Scanning Float)
      → IsTracker t
      → convert (loralora_format scan_float) (imei_text show_float t) x
        ≡ (true, with_motion t (set_status (pos t.status) (with_head t x)))
  unfolding convert
  convert-loralora_text t x
        (imei, number, bat, charge, status, event_free, event_short, time_free, time_short) =
      let x1 : Scanning Float = set_imei (pos t.imei) x in
      let x2 : Scanning Float = set_number (pos t.number) x1 in
      let x3 : Scanning Float = set_event (t.event_first ∷ t.event_rest) x2 in
      let x4 : Scanning Float = set_bat (pos t.bat) x3 in
      let x5 : Scanning Float = set_charge (pos t.charge) x4 in
      let x6 : Scanning Float = set_timestamp (t.time_first ∷ t.time_rest) x5 in
      let x7 : Scanning Float = set_status (pos t.status) x6 in
      ground (
        arith,
        read_long_long-show set_imei t.imei (number_text show_float t) x (omega arith) refl,
        read_int-show set_number t.number (event_text show_float t) x1 (omega arith) refl,
        read_word-show set_event t.event_first t.event_rest
            (show_ℕ t.bat ++ charge_text show_float t) x2 event_free event_short,
        read_int-show set_bat t.bat (charge_text show_float t) x3 (omega arith) refl,
        read_int-show set_charge t.charge (time_text show_float t) x4 (omega arith) refl,
        read_word-show set_timestamp t.time_first t.time_rest
            (show_ℕ t.status ++ motion_text show_float t) x5 time_free time_short,
        read_int-show set_status t.status (motion_text show_float t) x6 (omega arith) refl,
        convert-motion_text t x7,
      )

  prefix_text :
      (t : Tracker Float)
      → scan_until 15 b',' (loralora_text show_float t)
        ≡ some (codes "LORALORA", imei_text show_float t)
  prefix_text t =
      scan_until-append 15 b',' b'L' (codes "ORALORA") (show_ℕ t.imei ++ number_text show_float t)
        refl (omega arith)

  -- A message that a tracker writes without a position is parsed, and the gateway has every field
  -- as the tracker wrote it: the identity, the number, the event, the battery, the time and the
  -- motion; what such a message does not carry, the last position above all, stays as it was. The
  -- tracker's texts have a character at least, 19 at most and no comma, its bytes are below 256, its
  -- identity below 2^63 and its number below 2^31, and "%f" reads back what it writes.
  pub parse-loralora_text :
      (t : Tracker Float) (r : Recepted Float)
      → IsTracker t
      → parse_recepted_lora_message scan_float (loralora_text show_float t) r ≡ (
        true,
        record r {
          imei = pos t.imei;
          lora_message_number = pos t.number;
          tracker_event = t.event_first ∷ t.event_rest;
          battery_charge_status = t.bat;
          charge_level = t.charge;
          imu_status = t.status;
          imu_timestamp = t.time_first ∷ t.time_rest;
          ax = t.ax;
          ay = t.ay;
          az = t.az;
          yaw = t.yaw;
          roll = t.roll;
          pitch = t.pitch;
          type_message = loralora;
        },
      )
  unfolding parse_recepted_lora_message keep_loralora eq_bytes
  parse-loralora_text t r h =
      ground (arith, prefix_text t, convert-loralora_text t (scanning r) h, h)
