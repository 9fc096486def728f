-- ===== src/Parsing/Tests.antt =====
-- The theorems on the messages of the trackers at a concrete tracker, and a concrete `float`.
use gateway_lo_ra.Prelude.{
  ℕ, zero, suc, ◌≡◌, refl, ap, Bool, true, false, List, [], ◌∷◌, Option, none, some, arith, codes,
  pos, if◌then◌else◌, ◌==◌, scan_until, eq_bytes, scan_char, scan_int, scan_long_long, scan_decimal,
  clamp, clamp_first, scan_digits,
}
use gateway_lo_ra.Route.States.{loralora, loragnss}
use gateway_lo_ra.Parsing.Message.{
  Recepted, parse_recepted_lora_message, convert, read_int, read_long_long,
}
use gateway_lo_ra.Parsing.Tracker.{
  Tracker, IsTracker, ReadsBack, loralora_text, parse-loralora_text,
}
use gateway_lo_ra.Parsing.Located.{Place, loragnss_text, parse-loragnss_text}

-- A number as that many ones and a point stands for the `float`.
abbrev show_unary : ℕ → List ℕ
show_unary zero = b'.' ∷ []
show_unary (suc n) = b'1' ∷ show_unary n

abbrev one_more : Option (ℕ × List ℕ) → Option (ℕ × List ℕ)
one_more none = none
one_more (some (n, cs)) = some (suc n, cs)

abbrev scan_unary : List ℕ → Option (ℕ × List ℕ)
scan_unary [] = none
scan_unary (c ∷ cs) = let rest = scan_unary cs in if c == b'.' then some (0, cs) else one_more rest

reads_unary : ReadsBack show_unary scan_unary
reads_unary zero rest h = refl
reads_unary (suc n) rest h = ap one_more (reads_unary n rest h)

abbrev tracker : Tracker ℕ
tracker = record {
  imei = 359;
  number = 12;
  event_first = b'M';
  event_rest = codes "OVING";
  bat = 1;
  charge = 87;
  time_first = b'2';
  time_rest = codes "50101120000";
  status = 255;
  ax = 1;
  ay = 0;
  az = 2;
  yaw = 3;
  roll = 1;
  pitch = 0;
}

abbrev place : Place ℕ
place = record { latitude = 3; longitude = 5; hdop = 1; altitude = 2; cog = 0; spkm = 4 }

abbrev before : Recepted ℕ
before = record {
  imei = pos 0;
  lora_message_number = pos 1;
  tracker_event = [];
  latitude = 0;
  longitude = 0;
  hdop = 0;
  altitude = 0;
  cog = 0;
  spkm = 0;
  gnss_timestamp = [];
  battery_charge_status = 0;
  charge_level = 0;
  imu_status = 0;
  imu_timestamp = [];
  ax = 0;
  ay = 0;
  az = 0;
  yaw = 0;
  roll = 0;
  pitch = 0;
  type_message = loragnss;
}

tracker-IsTracker : IsTracker tracker
tracker-IsTracker = (
  omega arith,
  omega arith,
  omega arith,
  omega arith,
  omega arith,
  refl,
  omega arith,
  refl,
  omega arith,
)

abbrev heard : Recepted ℕ
heard = record before {
  imei = pos 359;
  lora_message_number = pos 12;
  tracker_event = codes "MOVING";
  battery_charge_status = 1;
  charge_level = 87;
  imu_status = 255;
  imu_timestamp = codes "250101120000";
  ax = 1;
  ay = 0;
  az = 2;
  yaw = 3;
  roll = 1;
  pitch = 0;
  type_message = loralora;
}

abbrev located : Recepted ℕ
located = record heard {
  latitude = 3;
  longitude = 5;
  hdop = 1;
  altitude = 2;
  cog = 0;
  spkm = 4;
  gnss_timestamp = codes "250101120000";
  imu_timestamp = [];
  type_message = loragnss;
}

parse-loralora_text_example :
    parse_recepted_lora_message scan_unary (loralora_text show_unary tracker) before ≡ (true, heard)
parse-loralora_text_example =
    parse-loralora_text show_unary scan_unary reads_unary tracker before tracker-IsTracker

parse-loragnss_text_example :
    parse_recepted_lora_message scan_unary (loragnss_text show_unary place tracker) before
    ≡ (true, located)
parse-loragnss_text_example =
    parse-loragnss_text show_unary scan_unary reads_unary place tracker before tracker-IsTracker

-- A message without its number is refused, and its identity stays behind.
abbrev refused : Bool × Recepted ℕ
refused = (false, record before { imei = pos 359 })

parse_refused : parse_recepted_lora_message scan_unary (codes "LORALORA,359,x") before ≡ refused
unfolding parse_recepted_lora_message scan_until eq_bytes convert read_int read_long_long scan_char
    scan_int scan_long_long scan_decimal clamp clamp_first scan_digits
parse_refused = refl
