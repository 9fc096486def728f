-- ===== src/Parsing/Message.antt =====
-- Modules/Gateway/Gateway.cpp: `parseReceptedLoRaMessage`. `sscanf` writes a field as soon as it is
-- converted, so a message that does not parse leaves the fields before its fault written. `float`
-- and its "%f" are parameters.
use gateway_lo_ra.Prelude.{
  ℕ, ◌-◌, ◌%◌, Bool, true, false, List, [], ◌∷◌, Option, none, some, codes, eq_bytes, drop,
  scan_int, scan_long_long, scan_char, scan_until, ◌>>=◌, if◌then◌else◌, ℤ, pos, negsuc,
}
use gateway_lo_ra.Route.States.{ReceptedTypeMessage, loralora, loragnss}

-- The fields of the gateway that a message is received into.
pub record Recepted (Float : Type 0) : Type 0 where
  pub imei : ℤ
  pub lora_message_number : ℤ
  pub tracker_event : List ℕ
  pub latitude : Float
  pub longitude : Float
  pub hdop : Float
  pub altitude : Float
  pub cog : Float
  pub spkm : Float
  pub gnss_timestamp : List ℕ
  pub battery_charge_status : ℕ
  pub charge_level : ℕ
  pub imu_status : ℕ
  pub imu_timestamp : List ℕ
  pub ax : Float
  pub ay : Float
  pub az : Float
  pub yaw : Float
  pub roll : Float
  pub pitch : Float
  pub type_message : ReceptedTypeMessage

-- The same, with the local variables of the function.
pub record Scanning (Float : Type 0) : Type 0 where
  pub recepted : Recepted Float
  pub event : List ℕ
  pub timestamp : List ℕ
  pub tmp_bat : ℤ
  pub tmp_charge : ℤ
  pub tmp_status : ℤ

-- `(uint8_t)`
abbrev pub to_uint8 : ℤ → ℕ
to_uint8 (pos n) = n % 256
to_uint8 (negsuc n) = 255 - n % 256

-- One conversion of `sscanf`, with the comma before it.
abbrev pub Conversion : Type 0 → Type 0
Conversion Float = List ℕ → Scanning Float → Option (List ℕ × Scanning Float)

module _ {Float : Type 0} where
  -- The conversions in their order, until one fails: whether all of them are done, and what they
  -- have written.
  unfoldable pub convert : List (Conversion Float) → List ℕ → Scanning Float → Bool × Scanning Float
  convert [] cs x = (true, x)
  convert (k ∷ ks) cs x = elim (k cs x) [ none ↦ (false, x) | some (rest, x') ↦ convert ks rest x' ]

  -- ",%d"
  unfoldable pub read_int : (ℤ → Scanning Float → Scanning Float) → Conversion Float
  read_int set cs x = do
    rest ← scan_char b',' cs
    (value, rest) ← scan_int rest
    some (rest, set value x)

  -- ",%lld"
  unfoldable pub read_long_long : (ℤ → Scanning Float → Scanning Float) → Conversion Float
  read_long_long set cs x = do
    rest ← scan_char b',' cs
    (value, rest) ← scan_long_long rest
    some (rest, set value x)

  -- ",%19[^,]"
  unfoldable pub read_word : (List ℕ → Scanning Float → Scanning Float) → Conversion Float
  read_word set cs x = do
    rest ← scan_char b',' cs
    (word, rest) ← scan_until 19 b',' rest
    some (rest, set word x)

  abbrev pub set_imei : ℤ → Scanning Float → Scanning Float
  set_imei z x = record x { recepted = record (x.recepted) { imei = z } }

  abbrev pub set_number : ℤ → Scanning Float → Scanning Float
  set_number z x = record x { recepted = record (x.recepted) { lora_message_number = z } }

  abbrev pub set_event : List ℕ → Scanning Float → Scanning Float
  set_event w x = record x { event = w }

  abbrev pub set_timestamp : List ℕ → Scanning Float → Scanning Float
  set_timestamp w x = record x { timestamp = w }

  abbrev pub set_bat : ℤ → Scanning Float → Scanning Float
  set_bat z x = record x { tmp_bat = z }

  abbrev pub set_charge : ℤ → Scanning Float → Scanning Float
  set_charge z x = record x { tmp_charge = z }

  abbrev pub set_status : ℤ → Scanning Float → Scanning Float
  set_status z x = record x { tmp_status = z }

  abbrev pub set_latitude : Float → Scanning Float → Scanning Float
  set_latitude f x = record x { recepted = record (x.recepted) { latitude = f } }

  abbrev pub set_longitude : Float → Scanning Float → Scanning Float
  set_longitude f x = record x { recepted = record (x.recepted) { longitude = f } }

  abbrev pub set_hdop : Float → Scanning Float → Scanning Float
  set_hdop f x = record x { recepted = record (x.recepted) { hdop = f } }

  abbrev pub set_altitude : Float → Scanning Float → Scanning Float
  set_altitude f x = record x { recepted = record (x.recepted) { altitude = f } }

  abbrev pub set_cog : Float → Scanning Float → Scanning Float
  set_cog f x = record x { recepted = record (x.recepted) { cog = f } }

  abbrev pub set_spkm : Float → Scanning Float → Scanning Float
  set_spkm f x = record x { recepted = record (x.recepted) { spkm = f } }

  abbrev pub set_ax : Float → Scanning Float → Scanning Float
  set_ax f x = record x { recepted = record (x.recepted) { ax = f } }

  abbrev pub set_ay : Float → Scanning Float → Scanning Float
  set_ay f x = record x { recepted = record (x.recepted) { ay = f } }

  abbrev pub set_az : Float → Scanning Float → Scanning Float
  set_az f x = record x { recepted = record (x.recepted) { az = f } }

  abbrev pub set_yaw : Float → Scanning Float → Scanning Float
  set_yaw f x = record x { recepted = record (x.recepted) { yaw = f } }

  abbrev pub set_roll : Float → Scanning Float → Scanning Float
  set_roll f x = record x { recepted = record (x.recepted) { roll = f } }

  abbrev pub set_pitch : Float → Scanning Float → Scanning Float
  set_pitch f x = record x { recepted = record (x.recepted) { pitch = f } }

  -- What follows the conversions of a message with a position, where all are done.
  unfoldable pub keep_loragnss : Scanning Float → Recepted Float
  keep_loragnss x = record (x.recepted) {
    battery_charge_status = to_uint8 x.tmp_bat;
    charge_level = to_uint8 x.tmp_charge;
    imu_status = to_uint8 x.tmp_status;
    gnss_timestamp = x.timestamp;
    tracker_event = x.event;
    type_message = loragnss;
  }

  -- The same for a message without one.
  unfoldable pub keep_loralora : Scanning Float → Recepted Float
  keep_loralora x = record (x.recepted) {
    battery_charge_status = to_uint8 x.tmp_bat;
    charge_level = to_uint8 x.tmp_charge;
    imu_status = to_uint8 x.tmp_status;
    tracker_event = x.event;
    imu_timestamp = x.timestamp;
    type_message = loralora;
  }

  -- The local variables before the conversions; those that are not set are not read.
  abbrev pub scanning : Recepted Float → Scanning Float
  scanning r = record {
    recepted = r;
    event = [];
    timestamp = [];
    tmp_bat = pos 0;
    tmp_charge = pos 0;
    tmp_status = pos 0;
  }

  -- The result of the conversions.
  abbrev pub finish_parse :
      (Scanning Float → Recepted Float) → Bool × Scanning Float → Bool × Recepted Float
  finish_parse keep (true, x) = (true, keep x)
  finish_parse keep (false, x) = (false, x.recepted)

module _ {Float : Type 0} (scan_float : List ℕ → Option (Float × List ℕ)) where
  -- ",%f"
  unfoldable pub read_float : (Float → Scanning Float → Scanning Float) → Conversion Float
  read_float set cs x = do
    rest ← scan_char b',' cs
    (value, rest) ← scan_float rest
    some (rest, set value x)

  abbrev pub motion_format : List (Conversion Float)
  motion_format =
      read_float set_ax
      ∷ read_float set_ay
      ∷ read_float set_az
      ∷ read_float set_yaw
      ∷ read_float set_roll
      ∷ read_float set_pitch
      ∷ []

  -- A message with a position, from the time on.
  abbrev pub battery_format : List (Conversion Float)
  battery_format =
      read_word set_timestamp
      ∷ read_int set_bat
      ∷ read_int set_charge
      ∷ read_int set_status
      ∷ motion_format

  -- A message with a position, from the position on.
  abbrev pub place_format : List (Conversion Float)
  place_format =
      read_float set_latitude
      ∷ read_float set_longitude
      ∷ read_float set_hdop
      ∷ read_float set_altitude
      ∷ read_float set_cog
      ∷ read_float set_spkm
      ∷ battery_format

  -- "LORAGNSS,%lld,%d,%19[^,],%f,%f,%f,%f,%f,%f,%19[^,],%d,%d,%d,%f,%f,%f,%f,%f,%f"
  abbrev pub loragnss_format : List (Conversion Float)
  loragnss_format =
      read_long_long set_imei ∷ read_int set_number ∷ read_word set_event ∷ place_format

  -- "LORALORA,%lld,%d,%19[^,],%d,%d,%19[^,],%d,%f,%f,%f,%f,%f,%f"
  abbrev pub loralora_format : List (Conversion Float)
  loralora_format =
      read_long_long set_imei
      ∷ read_int set_number
      ∷ read_word set_event
      ∷ read_int set_bat
      ∷ read_int set_charge
      ∷ read_word set_timestamp
      ∷ read_int set_status
      ∷ motion_format

  -- `parseReceptedLoRaMessage`
  unfoldable pub parse_recepted_lora_message : List ℕ → Recepted Float → Bool × Recepted Float
  parse_recepted_lora_message message r = elim (scan_until 15 b',' message) [
    | none ↦ (false, r)
    | some (prefix, rest) ↦
        if eq_bytes prefix (codes "LORAGNSS")
        then finish_parse keep_loragnss (convert loragnss_format (drop 8 message) (scanning r))
        else if eq_bytes prefix (codes "LORALORA")
        then finish_parse keep_loralora (convert loralora_format (drop 8 message) (scanning r))
        else (false, r)
  ]
