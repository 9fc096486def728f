-- ===== src/Cellular/Responses.antt =====
-- The answers of the modem that the states of Modules/CellularModule/ConnectionState read.
use gateway_lo_ra.Prelude.{
  ℕ, ◌-◌, ◌*◌, Bool, false, ◌&&◌, List, ◌∷◌, ◌++◌, Option, none, some, codes, starts_with, take,
  drop, length, leb, ◌==◌, if◌then◌else◌, ℤ, pos, negsuc, sub_ℕ, is_digit, skip_space, scan_int,
  scan_char, scan_until, atoi, atoll, ◌>>=◌, strtol_hex,
}

-- `CheckingSignalStrength::checkExpectedResponse`, the level for an RSSI code
unfoldable pub signal_level : ℤ → ℤ
signal_level (pos rssi) =
    if leb rssi 31
    then sub_ℕ (2 * rssi) 113
    else (if leb 100 rssi && leb rssi 199 then sub_ℕ (rssi - 100) 116 else negsuc 998)
signal_level (negsuc n) = negsuc 998

-- `CheckingSignalStrength::checkExpectedResponse`: `some` level is the result true.
unfoldable pub check_expected_response : List ℕ → Option ℤ
unfolding signal_level
check_expected_response response =
    if starts_with (codes "+CSQ:") response
    then (do
      (rssi, rest) ← scan_int (drop 5 response)
      rest ← scan_char b',' rest
      (ber, rest) ← scan_int rest
      some (signal_level rssi))
    else none

abbrev three_digits : List ℕ → Bool
three_digits (a ∷ b ∷ c ∷ cs) = is_digit a && is_digit b && is_digit c
three_digits _ = false

-- `ConsultingIMEI::RetrivIMEI`
unfoldable pub retriv_imei : List ℕ → Option ℤ
retriv_imei response =
    if three_digits response && length (take 15 response) == 15
    then some (atoll (take 15 response))
    else none

-- What `ConsultingNetworkStatus` keeps of an answer.
pub record NetworkStatus : Type 0 where
  pub registration_status : ℤ
  pub lac : ℤ
  pub cell_id : ℤ
  pub access_technology : ℤ

-- `ConsultingNetworkStatus::retrivIdCellData`
unfoldable pub retriv_id_cell_data : List ℕ → Option NetworkStatus
retriv_id_cell_data response =
    if starts_with (codes "+CREG: ") response
    then (do
      (mode, rest) ← scan_int (drop 7 response)
      rest ← scan_char b',' rest
      (stat, rest) ← scan_int rest
      rest ← scan_char b',' rest
      rest ← scan_char 34 rest
      (tac, rest) ← scan_until 9 34 rest
      rest ← scan_char 34 rest
      rest ← scan_char b',' rest
      rest ← scan_char 34 rest
      (ci, rest) ← scan_until 19 34 rest
      rest ← scan_char 34 rest
      rest ← scan_char b',' rest
      (act, rest) ← scan_int rest
      some (record {
        registration_status = stat;
        lac = strtol_hex tac;
        cell_id = strtol_hex ci;
        access_technology = act;
      }))
    else none

-- What `ConsultingAvailableOperators` keeps of an answer.
pub record OperatorInformation : Type 0 where
  pub mcc : ℤ
  pub mnc : ℤ
  pub channel : ℤ
  pub band : List ℕ

-- `ConsultingAvailableOperators::retrivOperatorsInformation`
unfoldable pub retriv_operators_information : List ℕ → Option OperatorInformation
retriv_operators_information response =
    if starts_with (codes "+QNWINFO:") response
    then (do
      rest ← scan_char 34 (skip_space (drop 9 response))
      (technology, rest) ← scan_until 19 34 rest
      rest ← scan_char 34 rest
      rest ← scan_char b',' rest
      rest ← scan_char 34 rest
      (operator, rest) ← scan_until 9 34 rest
      rest ← scan_char 34 rest
      rest ← scan_char b',' rest
      rest ← scan_char 34 rest
      (band, rest) ← scan_until 19 34 rest
      rest ← scan_char 34 rest
      rest ← scan_char b',' rest
      (channel, rest) ← scan_int rest
      some (record {
        mcc = atoi (take 3 operator);
        mnc = atoi (take 3 (drop 3 operator));
        channel = channel;
        band = band;
      }))
    else none

-- What `RetrievingTimeAndDate` keeps of an answer.
pub record TimeAndDate : Type 0 where
  pub date : List ℕ
  pub time : List ℕ

-- `strncpy (field, DateAndTimePart + offset, 2)`. Behind the line the buffer holds zeros.
abbrev two_digits : ℕ → List ℕ → List ℕ
two_digits offset part = take 2 (drop offset part)

-- `RetrievingTimeAndDate::retrieveNetworkTime`
unfoldable pub retrieve_network_time : List ℕ → Option TimeAndDate
retrieve_network_time response =
    let part = drop 8 response in
    if starts_with (codes "+QLTS: ") response
    then some (record {
      date = take 6 (two_digits 8 part ++ two_digits 5 part ++ two_digits 2 part);
      time = take 6 (two_digits 11 part ++ two_digits 14 part ++ two_digits 17 part);
    })
    else none
