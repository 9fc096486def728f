-- ===== src/Exchanging/Answer.antt =====
-- Modules/Gateway/GatewayState/ExchangingMessages: the fields of the server's answer.
use gateway_lo_ra.Prelude.{
  ℕ, ◌-◌, zero, suc, ◌||◌, List, [], ◌∷◌, ◌++◌, Option, none, some, ◌==◌, codes, eq_bytes,
  starts_with, if◌then◌else◌, ℤ, pos, ltb_ℤ, atoi, ◌>>=◌,
}

-- `strstr`: the text from the first place where the key begins
unfoldable pub find_text : List ℕ → List ℕ → Option (List ℕ)
find_text key [] = none
find_text key (c ∷ cs) =
    let rest = find_text key cs in if starts_with key (c ∷ cs) then some (c ∷ cs) else rest

-- `strchr`, and the text behind the character
unfoldable pub find_behind : ℕ → List ℕ → Option (List ℕ)
find_behind k [] = none
find_behind k (c ∷ cs) = let rest = find_behind k cs in if c == k then some cs else rest

-- `while (*found == ' ' || *found == '\"') found++`
unfoldable pub skip_quotes : List ℕ → List ℕ
skip_quotes [] = []
skip_quotes (c ∷ cs) = let rest = skip_quotes cs in if c == 32 || c == 34 then rest else c ∷ cs

-- The characters before a quote or a comma, this many at most.
unfoldable pub copy_value : ℕ → List ℕ → List ℕ
copy_value zero cs = []
copy_value (suc n) [] = []
copy_value (suc n) (c ∷ cs) =
    let rest = copy_value n cs in if c == 34 || c == b',' then [] else c ∷ rest

-- `extractField`, into a buffer of `max_len` bytes
unfoldable pub extract_field : List ℕ → List ℕ → ℕ → Option (List ℕ)
extract_field json key max_len = do
  found ← find_text key json
  found ← find_behind b':' found
  some (copy_value (max_len - 1) (skip_quotes found))

-- `LatencyLevel_t`
pub data LatencyLevel : Type 0 where
  extremely_low_latency very_low_latency low_latency medium_latency : LatencyLevel
  high_latency very_high_latency extremely_high_latency : LatencyLevel

-- `OperationMode_t`
pub data OperationMode : Type 0 where
  normal_operation_mode pursuit_operation_mode silent_operation_mode : OperationMode

-- `parseLatencyLevel`
unfoldable pub parse_latency_level : List ℕ → Option LatencyLevel
parse_latency_level text =
    if eq_bytes text (codes "ELL")
    then some extremely_low_latency
    else if eq_bytes text (codes "VLL")
    then some very_low_latency
    else if eq_bytes text (codes "LL")
    then some low_latency
    else if eq_bytes text (codes "ML")
    then some medium_latency
    else if eq_bytes text (codes "HL")
    then some high_latency
    else if eq_bytes text (codes "VHL")
    then some very_high_latency
    else if eq_bytes text (codes "EHL")
    then some extremely_high_latency
    else none

-- `parseOperationMode`
unfoldable pub parse_operation_mode : List ℕ → Option OperationMode
parse_operation_mode text =
    if eq_bytes text (codes "NOPM")
    then some normal_operation_mode
    else if eq_bytes text (codes "POPM")
    then some pursuit_operation_mode
    else if eq_bytes text (codes "SOPM")
    then some silent_operation_mode
    else none

-- What the answer comes to, each with what was read of it. The settings are not applied: the
-- source has their calls in comments.
pub data ServerAnswer : Type 0 where
  corrupted refused incomplete : ServerAnswer
  understood : Option LatencyLevel → Option OperationMode → ServerAnswer
  silenced : Option LatencyLevel → ℤ → ServerAnswer

-- The size of the buffers `success`, `latency`, `mode` and `timeSilentString`
abbrev pub field_size : ℕ
field_size = 30

abbrev pub key : List ℕ → List ℕ
key name = 34 ∷ (name ++ 34 ∷ [])

-- "TSOP", for a silent mode
unfoldable pub read_silent_time : Option LatencyLevel → List ℕ → ServerAnswer
read_silent_time latency payload = elim (extract_field payload (key (codes "TSOP")) field_size) [
  | none ↦ incomplete
  | some time ↦ if ltb_ℤ (atoi time) (pos 0) then incomplete else silenced latency (atoi time)
]

-- "MODE"
unfoldable pub read_mode : Option LatencyLevel → List ℕ → ServerAnswer
read_mode latency payload = elim (extract_field payload (key (codes "MODE")) field_size) [
  | none ↦ incomplete
  | some mode ↦ elim (parse_operation_mode mode) [
    | some silent_operation_mode ↦ read_silent_time latency payload
    | m ↦ understood latency m
  ]
]

-- "LTCY"
unfoldable pub read_latency : List ℕ → ServerAnswer
read_latency payload = elim (extract_field payload (key (codes "LTCY")) field_size) [
  | none ↦ incomplete
  | some latency ↦ read_mode (parse_latency_level latency) payload
]

-- "SUCS": the answer of the server, whose message was decoded to this text
unfoldable pub read_answer : List ℕ → ServerAnswer
read_answer payload = elim (extract_field payload (key (codes "SUCS")) field_size) [
  | none ↦ corrupted
  | some success ↦
      if eq_bytes success (codes "true") || eq_bytes success (codes "TRUE")
      then read_latency payload
      else refused
]
