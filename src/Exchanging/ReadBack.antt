-- ===== src/Exchanging/ReadBack.antt =====
-- The server's answer, as Modules/Gateway/GatewayState/ExchangingMessages reads it.
use gateway_lo_ra.Prelude.{
  ℕ, ◌≡◌, refl, List, [], ◌∷◌, some, arith, codes, starts_with, ◌+◌, ◌^◌, ◌<◌, ◌≤◌, ◌∙◌, ap, Bool,
  true, false, ◌&&◌, ◌++◌, ◌==◌, eq_bytes, if◌then◌else◌, length, is_free_of, pos, atoi, sym,
  append_assoc,
}
use gateway_lo_ra.Gateway.Show.{show_ℕ}
use gateway_lo_ra.Exchanging.Answer.{
  extract_field, field_size, key, LatencyLevel, extremely_low_latency, very_low_latency,
  low_latency, medium_latency, high_latency, very_high_latency, extremely_high_latency,
  OperationMode, normal_operation_mode, pursuit_operation_mode, silent_operation_mode,
  parse_latency_level, parse_operation_mode, ServerAnswer, understood, silenced, read_answer,
  read_latency, read_mode, read_silent_time,
}
use gateway_lo_ra.Gateway.Decimal.{scan_int-show_ℕ_end, show_ℕ-free, is_digit_first}
use gateway_lo_ra.Exchanging.Fields.{field, extract_field-field, is_before}

-- The names of the levels and of the modes.
abbrev pub latency_name : LatencyLevel → List ℕ
latency_name extremely_low_latency = codes "ELL"
latency_name very_low_latency = codes "VLL"
latency_name low_latency = codes "LL"
latency_name medium_latency = codes "ML"
latency_name high_latency = codes "HL"
latency_name very_high_latency = codes "VHL"
latency_name extremely_high_latency = codes "EHL"

abbrev pub mode_name : OperationMode → List ℕ
mode_name normal_operation_mode = codes "NOPM"
mode_name pursuit_operation_mode = codes "POPM"
mode_name silent_operation_mode = codes "SOPM"

-- {"SUCS":"true","LTCY":"level","MODE":"mode","TSOP":"hours"}
abbrev pub server_text : LatencyLevel → OperationMode → ℕ → List ℕ
server_text l m n =
    b'{'
    ∷ field (codes "SUCS") (codes "true") (
        b','
        ∷ field (codes "LTCY") (latency_name l) (
            b','
            ∷ field (codes "MODE") (mode_name m)
                (b',' ∷ field (codes "TSOP") (show_ℕ n) (b'}' ∷ []))))

field_success :
    (l : LatencyLevel) (m : OperationMode) (n : ℕ)
    → extract_field (server_text l m n) (key (codes "SUCS")) field_size ≡ some (codes "true")
unfolding starts_with
field_success l m n =
    extract_field-field (b'{' ∷ []) (codes "SUCS") (codes "rue") _ b't' field_size refl refl refl
      refl refl (omega arith)

-- A value that is read back from between quotes.
abbrev is_value : List ℕ → Bool
is_value [] = false
is_value (c ∷ cs) =
    (if c == 32 then false else true) && (is_free_of 34 (c ∷ cs) && is_free_of b',' (c ∷ cs))

extract_field-value :
    (pre name value post : List ℕ) (max_len : ℕ)
    → is_before (key name) pre (field name value post) ≡ true
    → is_free_of b':' (key name) ≡ true
    → is_value value ≡ true
    → length value + 1 ≤ max_len
    → extract_field (pre ++ field name value post) (key name) max_len ≡ some value
extract_field-value pre name [] post max_len before colon value fits = ground arith
extract_field-value pre name (v ∷ value) post max_len before colon h fits =
    ground (arith, extract_field-field pre name value post v max_len before colon)

latency_value :
    (l : LatencyLevel) → (is_value (latency_name l) ≡ true) × (length (latency_name l) ≤ 3)
latency_value l = ground arith

mode_value : (m : OperationMode) → (is_value (mode_name m) ≡ true) × (length (mode_name m) ≤ 4)
mode_value m = ground arith

abbrev up_to_latency : List ℕ
up_to_latency = b'{' ∷ field (codes "SUCS") (codes "true") (b',' ∷ [])

abbrev up_to_mode : LatencyLevel → List ℕ
up_to_mode l = up_to_latency ++ field (codes "LTCY") (latency_name l) (b',' ∷ [])

abbrev up_to_time : LatencyLevel → OperationMode → List ℕ
up_to_time l m = up_to_mode l ++ field (codes "MODE") (mode_name m) (b',' ∷ [])

mode_before :
    (l : LatencyLevel) (value post : List ℕ)
    → is_before (key (codes "MODE")) (up_to_mode l) (field (codes "MODE") value post) ≡ true
unfolding starts_with
mode_before l value post = ground arith

time_before :
    (l : LatencyLevel) (m : OperationMode) (value post : List ℕ)
    → is_before (key (codes "TSOP")) (up_to_time l m) (field (codes "TSOP") value post) ≡ true
unfolding starts_with
time_before l m value post = ground arith

digit_value :
    (cs : List ℕ)
    → is_digit_first cs ≡ true
    → is_free_of 34 cs ≡ true
    → is_free_of b',' cs ≡ true
    → is_value cs ≡ true
digit_value [] h q c = ground arith
digit_value (d ∷ cs) h q c = ground arith

time_value : (n : ℕ) → (is_value (show_ℕ n) ≡ true) × (length (show_ℕ n) ≤ 20)
time_value n =
    let quote = show_ℕ-free 34 n (omega arith) in
    let comma = show_ℕ-free b',' n (omega arith) in
    (digit_value (show_ℕ n) quote.2 quote.0 comma.0, quote.1)

field-append :
    (name value post rest : List ℕ)
    → field name value post ++ rest ≡ field name value (post ++ rest)
field-append name value post rest =
    append_assoc (key name) (b':' ∷ 34 ∷ (value ++ 34 ∷ post)) rest
    ∙ ap (λ t. key name ++ (b':' ∷ 34 ∷ t)) (append_assoc value (34 ∷ post) rest)

text_mode :
    (l : LatencyLevel) (rest : List ℕ)
    → up_to_mode l ++ rest ≡ up_to_latency ++ field (codes "LTCY") (latency_name l) (b',' ∷ rest)
text_mode l rest =
    ap (λ t. up_to_latency ++ t) (field-append (codes "LTCY") (latency_name l) (b',' ∷ []) rest)

text_time :
    (l : LatencyLevel) (m : OperationMode) (rest : List ℕ)
    → up_to_time l m ++ rest ≡ up_to_mode l ++ field (codes "MODE") (mode_name m) (b',' ∷ rest)
text_time l m rest =
    append_assoc (up_to_mode l) (field (codes "MODE") (mode_name m) (b',' ∷ [])) rest
    ∙ ap (λ t. up_to_mode l ++ t) (field-append (codes "MODE") (mode_name m) (b',' ∷ []) rest)

-- The rest of the text behind each of its fields.
abbrev time_field : ℕ → List ℕ
time_field n = field (codes "TSOP") (show_ℕ n) (b'}' ∷ [])

abbrev mode_field : OperationMode → ℕ → List ℕ
mode_field m n = field (codes "MODE") (mode_name m) (b',' ∷ time_field n)

server_text-mode :
    (l : LatencyLevel) (m : OperationMode) (n : ℕ)
    → server_text l m n ≡ up_to_mode l ++ mode_field m n
server_text-mode l m n = sym (text_mode l (mode_field m n))

server_text-time :
    (l : LatencyLevel) (m : OperationMode) (n : ℕ)
    → server_text l m n ≡ up_to_time l m ++ time_field n
server_text-time l m n = server_text-mode l m n ∙ sym (text_time l m (time_field n))

time_extracted :
    (l : LatencyLevel) (m : OperationMode) (n : ℕ)
    → extract_field (server_text l m n) (key (codes "TSOP")) field_size ≡ some (show_ℕ n)
time_extracted l m n =
    let value = time_value n in
    ap (λ t. extract_field t (key (codes "TSOP")) field_size) (server_text-time l m n)
    ∙ extract_field-value (up_to_time l m) (codes "TSOP") (show_ℕ n) (b'}' ∷ []) field_size
        (time_before l m (show_ℕ n) (b'}' ∷ [])) refl value.0 (omega (arith, value.1))

mode_extracted :
    (l : LatencyLevel) (m : OperationMode) (n : ℕ)
    → extract_field (server_text l m n) (key (codes "MODE")) field_size ≡ some (mode_name m)
mode_extracted l m n =
    ap (λ t. extract_field t (key (codes "MODE")) field_size) (server_text-mode l m n)
    ∙ extract_field-value (up_to_mode l) (codes "MODE") (mode_name m) (b',' ∷ time_field n)
        field_size (mode_before l (mode_name m) (b',' ∷ time_field n)) refl (mode_value m).0
        (omega (arith, (mode_value m).1))

latency_before :
    (value post : List ℕ)
    → is_before (key (codes "LTCY")) up_to_latency (field (codes "LTCY") value post) ≡ true
unfolding starts_with
latency_before value post = refl

latency_extracted :
    (l : LatencyLevel) (m : OperationMode) (n : ℕ)
    → extract_field (server_text l m n) (key (codes "LTCY")) field_size ≡ some (latency_name l)
latency_extracted l m n =
    extract_field-value up_to_latency (codes "LTCY") (latency_name l) (b',' ∷ mode_field m n)
      field_size (latency_before (latency_name l) (b',' ∷ mode_field m n)) refl (latency_value l).0
      (omega (arith, (latency_value l).1))

parse_latency_level-name : (l : LatencyLevel) → parse_latency_level (latency_name l) ≡ some l
unfolding parse_latency_level eq_bytes
parse_latency_level-name l = ground arith

parse_operation_mode-name : (m : OperationMode) → parse_operation_mode (mode_name m) ≡ some m
unfolding parse_operation_mode eq_bytes
parse_operation_mode-name m = ground arith

atoi-show_ℕ : (n : ℕ) → n < 2 ^ 31 → atoi (show_ℕ n) ≡ pos n
unfolding atoi
atoi-show_ℕ n h = ground (arith, scan_int-show_ℕ_end n h)

read_silent_time-text :
    (l : LatencyLevel) (m : OperationMode) (n : ℕ)
    → n < 2 ^ 31
    → read_silent_time (some l) (server_text l m n) ≡ silenced (some l) (pos n)
unfolding read_silent_time
read_silent_time-text l m n h = ground (arith, time_extracted l m n, atoi-show_ℕ n h)

-- What the server's settings are to be read as.
abbrev pub settings : LatencyLevel → OperationMode → ℕ → ServerAnswer
settings l silent_operation_mode n = silenced (some l) (pos n)
settings l m n = understood (some l) (some m)

-- An answer of the server that reports a success, with any level of latency, mode of operation and
-- number of hours below 2^31, is understood: the level and the mode are those that the server
-- wrote, and the hours too where the mode is the silent one.
pub read_answer-server_text :
    (l : LatencyLevel) (m : OperationMode) (n : ℕ)
    → n < 2 ^ 31
    → read_answer (server_text l m n) ≡ settings l m n
unfolding read_answer read_latency read_mode eq_bytes
read_answer-server_text l m n h = ground (
  arith,
  field_success l m n,
  latency_extracted l m n,
  mode_extracted l m n,
  parse_latency_level-name l,
  parse_operation_mode-name m,
  read_silent_time-text l m n h,
)
