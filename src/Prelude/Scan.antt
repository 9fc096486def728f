-- ===== src/Prelude/Scan.antt =====
-- The conversions of the C library that the program uses: `sscanf` with `%d`, `%[^c]` and literal
-- text, `atoi`, and `strtol` in base 16. A conversion takes the text that is left and returns the
-- value with the rest, or `none` where `sscanf` stops. A decimal that does not fit in its type is
-- undefined in C; here it is the nearest number of the type, as `strtol` makes it.
use gateway_lo_ra.Prelude.Tests.{leb, ◌==◌, if◌then◌else◌}
use gateway_lo_ra.Prelude.Lists.{length}
use gateway_lo_ra.Prelude.Int.{ℤ, pos, negsuc, sub_ℕ}
use Prim.Native.Nat.{ℕ, zero, suc, ◌+◌, ◌-◌, ◌*◌, ◌^◌, min}
use mathlib.Core.Bool.{Bool, true, false, ◌&&◌, ◌||◌}
use mathlib.Core.Option.{Option, none, some}
use mathlib.Core.List.{List, [], ◌∷◌}

infixl 5 ◌>>=◌
abbrev pub ◌>>=◌ {ℓ κ} : {A : Type ℓ} {B : Type κ} → Option A → (A → Option B) → Option B
none >>= f = none
some a >>= f = f a

abbrev pub is_digit : ℕ → Bool
is_digit c = leb b'0' c && leb c b'9'

-- `isspace`: blank, and the controls 9 to 13
abbrev pub is_space : ℕ → Bool
is_space c = c == 32 || leb 9 c && leb c 13

unfoldable pub skip_space : List ℕ → List ℕ
skip_space [] = []
skip_space (c ∷ cs) = if is_space c then skip_space cs else c ∷ cs

-- The digits at the front, as a number that goes on from `n`, and the rest.
unfoldable pub scan_digits : ℕ → List ℕ → ℕ × List ℕ
scan_digits n [] = (n, [])
scan_digits n (c ∷ cs) = if is_digit c then scan_digits (n * 10 + (c - b'0')) cs else (n, c ∷ cs)

-- one digit or more
unfoldable pub scan_ℕ : List ℕ → Option (ℕ × List ℕ)
scan_ℕ [] = none
scan_ℕ (c ∷ cs) = if is_digit c then some (scan_digits (c - b'0') cs) else none

abbrev negated : Option (ℕ × List ℕ) → Option (ℤ × List ℕ)
negated none = none
negated (some (n, cs)) = some (sub_ℕ 0 n, cs)

abbrev positive : Option (ℕ × List ℕ) → Option (ℤ × List ℕ)
positive none = none
positive (some (n, cs)) = some (pos n, cs)

unfoldable pub scan_signed : List ℕ → Option (ℤ × List ℕ)
unfolding scan_ℕ
scan_signed [] = none
scan_signed (c ∷ cs) =
    if c == b'-'
    then negated (scan_ℕ cs)
    else if c == b'+'
    then positive (scan_ℕ cs)
    else positive (scan_ℕ (c ∷ cs))

-- The decimal at the front, behind blanks.
unfoldable pub scan_decimal : List ℕ → Option (ℤ × List ℕ)
unfolding skip_space scan_signed
scan_decimal cs = scan_signed (skip_space cs)

-- The nearest integer of this many bits, and a sign.
unfoldable pub clamp : ℕ → ℤ → ℤ
clamp bits (pos n) = pos (min (2 ^ bits - 1) n)
clamp bits (negsuc n) = negsuc (min (2 ^ bits - 1) n)

unfoldable pub clamp_first : ℕ → Option (ℤ × List ℕ) → Option (ℤ × List ℕ)
unfolding clamp
clamp_first bits none = none
clamp_first bits (some (z, cs)) = some (clamp bits z, cs)

-- `%d`, into an `int` of 32 bits
unfoldable pub scan_int : List ℕ → Option (ℤ × List ℕ)
unfolding scan_decimal clamp_first
scan_int cs = clamp_first 31 (scan_decimal cs)

-- `%lld`, into a `long long` of 64 bits
unfoldable pub scan_long_long : List ℕ → Option (ℤ × List ℕ)
unfolding scan_decimal clamp_first
scan_long_long cs = clamp_first 63 (scan_decimal cs)

-- a literal character of the format that is no blank
unfoldable pub scan_char : ℕ → List ℕ → Option (List ℕ)
scan_char k [] = none
scan_char k (c ∷ cs) = if c == k then some cs else none

-- The bytes before the first `stop`, `width` at most, and the rest.
unfoldable pub span_until : ℕ → ℕ → List ℕ → List ℕ × List ℕ
span_until zero stop cs = ([], cs)
span_until (suc width) stop [] = ([], [])
span_until (suc width) stop (c ∷ cs) =
    let (word, rest) = span_until width stop cs in
    if c == stop then ([], c ∷ cs) else (c ∷ word, rest)

abbrev nonempty_word : List ℕ × List ℕ → Option (List ℕ × List ℕ)
nonempty_word ([], rest) = none
nonempty_word (c ∷ word, rest) = some (c ∷ word, rest)

-- `%<width>[^<stop>]`: one byte at least
unfoldable pub scan_until : ℕ → ℕ → List ℕ → Option (List ℕ × List ℕ)
unfolding span_until
scan_until width stop cs = nonempty_word (span_until width stop cs)

abbrev int_or_zero : Option (ℤ × List ℕ) → ℤ
int_or_zero none = pos 0
int_or_zero (some (z, cs)) = z

-- `atoi`: 0 where there is no number
unfoldable pub atoi : List ℕ → ℤ
unfolding scan_int
atoi cs = int_or_zero (scan_int cs)

-- `atoll`
unfoldable pub atoll : List ℕ → ℤ
unfolding scan_long_long
atoll cs = int_or_zero (scan_long_long cs)

-- the value of a hexadecimal digit
unfoldable pub hex_value : ℕ → Option ℕ
hex_value c =
    if is_digit c
    then some (c - b'0')
    else (if leb b'A' c && leb c b'F'
        then some (c - b'A' + 10)
        else if leb b'a' c && leb c b'f'
        then some (c - b'a' + 10)
        else none)

-- The hexadecimal digits at the front, `width` at most, as a number that goes on from `n`.
unfoldable pub scan_hex_digits : ℕ → ℕ → List ℕ → ℕ
unfolding hex_value
scan_hex_digits zero n cs = n
scan_hex_digits (suc width) n [] = n
scan_hex_digits (suc width) n (c ∷ cs) = elim (hex_value c) [
  | none ↦ n
  | some d ↦ scan_hex_digits width (n * 16 + d) cs
]

abbrev pub is_hex : ℕ → Bool
is_hex c = elim (hex_value c) [ none ↦ false | some d ↦ true ]

-- a "0x" that a digit follows
unfoldable pub skip_hex_prefix : List ℕ → List ℕ
unfolding hex_value
skip_hex_prefix (a ∷ b ∷ d ∷ cs) =
    if a == b'0' && (b == b'x' || b == b'X') && is_hex d then d ∷ cs else a ∷ b ∷ d ∷ cs
skip_hex_prefix cs = cs

abbrev hex_magnitude : List ℕ → ℕ
hex_magnitude cs = scan_hex_digits (length (skip_hex_prefix cs)) 0 (skip_hex_prefix cs)

unfoldable pub hex_signed : List ℕ → ℤ
unfolding scan_hex_digits skip_hex_prefix
hex_signed [] = pos 0
hex_signed (c ∷ cs) =
    if c == b'-'
    then sub_ℕ 0 (min (2 ^ 31) (hex_magnitude cs))
    else if c == b'+'
    then pos (min (2 ^ 31 - 1) (hex_magnitude cs))
    else pos (min (2 ^ 31 - 1) (hex_magnitude (c ∷ cs)))

-- `strtol (cs, nullptr, 16)` into a `long` of 32 bits
unfoldable pub strtol_hex : List ℕ → ℤ
unfolding skip_space hex_signed
strtol_hex cs = hex_signed (skip_space cs)
