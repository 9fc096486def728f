-- ===== src/Messages/Hex.antt =====
-- "%08X" and "%8X", with which Modules/MessageHandler writes and reads a checksum.
use gateway_lo_ra.Prelude.{
  ℕ, suc, ◌+◌, ◌-◌, ◌*◌, ◌/◌, ◌%◌, ◌^◌, ◌≤◌, ◌<◌, ◌≡◌, refl, ◌∙◌, ap, true, false, List, [], ◌∷◌,
  Option, none, some, ltb, ◌==◌, if◌then◌else◌, length, NoZero, arith, hex_value, scan_hex_digits,
  skip_hex_prefix, is_hex, skip_space,
}

-- a digit of "%X"
abbrev pub hex_digit : ℕ → ℕ
hex_digit d = if ltb d 10 then b'0' + d else b'A' + (d - 10)

-- `sprintf (crcStr, "%08X", crc)`, of 32 bits
unfoldable pub hex8 : ℕ → List ℕ
hex8 n =
    hex_digit (n / 268435456 % 16)
    ∷ hex_digit (n / 16777216 % 16)
    ∷ hex_digit (n / 1048576 % 16)
    ∷ hex_digit (n / 65536 % 16)
    ∷ hex_digit (n / 4096 % 16)
    ∷ hex_digit (n / 256 % 16)
    ∷ hex_digit (n / 16 % 16)
    ∷ hex_digit (n % 16)
    ∷ []

-- the number without its sign
unfoldable pub scan_hex_unsigned : List ℕ → Option ℕ
scan_hex_unsigned [] = none
scan_hex_unsigned (c ∷ cs) =
    if is_hex c then some (scan_hex_digits 8 0 (skip_hex_prefix (c ∷ cs))) else none

abbrev minus : Option ℕ → Option ℕ
minus none = none
minus (some n) = some ((2 ^ 32 - n) % 2 ^ 32)

unfoldable pub scan_hex_signed : List ℕ → Option ℕ
scan_hex_signed [] = none
scan_hex_signed (c ∷ cs) =
    if c == b'-'
    then minus (scan_hex_unsigned cs)
    else if c == b'+'
    then scan_hex_unsigned cs
    else scan_hex_unsigned (c ∷ cs)

-- `sscanf (cs, "%8X", &crc)` of eight characters: none where nothing is converted
unfoldable pub scan_hex8 : List ℕ → Option ℕ
scan_hex8 cs = scan_hex_signed (skip_space cs)

module _ (d : ℕ) (h : d < 16) where
  hex_value-hex_digit : hex_value (hex_digit d) ≡ some d
  unfolding hex_value
  hex_value-hex_digit = ground arith

  -- A digit is no white space, no sign and no x.
  hex_digit_plain : (48 ≤ hex_digit d) × (hex_digit d ≤ 70)
  hex_digit_plain = ground arith

scan_hex_digits-suc :
    (w n d : ℕ) (cs : List ℕ)
    → d < 16
    → scan_hex_digits (suc w) n (hex_digit d ∷ cs) ≡ scan_hex_digits w (n * 16 + d) cs
unfolding scan_hex_digits hex_value
scan_hex_digits-suc w n d cs h = ground arith

hex_digit-is_hex : (d : ℕ) → d < 16 → is_hex (hex_digit d) ≡ true
hex_digit-is_hex d h = ap (λ o. elim o [ none ↦ false | some v ↦ true ]) (hex_value-hex_digit d h)

-- Two digits at the front are read as they are: no space, no sign, no prefix.
module _ (a b : ℕ) (cs : List ℕ) (h : 48 ≤ a) (k : b ≤ 70) where
  skip_hex_prefix_plain : skip_hex_prefix (a ∷ b ∷ cs) ≡ a ∷ b ∷ cs
  unfolding skip_hex_prefix
  skip_hex_prefix_plain = elim cs as (λ r. skip_hex_prefix (a ∷ b ∷ r) ≡ a ∷ b ∷ r) [
    | [] ↦ refl
    | c ∷ r ↦ ground arith
  ]

  skip_space_plain : skip_space (a ∷ b ∷ cs) ≡ a ∷ b ∷ cs
  unfolding skip_space
  skip_space_plain = ground arith

  scan_hex_unsigned_plain :
      is_hex a ≡ true → scan_hex_unsigned (a ∷ b ∷ cs) ≡ some (scan_hex_digits 8 0 (a ∷ b ∷ cs))
  unfolding scan_hex_unsigned
  scan_hex_unsigned_plain i = rw (i, skip_hex_prefix_plain) refl

  scan_hex_signed_plain : scan_hex_signed (a ∷ b ∷ cs) ≡ scan_hex_unsigned (a ∷ b ∷ cs)
  unfolding scan_hex_signed
  scan_hex_signed_plain = ground arith

  scan_hex8_plain :
      is_hex a ≡ true → scan_hex8 (a ∷ b ∷ cs) ≡ some (scan_hex_digits 8 0 (a ∷ b ∷ cs))
  unfolding scan_hex8
  scan_hex8_plain i =
      ap scan_hex_signed skip_space_plain ∙ scan_hex_signed_plain ∙ scan_hex_unsigned_plain i

scan_hex_digits_zero : (n : ℕ) (cs : List ℕ) → scan_hex_digits 0 n cs ≡ n
unfolding scan_hex_digits
scan_hex_digits_zero n cs = refl

-- The value of eight digits.
fold8 :
    (a b c d e f g h : ℕ)
    → a < 16
    → b < 16
    → c < 16
    → d < 16
    → e < 16
    → f < 16
    → g < 16
    → h < 16
    → scan_hex_digits 8 0 (
        hex_digit a
        ∷ hex_digit b
        ∷ hex_digit c
        ∷ hex_digit d
        ∷ hex_digit e
        ∷ hex_digit f
        ∷ hex_digit g
        ∷ hex_digit h
        ∷ [])
      ≡ (((((((0 * 16 + a) * 16 + b) * 16 + c) * 16 + d) * 16 + e) * 16 + f) * 16 + g) * 16 + h
fold8 a b c d e f g h ha hb hc hd he hf hg hh =
    scan_hex_digits-suc 7 (0) a
      (hex_digit b
        ∷ hex_digit c
        ∷ hex_digit d
        ∷ hex_digit e
        ∷ hex_digit f
        ∷ hex_digit g
        ∷ hex_digit h
        ∷ [])
      ha
    ∙ scan_hex_digits-suc 6 ((0) * 16 + a) b
        (hex_digit c ∷ hex_digit d ∷ hex_digit e ∷ hex_digit f ∷ hex_digit g ∷ hex_digit h ∷ []) hb
    ∙ scan_hex_digits-suc 5 (((0) * 16 + a) * 16 + b) c
        (hex_digit d ∷ hex_digit e ∷ hex_digit f ∷ hex_digit g ∷ hex_digit h ∷ []) hc
    ∙ scan_hex_digits-suc 4 ((((0) * 16 + a) * 16 + b) * 16 + c) d
        (hex_digit e ∷ hex_digit f ∷ hex_digit g ∷ hex_digit h ∷ []) hd
    ∙ scan_hex_digits-suc 3 (((((0) * 16 + a) * 16 + b) * 16 + c) * 16 + d) e
        (hex_digit f ∷ hex_digit g ∷ hex_digit h ∷ []) he
    ∙ scan_hex_digits-suc 2 ((((((0) * 16 + a) * 16 + b) * 16 + c) * 16 + d) * 16 + e) f
        (hex_digit g ∷ hex_digit h ∷ []) hf
    ∙ scan_hex_digits-suc 1 (((((((0) * 16 + a) * 16 + b) * 16 + c) * 16 + d) * 16 + e) * 16 + f) g
        (hex_digit h ∷ []) hg
    ∙ scan_hex_digits-suc 0
        ((((((((0) * 16 + a) * 16 + b) * 16 + c) * 16 + d) * 16 + e) * 16 + f) * 16 + g) h [] hh
    ∙ scan_hex_digits_zero
        (((((((((0) * 16 + a) * 16 + b) * 16 + c) * 16 + d) * 16 + e) * 16 + f) * 16 + g) * 16 + h)
        []

-- That it is the number from which the digits were made.
digits_value :
    (n : ℕ)
    → n < 2 ^ 32
    → (((((((0 * 16 + n / 268435456 % 16) * 16 + n / 16777216 % 16) * 16 + n / 1048576 % 16) * 16
                        + n / 65536 % 16)
                      * 16
                    + n / 4096 % 16)
                  * 16
                + n / 256 % 16)
              * 16
            + n / 16 % 16)
          * 16
        + n % 16
      ≡ n
digits_value n h = omega arith

digit_bound : (n : ℕ) → n % 16 < 16
digit_bound n = omega arith

pub scan_hex8-hex8 : (n : ℕ) → n < 2 ^ 32 → scan_hex8 (hex8 n) ≡ some n
unfolding hex8
scan_hex8-hex8 n h =
    scan_hex8_plain _ _ _ (hex_digit_plain _ (digit_bound (n / 268435456))).0
      (hex_digit_plain _ (digit_bound (n / 16777216))).1
      (hex_digit-is_hex _ (digit_bound (n / 268435456)))
    ∙ ap some (
        fold8 _ _ _ _ _ _ _ _ (digit_bound (n / 268435456)) (digit_bound (n / 16777216))
          (digit_bound (n / 1048576)) (digit_bound (n / 65536)) (digit_bound (n / 4096))
          (digit_bound (n / 256)) (digit_bound (n / 16)) (digit_bound n)
        ∙ digits_value n h)

pub hex8-NoZero : (n : ℕ) → NoZero (hex8 n)
unfolding hex8
hex8-NoZero n = ground arith

pub length-hex8 : (n : ℕ) → length (hex8 n) ≡ 8
unfolding hex8
length-hex8 n = refl
