-- ===== src/Gateway/Decimal.antt =====
-- The decimal numbers that Modules/Gateway writes with "%d", read back by `sscanf` with "%d".
use gateway_lo_ra.Prelude.{
  ℕ, zero, suc, ◌+◌, ◌*◌, ◌/◌, ◌%◌, ◌^◌, ◌<◌, ◌≤◌, ◌≡◌, ◌↔◌, refl, sym, ◌∙◌, ap, Bool, true, false,
  List, [], ◌∷◌, ◌++◌, some, arith, is_digit, length, scan_digits, scan_ℕ, scan_int, scan_decimal,
  clamp, clamp_first, scan_long_long, skip_space, scan_signed, pos, append_assoc, append_nil,
  length-append, ltb, if◌then◌else◌, is_free_of,
}
use gateway_lo_ra.Gateway.Show.{show_digits, show_ℕ}

abbrev pub is_digit_first : List ℕ → Bool
is_digit_first [] = false
is_digit_first (c ∷ cs) = is_digit c

-- A text that goes on with something else than a digit, or ends.
abbrev pub is_digit_free : List ℕ → Bool
is_digit_free [] = true
is_digit_free (c ∷ cs) = if is_digit c then false else true

is_digit_first-append :
    (xs ys : List ℕ) → is_digit_first xs ≡ true → is_digit_first (xs ++ ys) ≡ true
is_digit_first-append [] ys h = ground arith
is_digit_first-append (x ∷ xs) ys h = h

show_digits-first : (k n : ℕ) → is_digit_first (show_digits (suc k) n) ≡ true
unfolding show_digits
show_digits-first zero n = ground arith
show_digits-first (suc k) n = ground (
  arith,
  is_digit_first-append (show_digits (suc k) (n / 10)) ((48 + n % 10) ∷ [])
      (show_digits-first k (n / 10)),
)

last_digit :
    (n : ℕ) (rest : List ℕ) → scan_digits (n / 10) ((48 + n % 10) ∷ rest) ≡ scan_digits n rest
unfolding scan_digits
last_digit n rest =
    let e : n / 10 * 10 + n % 10 ≡ n = omega arith in ground (arith, ap (λ k. scan_digits k rest) e)

scan_digits-show_digits :
    (k n : ℕ) (rest : List ℕ)
    → n < 10 ^ k
    → scan_digits 0 (show_digits k n ++ rest) ≡ scan_digits n rest
unfolding scan_digits show_digits
scan_digits-show_digits zero n rest h =
    let e : n ≡ 0 = omega arith in ap (λ k. scan_digits k rest) (sym e)
scan_digits-show_digits (suc k) n rest h =
    let lt : n / 10 < 10 ^ k = omega arith in
    ground (
      arith,
      append_assoc (show_digits k (n / 10)) ((48 + n % 10) ∷ []) rest,
      scan_digits-show_digits k (n / 10) ((48 + n % 10) ∷ rest) lt,
      last_digit n rest,
    )

scan_digits-digit_free :
    (n : ℕ) (rest : List ℕ) → is_digit_free rest ≡ true → scan_digits n rest ≡ (n, rest)
unfolding scan_digits
scan_digits-digit_free n [] h = refl
scan_digits-digit_free n (c ∷ cs) h = ground arith

scan_decimal-digits :
    (cs : List ℕ)
    → is_digit_first cs ≡ true
    → scan_decimal cs ≡ some (pos (scan_digits 0 cs).0, (scan_digits 0 cs).1)
unfolding scan_decimal skip_space scan_signed scan_ℕ scan_digits
scan_decimal-digits [] h = ground arith
scan_decimal-digits (c ∷ cs) h = ground arith

scan_decimal-show_ℕ :
    (n : ℕ) (rest : List ℕ)
    → n < 10 ^ 20
    → is_digit_free rest ≡ true
    → scan_decimal (show_ℕ n ++ rest) ≡ some (pos n, rest)
unfolding show_ℕ
scan_decimal-show_ℕ n rest h k = ground (
  arith,
  scan_decimal-digits (show_digits 20 n ++ rest)
      (is_digit_first-append (show_digits 20 n) rest (show_digits-first 19 n)),
  scan_digits-show_digits 20 n rest h,
  scan_digits-digit_free n rest k,
)

clamp_int : (n : ℕ) → n < 2 ^ 31 → clamp 31 (pos n) ≡ pos n
unfolding clamp
clamp_int n h = ap pos (omega arith)

clamp_long_long : (n : ℕ) → n < 2 ^ 63 → clamp 63 (pos n) ≡ pos n
unfolding clamp
clamp_long_long n h = ap pos (omega arith)

-- A number that "%d" wrote is the number that "%d" reads, up to what follows it.
pub scan_int-show_ℕ :
    (n : ℕ) (rest : List ℕ)
    → n < 2 ^ 31
    → is_digit_free rest ≡ true
    → scan_int (show_ℕ n ++ rest) ≡ some (pos n, rest)
unfolding scan_int clamp_first
scan_int-show_ℕ n rest h k =
    ap (clamp_first 31) (scan_decimal-show_ℕ n rest (omega arith) k)
    ∙ ap (λ z. some (z, rest)) (clamp_int n h)

-- The same for "%lld".
pub scan_long_long-show_ℕ :
    (n : ℕ) (rest : List ℕ)
    → n < 2 ^ 63
    → is_digit_free rest ≡ true
    → scan_long_long (show_ℕ n ++ rest) ≡ some (pos n, rest)
unfolding scan_long_long clamp_first
scan_long_long-show_ℕ n rest h k =
    ap (clamp_first 63) (scan_decimal-show_ℕ n rest (omega arith) k)
    ∙ ap (λ z. some (z, rest)) (clamp_long_long n h)

pub scan_int-show_ℕ_end : (n : ℕ) → n < 2 ^ 31 → scan_int (show_ℕ n) ≡ some (pos n, [])
scan_int-show_ℕ_end n h = ap scan_int (sym (append_nil (show_ℕ n))) ∙ scan_int-show_ℕ n [] h refl

length-show_digits :
    (k n : ℕ)
    → length (show_digits (suc k) n) ≡ (if ltb n 10 then 1 else length (show_digits k (n / 10)) + 1)
unfolding show_digits
length-show_digits k n = ground (arith, length-append (show_digits k (n / 10)) ((48 + n % 10) ∷ []))

-- A number is written with three digits at most exactly when it is below a thousand.
pub length-show_ℕ : (n : ℕ) → (length (show_ℕ n) ≤ 3) ↔ (n < 1000)
unfolding show_ℕ
length-show_ℕ n = ground (
  arith,
  length-show_digits 19 n,
  length-show_digits 18 (n / 10),
  length-show_digits 17 (n / 10 / 10),
  length-show_digits 16 (n / 10 / 10 / 10),
)

is_free_of-append :
    (k : ℕ) (xs ys : List ℕ)
    → is_free_of k xs ≡ true
    → is_free_of k ys ≡ true
    → is_free_of k (xs ++ ys) ≡ true
is_free_of-append k [] ys h e = e
is_free_of-append k (c ∷ cs) ys h e = ground (arith, is_free_of-append k cs ys)

show_digits-free :
    (stop k n : ℕ)
    → stop < 48
    → (is_free_of stop (show_digits k n) ≡ true) × (length (show_digits k n) ≤ k)
unfolding show_digits
show_digits-free stop zero n h = (refl, omega arith)
show_digits-free stop (suc k) n h = ground (
  arith,
  show_digits-free stop k (n / 10),
  length-append (show_digits k (n / 10)) ((48 + n % 10) ∷ []),
  is_free_of-append stop (show_digits k (n / 10)) ((48 + n % 10) ∷ []),
)

-- A number is written with digits alone, 20 at most, and one at least.
pub show_ℕ-free :
    (stop n : ℕ)
    → stop < 48
    → (is_free_of stop (show_ℕ n) ≡ true)
      × (length (show_ℕ n) ≤ 20)
      × (is_digit_first (show_ℕ n) ≡ true)
unfolding show_ℕ
show_ℕ-free stop n h =
    let free = show_digits-free stop 20 n h in (free.0, free.1, show_digits-first 19 n)
