-- ===== src/Prelude/Bytes.antt =====
-- Bytes and C strings. A string is the list of its bytes, without the terminator.
use Prim.Native.Nat.{ℕ, ◌≤◌}
use Prim.Native.Char.{code}
use Prim.Native.String.{String}
use mathlib.Core.Path.{◌≡◌, refl}
use mathlib.Core.Bool.{Bool, true, false, ◌&&◌}
use mathlib.Core.Logic.{◌≢◌, ◌↔◌}
use mathlib.Core.List.{List, [], ◌∷◌, ◌++◌}
use native.Mathlib.Omega.{arith}
use gateway_lo_ra.Prelude.Tests.{◌==◌, if◌then◌else◌}
use gateway_lo_ra.Prelude.Lists.{length}

-- The code points of a text: its bytes, for the ASCII texts of the program.
abbrev pub codes : String → List ℕ
codes String.[] = []
codes (String.◌∷◌ c s) = code c ∷ codes s

-- `strcmp (a, b) == 0`
unfoldable pub eq_bytes : List ℕ → List ℕ → Bool
eq_bytes [] [] = true
eq_bytes [] (b ∷ ys) = false
eq_bytes (a ∷ xs) [] = false
eq_bytes (a ∷ xs) (b ∷ ys) = a == b && eq_bytes xs ys

-- `strncmp (s, p, strlen (p)) == 0`
unfoldable pub starts_with : List ℕ → List ℕ → Bool
starts_with [] s = true
starts_with (p ∷ ps) [] = false
starts_with (p ∷ ps) (c ∷ s) = p == c && starts_with ps s

-- The C string that begins a block of memory: the bytes before the first 0.
unfoldable pub c_string : List ℕ → List ℕ
c_string [] = []
c_string (c ∷ cs) = if c == 0 then [] else c ∷ c_string cs

abbrev pub NoZero : List ℕ → Type 0
NoZero [] = Unit {0}
NoZero (c ∷ cs) = (c ≢ 0) × NoZero cs

pub c_string_of_NoZero : (s : List ℕ) → NoZero s → c_string s ≡ s
unfolding c_string
c_string_of_NoZero [] h = refl
c_string_of_NoZero (c ∷ cs) h = ground (arith, c_string_of_NoZero cs h.1)

pub c_string-append_zero : (s r : List ℕ) → NoZero s → c_string (s ++ 0 ∷ r) ≡ s
unfolding c_string
c_string-append_zero [] r h = refl
c_string-append_zero (c ∷ cs) r h = ground (arith, c_string-append_zero cs r h.1)

pub c_string-NoZero : (s : List ℕ) → NoZero (c_string s)
unfolding c_string
c_string-NoZero [] = tt
c_string-NoZero (c ∷ cs) = ground (arith, c_string-NoZero cs)

pub length-c_string : (s : List ℕ) → length (c_string s) ≤ length s
unfolding c_string
length-c_string [] = omega arith
length-c_string (c ∷ cs) = ground (arith, length-c_string cs)

pub NoZero-append : (s t : List ℕ) → NoZero s → NoZero t → NoZero (s ++ t)
NoZero-append [] t h k = k
NoZero-append (c ∷ cs) t h k = (h.0, NoZero-append cs t h.1 k)

pub eq_bytes_iff : (a b : List ℕ) → (eq_bytes a b ≡ true) ↔ (a ≡ b)
unfolding eq_bytes
eq_bytes_iff [] [] = ground arith
eq_bytes_iff [] (b ∷ ys) = ground arith
eq_bytes_iff (a ∷ xs) [] = ground arith
eq_bytes_iff (a ∷ xs) (b ∷ ys) = ground (arith, eq_bytes_iff xs ys)

pub eq_bytes_refl : (a : List ℕ) → eq_bytes a a ≡ true
eq_bytes_refl a = (eq_bytes_iff a a).1 refl
