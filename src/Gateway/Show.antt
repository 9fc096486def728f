-- ===== src/Gateway/Show.antt =====
-- "%d" and "%lld", with which Modules/Gateway writes numbers.
use gateway_lo_ra.Prelude.{
  ℕ, zero, suc, ◌+◌, ◌/◌, ◌%◌, List, [], ◌∷◌, ◌++◌, ltb, if◌then◌else◌, ℤ, pos, negsuc,
}

-- The decimal digits of a number that has this many at most.
unfoldable pub show_digits : ℕ → ℕ → List ℕ
show_digits zero n = []
show_digits (suc k) n =
    let rest = show_digits k (n / 10) in
    if ltb n 10 then (48 + n) ∷ [] else rest ++ (48 + n % 10) ∷ []

-- A number of 64 bits has 20 digits at most.
unfoldable pub show_ℕ : ℕ → List ℕ
show_ℕ n = show_digits 20 n

unfoldable pub show_ℤ : ℤ → List ℕ
show_ℤ (pos n) = show_ℕ n
show_ℤ (negsuc n) = b'-' ∷ show_ℕ (suc n)
