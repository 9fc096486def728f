-- ===== src/Prelude/Words.antt =====
-- The words that `sscanf` reads with `%<width>[^<stop>]`, and chains of conversions.
use Prim.Native.Nat.{ℕ, zero, suc, ◌≤◌}
use mathlib.Core.Path.{◌≡◌, refl}
use mathlib.Core.Bool.{Bool, true, false}
use mathlib.Core.Option.{Option, none, some}
use mathlib.Core.List.{List, [], ◌∷◌, ◌++◌}
use native.Mathlib.Omega.{arith}
use gateway_lo_ra.Prelude.Tests.{◌==◌, if◌then◌else◌}
use gateway_lo_ra.Prelude.Lists.{length}
use gateway_lo_ra.Prelude.Scan.{◌>>=◌, span_until, scan_until}

-- A property of the value that a conversion gives, if it gives one.
abbrev pub Holds {ℓ} : {A : Type ℓ} → (A → Type 0) → Option A → Type 0
Holds P none = Unit {0}
Holds P (some a) = P a

pub Holds-bind {ℓ κ} :
    {A : Type ℓ} {B : Type κ} (P : B → Type 0) (o : Option A) (f : A → Option B)
    → ((a : A) → o ≡ some a → Holds P (f a))
    → Holds P (o >>= f)
Holds-bind P none f h = tt
Holds-bind P (some a) f h = h a refl

length-span_until : (width stop : ℕ) (cs : List ℕ) → length (span_until width stop cs).0 ≤ width
unfolding span_until
length-span_until zero stop cs = omega arith
length-span_until (suc width) stop [] = omega arith
length-span_until (suc width) stop (c ∷ cs) = ground (arith, length-span_until width stop cs)

-- A word is as long as its width allows at most.
pub length-scan_until :
    (width stop : ℕ) (cs : List ℕ) (word : List ℕ) (rest : List ℕ)
    → scan_until width stop cs ≡ some (word, rest)
    → length word ≤ width
unfolding scan_until
length-scan_until width stop cs word rest h = ground (arith, length-span_until width stop cs)

-- Whether a text has no `stop` in it.
abbrev pub is_free_of : ℕ → List ℕ → Bool
is_free_of stop [] = true
is_free_of stop (c ∷ cs) = if c == stop then false else is_free_of stop cs

span_until-append :
    (width stop : ℕ) (word rest : List ℕ)
    → is_free_of stop word ≡ true
    → length word ≤ width
    → span_until width stop (word ++ stop ∷ rest) ≡ (word, stop ∷ rest)
unfolding span_until
span_until-append zero stop [] rest h k = refl
span_until-append zero stop (c ∷ cs) rest h k = absurd (omega arith)
span_until-append (suc width) stop [] rest h k = ground arith
span_until-append (suc width) stop (c ∷ cs) rest h k =
    ground (arith, span_until-append width stop cs rest)

-- A word without `stop`, neither empty nor longer than the width, is read up to the `stop`.
pub scan_until-append :
    (width stop c : ℕ) (cs rest : List ℕ)
    → is_free_of stop (c ∷ cs) ≡ true
    → length (c ∷ cs) ≤ width
    → scan_until width stop ((c ∷ cs) ++ stop ∷ rest) ≡ some (c ∷ cs, stop ∷ rest)
unfolding scan_until
scan_until-append width stop c cs rest h k =
    ground (arith, span_until-append width stop (c ∷ cs) rest h k)
