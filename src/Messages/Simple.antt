-- ===== src/Messages/Simple.antt =====
-- Simple functions in the place of the library's, which behave as it is documented, and a message.
use gateway_lo_ra.Prelude.{
  ℕ, zero, suc, ◌+◌, ◌-◌, ◌%◌, ◌^◌, ◌≤◌, ◌<◌, ◌≡◌, refl, ◌∙◌, sym, ap, List, [], ◌∷◌, ◌++◌, none,
  some, arith, codes, length, replicate, NoZero, ltb, leb, if◌then◌else◌, take-append_left,
  length-append, NoZero-append,
}
use gateway_lo_ra.Messages.Base.{decoded, failed, Primitives, IsDocumented, Memory, base64_length}

-- A sum of the bytes, of 32 bits.
abbrev pub sum : List ℕ → ℕ
sum [] = 0
sum (c ∷ cs) = (c + sum cs) % 2 ^ 32

-- An encoding of the length that Base64 has: the bytes, each one more by 2, and behind them 1s.
abbrev shift : List ℕ → List ℕ
shift [] = []
shift (c ∷ cs) = (c + 2) ∷ shift cs

abbrev unshift : List ℕ → List ℕ
unshift [] = []
unshift (c ∷ cs) = if ltb c 2 then [] else (c - 2) ∷ unshift cs

abbrev encoding : List ℕ → List ℕ
encoding s = shift s ++ replicate (base64_length (length s) - length s) 1

length-shift : (s : List ℕ) → length (shift s) ≡ length s
length-shift [] = refl
length-shift (c ∷ cs) = ap suc (length-shift cs)

length-replicate : (n c : ℕ) → length (replicate n c) ≡ n
length-replicate zero c = refl
length-replicate (suc n) c = ap suc (length-replicate n c)

length-encoding : (s : List ℕ) → length (encoding s) ≡ base64_length (length s)
length-encoding s = omega (
  arith,
  length-append (shift s) (replicate (base64_length (length s) - length s) 1),
  length-shift s,
  length-replicate (base64_length (length s) - length s) 1,
)

unshift-ones : (n : ℕ) → unshift (replicate n 1) ≡ []
unshift-ones zero = refl
unshift-ones (suc n) = refl

unshift-shift : (s : List ℕ) (n : ℕ) → unshift (shift s ++ replicate n 1) ≡ s
unshift-shift [] n = unshift-ones n
unshift-shift (c ∷ cs) n = ground (arith, unshift-shift cs n)

ones-NoZero : (n : ℕ) → NoZero (replicate n 1)
ones-NoZero zero = tt
ones-NoZero (suc n) = ((omega arith), ones-NoZero n)

shift-NoZero : (s : List ℕ) → NoZero (shift s)
shift-NoZero [] = tt
shift-NoZero (c ∷ cs) = ((omega arith), shift-NoZero cs)

abbrev pub simple : Primitives
simple = record {
  crc = λ s. some (sum s);
  hmac = λ k s. replicate 32 (sum (k ++ s));
  aes_encrypt = λ k iv s. s;
  aes_decrypt = λ k iv s. s;
  base64_encode = λ size s. if ltb (base64_length (length s)) size then some (encoding s) else none;
  base64_decode = λ size t.
      if leb (length (unshift t)) size then decoded (unshift t) else failed (length (unshift t));
  below = replicate 32 0;
}

sum_bound : (s : List ℕ) → sum s < 2 ^ 32
sum_bound [] = omega arith
sum_bound (c ∷ cs) = omega arith

encode_total :
    (size : ℕ) (s : List ℕ)
    → base64_length (length s) < size
    → simple.base64_encode size s ≡ some (encoding s)
encode_total size s h = ground arith

encode_some : (size : ℕ) (s t : List ℕ) → simple.base64_encode size s ≡ some t → encoding s ≡ t
encode_some size s t h = ground arith

decode_fits :
    (size : ℕ) (s t : List ℕ)
    → unshift t ≡ s
    → length s ≤ size
    → simple.base64_decode size t ≡ decoded s
decode_fits size s t e h = ground arith

pub documented : IsDocumented simple
documented = record {
  crc-32 = λ s. (sum s, (refl, sum_bound s));
  length-hmac = λ k s. refl;
  length-aes_encrypt = λ k iv s. refl;
  length-aes_decrypt = λ k iv s. refl;
  aes_decrypt-aes_encrypt = λ k iv s rest h h'. take-append_left s rest;
  base64_encode_total = λ size s h. (
    encoding s,
    (
      encode_total size s h,
      NoZero-append (shift s) (replicate (base64_length (length s) - length s) 1) (shift-NoZero s)
          (ones-NoZero (base64_length (length s) - length s)),
      length-encoding s,
    ),
  );
  base64_decode-base64_encode = λ size size' s t e h.
      decode_fits size' s t
        (ap unshift (sym (encode_some size s t e))
          ∙ unshift-shift s (base64_length (length s) - length s))
        h;
}

-- The acknowledgement of message 7 of device 12.
abbrev pub sender : Memory
sender = record {
  message = codes "12,7,ACK" ++ replicate 72 0;
  base64_encoded = replicate 30 0;
  base64_decoded = [];
  before_decoded = 0;
  uninitialised = 0;
}
