-- ===== src/Exchanging/Fields.antt =====
-- The fields that Modules/Gateway/GatewayState/ExchangingMessages finds in the server's answer.
use gateway_lo_ra.Prelude.{
  ℕ, zero, suc, ◌+◌, ◌-◌, ◌≤◌, ◌≡◌, refl, Bool, true, false, not, ◌&&◌, ◌||◌, List, [], ◌∷◌, ◌++◌,
  some, arith, ◌==◌, starts_with, length, is_free_of,
}
use gateway_lo_ra.Exchanging.Answer.{
  find_text, find_behind, skip_quotes, copy_value, extract_field, key,
}

copy_value-bound :
    (n : ℕ) (cs : List ℕ)
    → (length (copy_value n cs) ≤ n)
      × (is_free_of 34 (copy_value n cs) ≡ true)
      × (is_free_of b',' (copy_value n cs) ≡ true)
unfolding copy_value
copy_value-bound zero cs = (omega arith, refl, refl)
copy_value-bound (suc n) [] = (omega arith, refl, refl)
copy_value-bound (suc n) (c ∷ cs) = ground (arith, copy_value-bound n cs)

-- A value that is taken out of a text, whatever the text is, fits in its buffer with the byte 0
-- behind it, and has neither a quote nor a comma in it. The buffer has a byte at least.
extract_field-bound :
    (json name value : List ℕ) (max_len : ℕ)
    → 1 ≤ max_len
    → extract_field json name max_len ≡ some value
    → (length value + 1 ≤ max_len) × (is_free_of 34 value ≡ true) × (is_free_of b',' value ≡ true)
unfolding extract_field
extract_field-bound json name value max_len h e = grind (arith, copy_value-bound)

-- Whether the key does not begin within a text that is followed by another one.
abbrev pub is_before : List ℕ → List ℕ → List ℕ → Bool
is_before k [] tail = true
is_before k (c ∷ cs) tail = not (starts_with k (c ∷ cs ++ tail)) && is_before k cs tail

starts_with-append : (k rest : List ℕ) → starts_with k (k ++ rest) ≡ true
unfolding starts_with
starts_with-append [] rest = refl
starts_with-append (c ∷ k) rest = ground (arith, starts_with-append k rest)

find_text-here :
    (k rest : List ℕ) (c : ℕ) → find_text (c ∷ k) ((c ∷ k) ++ rest) ≡ some ((c ∷ k) ++ rest)
unfolding find_text
find_text-here k rest c = ground (arith, starts_with-append (c ∷ k) rest)

find_text-before :
    (k pre tail : List ℕ)
    → is_before k pre tail ≡ true
    → find_text k tail ≡ some tail
    → find_text k (pre ++ tail) ≡ some tail
unfolding find_text
find_text-before k [] tail h e = e
find_text-before k (c ∷ cs) tail h e = ground (arith, find_text-before k cs tail)

find_behind-append :
    (k : ℕ) (word rest : List ℕ)
    → is_free_of k word ≡ true
    → find_behind k (word ++ k ∷ rest) ≡ some rest
unfolding find_behind
find_behind-append k [] rest h = ground arith
find_behind-append k (c ∷ cs) rest h = ground (arith, find_behind-append k cs rest)

copy_value-append :
    (n : ℕ) (word rest : List ℕ)
    → is_free_of 34 word ≡ true
    → is_free_of b',' word ≡ true
    → length word ≤ n
    → copy_value n (word ++ 34 ∷ rest) ≡ word
unfolding copy_value
copy_value-append zero [] rest h k l = refl
copy_value-append zero (c ∷ cs) rest h k l = absurd (omega arith)
copy_value-append (suc n) [] rest h k l = ground arith
copy_value-append (suc n) (c ∷ cs) rest h k l = ground (arith, copy_value-append n cs rest)

-- A field as the server writes it: "NAME":"value"
abbrev pub field : List ℕ → List ℕ → List ℕ → List ℕ
field name value post = key name ++ (b':' ∷ 34 ∷ (value ++ 34 ∷ post))

skip_quotes-value :
    (v : ℕ) (rest : List ℕ) → (v == 32 || v == 34) ≡ false → skip_quotes (34 ∷ v ∷ rest) ≡ v ∷ rest
unfolding skip_quotes
skip_quotes-value v rest h = ground arith

find_text-field :
    (pre name value post : List ℕ)
    → is_before (key name) pre (field name value post) ≡ true
    → find_text (key name) (pre ++ field name value post) ≡ some (field name value post)
find_text-field pre name value post h =
    find_text-before (key name) pre (field name value post) h
      (find_text-here (name ++ 34 ∷ []) (b':' ∷ 34 ∷ (value ++ 34 ∷ post)) 34)

find_behind-field :
    (name value post : List ℕ)
    → is_free_of b':' (key name) ≡ true
    → find_behind b':' (field name value post) ≡ some (34 ∷ (value ++ 34 ∷ post))
find_behind-field name value post h =
    find_behind-append b':' (key name) (34 ∷ (value ++ 34 ∷ post)) h

-- A field that the server writes in quotes is read as it was written, wherever it stands in the
-- answer. Its value is not empty, does not begin with a blank, has no quote and no comma and fits
-- in the buffer; the name has no colon, and does not stand in quotes before.
pub extract_field-field :
    (pre name value post : List ℕ) (v max_len : ℕ)
    → is_before (key name) pre (field name (v ∷ value) post) ≡ true
    → is_free_of b':' (key name) ≡ true
    → (v == 32) ≡ false
    → is_free_of 34 (v ∷ value) ≡ true
    → is_free_of b',' (v ∷ value) ≡ true
    → length (v ∷ value) + 1 ≤ max_len
    → extract_field (pre ++ field name (v ∷ value) post) (key name) max_len ≡ some (v ∷ value)
unfolding extract_field
extract_field-field pre name value post v max_len before colon blank quote comma fits = ground (
  arith,
  find_text-field pre name (v ∷ value) post before,
  find_behind-field name (v ∷ value) post colon,
  skip_quotes-value v (value ++ 34 ∷ post),
  copy_value-append (max_len - 1) (v ∷ value) post quote comma,
)
