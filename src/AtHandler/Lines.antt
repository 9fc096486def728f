-- ===== src/AtHandler/Lines.antt =====
-- The lines that `readATResponse` of Modules/ATCommandHandler delivers, polled until the UART is
-- empty, in either of its two forms.
use gateway_lo_ra.Prelude.{
  ℕ, zero, suc, ◌≡◌, refl, ◌∙◌, inl, inr, true, false, List, [], ◌∷◌, ◌++◌, Option, none, some,
  arith, Bool-cases, ltb, if◌then◌else◌, length, take, c_string,
}
use gateway_lo_ra.AtHandler.{
  AtHandler, is_terminator, read_if_readable, read_byte, read_at_response,
}

-- The lines of a stream that comes after `line`: what stands before each CR or LF. What follows the
-- last of them is no line yet.
unfoldable pub split_lines : List ℕ → List ℕ → List (List ℕ)
split_lines line [] = []
split_lines line (c ∷ cs) =
    if is_terminator c then line ∷ split_lines [] cs else split_lines (line ++ c ∷ []) cs

abbrev pub collect : Option (List ℕ) → List (List ℕ) → List (List ℕ)
collect none ls = ls
collect (some l) ls = l ∷ ls

-- What is delivered for each line, one after another.
unfoldable pub collect_map : (List ℕ → Option (List ℕ)) → List (List ℕ) → List (List ℕ)
collect_map deliver [] = []
collect_map deliver (l ∷ ls) = collect (deliver l) (collect_map deliver ls)

-- The responses that n calls of a reader deliver.
unfoldable pub responses : (AtHandler → Option (List ℕ) × AtHandler) → ℕ → AtHandler → List (List ℕ)
responses reader zero h = []
responses reader (suc n) h = collect (reader h).0 (responses reader n (reader h).1)

-- A reader whose buffer holds `hold line` inside a line, and which delivers `deliver line` at its
-- end, delivers that for each line.
module _ (body : ℕ → AtHandler → Option (List ℕ) × AtHandler) (hold : List ℕ → List ℕ)
    (deliver : List ℕ → Option (List ℕ))
    (in_line : (c : ℕ) (line rx tx : List ℕ)
      → is_terminator c ≡ false
      → body c (record { buffer = hold line; rx = rx; tx = tx })
        ≡ (none, record { buffer = hold (line ++ c ∷ []); rx = rx; tx = tx }))
    (at_end : (c : ℕ) (line rx tx : List ℕ)
      → is_terminator c ≡ true
      → body c (record { buffer = hold line; rx = rx; tx = tx })
        ≡ (deliver line, record { buffer = hold []; rx = rx; tx = tx })) where
  abbrev reader : AtHandler → Option (List ℕ) × AtHandler
  reader h = read_if_readable body h.rx h

  responses-cons :
      (c : ℕ) (line cs tx : List ℕ)
      → let r = body c (record { buffer = hold line; rx = cs; tx = tx }) in
        responses reader (suc (length cs)) (record { buffer = hold line; rx = c ∷ cs; tx = tx })
        ≡ collect r.0 (responses reader (length cs) r.1)
  unfolding responses read_if_readable
  responses-cons c line cs tx = refl

  pub responses_from :
      (line rx tx : List ℕ)
      → responses reader (length rx) (record { buffer = hold line; rx = rx; tx = tx })
        ≡ collect_map deliver (split_lines line rx)
  unfolding split_lines
  responses_from line [] tx = unfold responses collect_map in refl
  responses_from line (c ∷ cs) tx =
      responses-cons c line cs tx ∙ elim (Bool-cases (is_terminator c)) [
        | inl e ↦
            rw (at_end c line cs tx e, e, responses_from [] cs tx) (unfold collect_map in refl)
        | inr e ↦ rw (in_line c line cs tx e, e) (responses_from (line ++ c ∷ []) cs tx)
      ]

-- A line as `readATResponse (char *)` delivers it: its first 1023 bytes, up to the first 0.
unfoldable pub delivered : List ℕ → Option (List ℕ)
delivered [] = none
delivered (c ∷ line) = some (c_string (take 1023 (c ∷ line)))

take-snoc {ℓ} :
    {A : Type ℓ} (n : ℕ) (xs : List A) (x : A)
    → take n (xs ++ x ∷ [])
      ≡ (if ltb (length (take n xs)) n then take n xs ++ x ∷ [] else take n xs)
take-snoc zero xs x = refl
take-snoc (suc zero) [] x = refl
take-snoc (suc (suc n)) [] x = ground arith
take-snoc (suc n) (y ∷ xs) x = ground (arith, take-snoc n xs x)

read_byte_in_line :
    (c : ℕ) (line rx tx : List ℕ)
    → is_terminator c ≡ false
    → read_byte c (record { buffer = take 1023 line; rx = rx; tx = tx })
      ≡ (none, record { buffer = take 1023 (line ++ c ∷ []); rx = rx; tx = tx })
unfolding read_byte
read_byte_in_line c line rx tx e = rw (e, take-snoc 1023 line c) (ground arith)

read_byte_at_end :
    (c : ℕ) (line rx tx : List ℕ)
    → is_terminator c ≡ true
    → read_byte c (record { buffer = take 1023 line; rx = rx; tx = tx })
      ≡ (delivered line, record { buffer = []; rx = rx; tx = tx })
unfolding read_byte delivered
read_byte_at_end c [] rx tx e = rw e refl
read_byte_at_end c (x ∷ line) rx tx e = rw e (ground arith)

-- Polled once for every byte that the modem sent, from an empty buffer, `readATResponse (char *)`
-- delivers exactly the lines of the stream that are not empty, in order, each one cut to its first
-- 1023 bytes and read up to its first 0; a line without its CR or LF is not delivered.
pub responses-split_lines :
    (rx tx : List ℕ)
    → responses (read_at_response false) (length rx) (record { buffer = []; rx = rx; tx = tx })
      ≡ collect_map delivered (split_lines [] rx)
unfolding read_at_response
responses-split_lines rx tx =
    responses_from read_byte (take 1023) delivered read_byte_in_line read_byte_at_end [] rx tx
