-- ===== src/AtHandler/Sized.antt =====
-- `readATResponse (char *, size_t)` of Modules/ATCommandHandler, polled until the UART is empty.
use mathlib.Core.Path.{fun_ext}
use gateway_lo_ra.Prelude.{
  ℕ, zero, suc, ◌-◌, ◌*◌, ◌/◌, ◌%◌, ◌≤◌, ◌<◌, ◌≡◌, refl, ◌≢◌, true, false, List, [], ◌∷◌, ◌++◌,
  Option, none, some, arith, ◌==◌, if◌then◌else◌, length, length-append, take, drop, length-drop,
  c_string,
}
use gateway_lo_ra.AtHandler.{
  AtHandler, is_terminator, read_if_readable, read_byte_sized, read_at_response_sized,
}
use gateway_lo_ra.AtHandler.Lines.{split_lines, collect_map, responses, responses_from}

-- What is left of a line when every full 1024 bytes of it are thrown away.
unfoldable pub rest : List ℕ → List ℕ
rest line = drop (length line / 1024 * 1024) line

-- A line as it is delivered into a buffer of `size` bytes.
unfoldable pub delivered_sized : ℕ → List ℕ → Option (List ℕ)
delivered_sized size line =
    if length line % 1024 == 0 then none else some (take (size - 1) (c_string (rest line)))

drop-snoc {ℓ} :
    {A : Type ℓ} (n : ℕ) (xs : List A) (x : A)
    → n ≤ length xs
    → drop n (xs ++ x ∷ []) ≡ drop n xs ++ x ∷ []
drop-snoc zero xs x h = refl
drop-snoc (suc n) [] x h = absurd (omega arith)
drop-snoc (suc n) (y ∷ xs) x h = drop-snoc n xs x (omega arith)

drop_all {ℓ} : {A : Type ℓ} (n : ℕ) (xs : List A) → length xs ≤ n → drop n xs ≡ []
drop_all zero [] h = refl
drop_all zero (x ∷ xs) h = absurd (omega arith)
drop_all (suc n) [] h = refl
drop_all (suc n) (x ∷ xs) h = drop_all n xs (omega arith)

length-rest : (line : List ℕ) → length (rest line) ≡ length line % 1024
unfolding rest
length-rest line = omega (arith, length-drop (length line / 1024 * 1024) line)

rest-snoc_short :
    (line : List ℕ) (c : ℕ)
    → length (rest line) < 1023
    → rest (line ++ c ∷ []) ≡ rest line ++ c ∷ []
rest-snoc_short line c h =
    let n : length (line ++ c ∷ []) / 1024 ≡ length line / 1024 =
      omega (arith, length-append line (c ∷ []), length-rest line) in
    unfold rest in rw n (drop-snoc _ line c (omega arith))

rest-snoc_full : (line : List ℕ) (c : ℕ) → 1023 ≤ length (rest line) → rest (line ++ c ∷ []) ≡ []
rest-snoc_full line c h =
    let n : length (line ++ c ∷ []) ≤ length (line ++ c ∷ []) / 1024 * 1024 =
      omega (arith, length-append line (c ∷ []), length-rest line) in
    unfold rest in drop_all _ (line ++ c ∷ []) n

read_byte_in_line :
    (size c : ℕ) (line rx tx : List ℕ)
    → is_terminator c ≡ false
    → read_byte_sized size c (record { buffer = rest line; rx = rx; tx = tx })
      ≡ (none, record { buffer = rest (line ++ c ∷ []); rx = rx; tx = tx })
unfolding read_byte_sized
read_byte_in_line size c line rx tx e =
    rw e (ground (arith, rest-snoc_short line c, rest-snoc_full line c))

read_byte_at_end :
    (size c : ℕ) (line rx tx : List ℕ)
    → is_terminator c ≡ true
    → read_byte_sized size c (record { buffer = rest line; rx = rx; tx = tx })
      ≡ (delivered_sized size line, record { buffer = []; rx = rx; tx = tx })
unfolding read_byte_sized delivered_sized
read_byte_at_end size c line rx tx e = rw e (ground (arith, length-rest line))

reader_sized :
    (size : ℕ) (h : AtHandler)
    → size ≢ 0
    → read_at_response_sized false size h ≡ read_if_readable (read_byte_sized size) h.rx h
unfolding read_at_response_sized
reader_sized size h k = ground arith

-- Polled once for every byte that the modem sent, from an empty buffer, `readATResponse (char *,
-- size_t)` with a buffer of `size` bytes, not 0, delivers for each line of n bytes its last
-- n % 1024 bytes, read up to the first 0 and cut to `size - 1`, if n % 1024 is not 0: a byte that
-- finds the handler's buffer full is lost together with all that is in it.
pub responses_sized-split_lines :
    (size : ℕ) (rx tx : List ℕ)
    → size ≢ 0
    → responses
        (read_at_response_sized false size)
        (length rx)
        (record { buffer = []; rx = rx; tx = tx })
      ≡ collect_map (delivered_sized size) (split_lines [] rx)
unfolding rest
responses_sized-split_lines size rx tx k = rw (fun_ext (λ h. reader_sized size h k)) (
    responses_from (read_byte_sized size) rest (delivered_sized size) (read_byte_in_line size)
      (read_byte_at_end size) [] rx tx)
