-- ===== src/Messages/Memory.antt =====
-- Strings written into the blocks of Modules/MessageHandler.
use gateway_lo_ra.Prelude.{
  append_assoc, ℕ, ◌+◌, ◌-◌, ◌≤◌, ◌<◌, ◌≡◌, refl, ◌∙◌, sym, ap, List, [], ◌∷◌, ◌++◌, length, take,
  drop, c_string, NoZero, length-append, length-take, length-drop, take_all, c_string-append_zero,
  arith, zero, suc, length-c_string, NoZero-append, c_string-NoZero,
}
use gateway_lo_ra.Messages.Base.{write_at}

pub take-c_string : (s : List ℕ) → take (length (c_string s)) s ≡ c_string s
unfolding c_string
take-c_string [] = refl
take-c_string (c ∷ cs) = ground (arith, take-c_string cs)

-- A write inside of the block.
pub write_at_inside :
    (n : ℕ) (s block : List ℕ)
    → n + length s ≤ length block
    → write_at n s block ≡ take n block ++ s ++ drop (n + length s) block
unfolding write_at
write_at_inside n s block h =
    take_all (length block) (take n block ++ s ++ drop (n + length s) block) (
      omega (
        arith,
        length-append (take n block ++ s) (drop (n + length s) block),
        length-append (take n block) s,
        length-take n block,
        length-drop (n + length s) block,
      ))

pub length-write_at : (n : ℕ) (s block : List ℕ) → length (write_at n s block) ≡ length block
unfolding write_at
length-write_at n s block = omega (
  arith,
  length-take (length block) (take n block ++ s ++ drop (n + length s) block),
  length-append (take n block ++ s) (drop (n + length s) block),
  length-append (take n block) s,
  length-take n block,
  length-drop (n + length s) block,
)

-- A string copied to the front of a block.
pub c_string-write_at :
    (s block : List ℕ)
    → NoZero s
    → length s < length block
    → c_string (write_at 0 (s ++ 0 ∷ []) block) ≡ s
c_string-write_at s block z h =
    ap c_string (write_at_inside 0 (s ++ 0 ∷ []) block (omega (arith, length-append s (0 ∷ []))))
    ∙ ap c_string (append_assoc s (0 ∷ []) (drop (0 + length (s ++ 0 ∷ [])) block))
    ∙ c_string-append_zero s (drop (0 + length (s ++ 0 ∷ [])) block) z

-- A string written over the end of the one that is there.
pub c_string-write_at_end :
    (s block : List ℕ)
    → NoZero s
    → length (c_string block) + length s < length block
    → c_string (write_at (length (c_string block)) (s ++ 0 ∷ []) block) ≡ c_string block ++ s
c_string-write_at_end s block z h =
    let n = length (c_string block) in
    let rest = drop (n + length (s ++ 0 ∷ [])) block in
    ap c_string (write_at_inside n (s ++ 0 ∷ []) block (omega (arith, length-append s (0 ∷ []))))
    ∙ ap (λ t. c_string (t ++ (s ++ 0 ∷ []) ++ rest)) (take-c_string block)
    ∙ ap c_string (append_assoc (c_string block) (s ++ 0 ∷ []) rest)
    ∙ ap (λ t. c_string (c_string block ++ t)) (append_assoc s (0 ∷ []) rest)
    ∙ ap c_string (sym (append_assoc (c_string block) s (0 ∷ rest)))
    ∙ c_string-append_zero (c_string block ++ s) rest
        (NoZero-append (c_string block) s (c_string-NoZero block) z)

-- A string copied to the front of a block, read back as memory.
pub write_at_front :
    (s block : List ℕ) → length s ≤ length block → write_at 0 s block ≡ s ++ drop (length s) block
write_at_front s block h =
    write_at_inside 0 s block (omega arith) ∙ ap (λ n. s ++ drop n block) (omega arith)

pub take-append_le : (n : ℕ) (s r : List ℕ) → n ≤ length s → take n (s ++ r) ≡ take n s
take-append_le zero s r h = refl
take-append_le (suc n) [] r h = absurd (omega arith)
take-append_le (suc n) (x ∷ s) r h = ap (λ t. x ∷ t) (take-append_le n s r (omega arith))

pub take-append_ge :
    (n : ℕ) (s r : List ℕ) → length s ≤ n → take n (s ++ r) ≡ s ++ take (n - length s) r
take-append_ge n [] r h = ap (λ k. take k r) (omega arith)
take-append_ge zero (x ∷ s) r h = absurd (omega arith)
take-append_ge (suc n) (x ∷ s) r h =
    ap (λ t. x ∷ t) (take-append_ge n s r (omega arith))
    ∙ ap (λ k. x ∷ (s ++ take k r)) (omega arith)

take_nil : (n : ℕ) → take {A = ℕ} n [] ≡ []
take_nil zero = refl
take_nil (suc n) = refl

pub take-drop : (k n : ℕ) (s : List ℕ) → take k (drop n s) ≡ drop n (take (n + k) s)
take-drop k zero s = ap (λ m. take m s) (omega arith)
take-drop k (suc n) [] = take_nil k ∙ sym (ap (λ t. drop (suc n) t) (take_nil (suc n + k)))
take-drop k (suc n) (x ∷ s) =
    let e : suc (n + k) ≡ suc n + k = omega arith in
    take-drop k n s ∙ ap (λ m. drop (suc n) (take m (x ∷ s))) e

pub c_string-take :
    (n : ℕ) (s : List ℕ) → length (c_string s) ≤ n → c_string (take n s) ≡ c_string s
unfolding c_string
c_string-take zero [] h = refl
c_string-take zero (x ∷ s) h = ground arith
c_string-take (suc n) [] h = refl
c_string-take (suc n) (x ∷ s) h = ground (arith, c_string-take n s)

pub c_string-append_end : (s r : List ℕ) → c_string (s ++ 0 ∷ r) ≡ c_string s
unfolding c_string
c_string-append_end [] r = refl
c_string-append_end (x ∷ s) r = ground (arith, c_string-append_end s r)

-- A string cut short.
pub take_text : (n : ℕ) (s : List ℕ) → n ≤ length (c_string s) → take n s ≡ take n (c_string s)
unfolding c_string
take_text zero s h = refl
take_text (suc n) [] h = refl
take_text (suc n) (x ∷ s) h = ground (arith, take_text n s)

pub NoZero-take : (n : ℕ) (s : List ℕ) → NoZero s → NoZero (take n s)
NoZero-take zero s h = tt
NoZero-take (suc n) [] h = tt
NoZero-take (suc n) (x ∷ s) h = (h.0, NoZero-take n s h.1)

pub c_string-write_zero :
    (n : ℕ) (block : List ℕ)
    → n < length (c_string block)
    → c_string (write_at n (0 ∷ []) block) ≡ take n (c_string block)
c_string-write_zero n block h =
    let rest = drop (n + 1) block in
    ap c_string (write_at_inside n (0 ∷ []) block (omega (arith, length-c_string block)))
    ∙ ap (λ t. c_string ((t ++ 0 ∷ []) ++ rest)) (take_text n block (omega arith))
    ∙ ap c_string (append_assoc (take n (c_string block)) (0 ∷ []) rest)
    ∙ c_string-append_zero (take n (c_string block)) rest
        (NoZero-take n (c_string block) (c_string-NoZero block))

-- Any bytes copied to the front, with a 0 behind them.
pub c_string-write_any :
    (s block : List ℕ)
    → length s < length block
    → c_string (write_at 0 (s ++ 0 ∷ []) block) ≡ c_string s
c_string-write_any s block h =
    let rest = drop (length (s ++ 0 ∷ [])) block in
    ap c_string (write_at_front (s ++ 0 ∷ []) block (omega (arith, length-append s (0 ∷ []))))
    ∙ ap c_string (append_assoc s (0 ∷ []) rest)
    ∙ c_string-append_end s rest
