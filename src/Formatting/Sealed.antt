-- ===== src/Formatting/Sealed.antt =====
-- How a server opens a message of Modules/Gateway/GatewayState/FormattingMessage.
use gateway_lo_ra.Prelude.{
  ℕ, suc, ◌+◌, ◌-◌, ◌≤◌, ◌<◌, ◌≡◌, ◌∙◌, refl, List, [], ◌∷◌, ◌++◌, arith, take, drop, length,
  length-append, take_all, take-append_left, drop-append_left,
}
use gateway_lo_ra.Formatting.MetaData.{
  Services, Chain, hash_and_base64, json_fields, work_buffer, without_braces, whole_message,
  add_meta_data, size_of_hash,
}

-- The field "curr", of 44 characters, and the object without it.
unfoldable pub open_message : List ℕ → List ℕ × List ℕ
open_message message = let rest = drop 9 message in (take 44 rest, b'{' ∷ drop 2 (drop 44 rest))

take_at : (n : ℕ) (xs ys : List ℕ) → length xs ≡ n → take n (xs ++ ys) ≡ xs
take_at n xs ys h = rw⁻¹ h (take-append_left xs ys)

drop_at : (n : ℕ) (xs ys : List ℕ) → length xs ≡ n → drop n (xs ++ ys) ≡ ys
drop_at n xs ys h = rw⁻¹ h (drop-append_left xs ys)

-- Between the braces stand the fields.
without_braces-append :
    (fields : List ℕ) → 0 < length fields → without_braces (b'{' ∷ (fields ++ b'}' ∷ [])) ≡ fields
unfolding without_braces
without_braces-append fields h =
    let total : length (fields ++ b'}' ∷ []) ≡ suc (length fields) =
      length-append fields (b'}' ∷ []) ∙ omega arith in
    let last : drop (length (fields ++ b'}' ∷ [])) (b'{' ∷ (fields ++ b'}' ∷ [])) ≡ b'}' ∷ [] =
      drop_at (length (fields ++ b'}' ∷ [])) (b'{' ∷ fields) (b'}' ∷ []) (omega (arith, total)) in
    let inner : take (suc (length (fields ++ b'}' ∷ [])) - 2) (fields ++ b'}' ∷ []) ≡ fields =
      take_at (suc (length (fields ++ b'}' ∷ [])) - 2) fields (b'}' ∷ []) (omega (arith, total)) in
    ground (arith, total, last, inner)

-- A server finds the hash, and the object that it is the hash of.
open_message-whole :
    (hash work : List ℕ)
    → length hash ≡ 44
    → open_message (whole_message hash work) ≡ (hash, b'{' ∷ (work ++ b'}' ∷ []))
unfolding open_message whole_message
open_message-whole hash work h =
    let tail = b'"' ∷ b',' ∷ (work ++ b'}' ∷ []) in
    let taken = take_at 44 hash tail h in
    let dropped = drop_at 44 hash tail h in ground (arith, taken, dropped)

length-whole :
    (hash work : List ℕ) → length (whole_message hash work) ≡ length hash + length work + 12
unfolding whole_message
length-whole hash work =
    omega (
      arith,
      length-append hash (b'"' ∷ b',' ∷ (work ++ b'}' ∷ [])),
      length-append work (b'}' ∷ []),
    )

length-json_fields :
    (v : Services) (seconds : ℕ) (message : List ℕ) (g : Chain)
    → 0 < length (json_fields v seconds message g)
unfolding json_fields
length-json_fields v seconds message g = omega arith

-- Where all fits, nothing is cut.
work_buffer-fields :
    (v : Services) (seconds : ℕ) (message : List ℕ) (g : Chain)
    → length (json_fields v seconds message g) ≤ 2443
    → work_buffer v seconds message g ≡ b'{' ∷ (json_fields v seconds message g ++ b'}' ∷ [])
unfolding work_buffer
work_buffer-fields v seconds message g fits =
    let fields = json_fields v seconds message g in
    let total = length-append fields (b'}' ∷ []) in
    take_all 2499 (b'{' ∷ (fields ++ b'}' ∷ [])) (omega (arith, total, fits))

hash_and_base64-short :
    (v : Services) (text : List ℕ)
    → length (v.base64 (v.sha256 text)) ≡ 44
    → hash_and_base64 v text size_of_hash ≡ v.base64 (v.sha256 text)
unfolding hash_and_base64
hash_and_base64-short v text law = ground (arith, law)

abbrev object_text : Services → ℕ → List ℕ → Chain → List ℕ
object_text v seconds message g = b'{' ∷ (json_fields v seconds message g ++ b'}' ∷ [])

abbrev seal : Services → ℕ → List ℕ → Chain → List ℕ
seal v seconds message g = v.base64 (v.sha256 (object_text v seconds message g))

add_meta_data-whole :
    (v : Services) (seconds : ℕ) (message : List ℕ) (g : Chain)
    → ((text : List ℕ) → length (v.base64 (v.sha256 text)) ≡ 44)
    → length (json_fields v seconds message g) ≤ 2443
    → add_meta_data v seconds message g ≡ (
      whole_message (seal v seconds message g) (json_fields v seconds message g),
      record g { curr_chain_hash = seal v seconds message g },
    )
unfolding add_meta_data
add_meta_data-whole v seconds message g law fits =
    let fields = json_fields v seconds message g in
    let hash = seal v seconds message g in
    let work = work_buffer-fields v seconds message g fits in
    let inner = without_braces-append fields (length-json_fields v seconds message g) in
    let hashed =
      hash_and_base64-short v (object_text v seconds message g)
        (law (object_text v seconds message g)) in
    let short =
      take_all 2499 (whole_message hash fields)
        (omega (arith, length-whole hash fields, law (object_text v seconds message g), fits)) in
    rw work (rw hashed (rw inner (rw short refl)))

-- A message to the server can be checked by itself: what is left of it where the field "curr" is
-- taken out has the value of this field as its hash, is the object with the other fields and the
-- text, and the gateway keeps the hash for the next message. The text with its other fields is of
-- 2443 bytes at most, and the Base64 of a SHA-256 has 44 characters.
pub add_meta_data-open_message :
    (v : Services) (seconds : ℕ) (message : List ℕ) (g : Chain)
    → ((text : List ℕ) → length (v.base64 (v.sha256 text)) ≡ 44)
    → length (json_fields v seconds message g) ≤ 2443
    → let (sealed, g') = add_meta_data v seconds message g in
      let (curr, object) = open_message sealed in
      (curr ≡ v.base64 (v.sha256 object))
      × (object ≡ b'{' ∷ (json_fields v seconds message g ++ b'}' ∷ []))
      × (g'.curr_chain_hash ≡ curr)
add_meta_data-open_message v seconds message g law fits =
    let opened =
      open_message-whole (seal v seconds message g) (json_fields v seconds message g)
        (law (object_text v seconds message g)) in
    rw (add_meta_data-whole v seconds message g law fits) (rw opened (refl, refl, refl))
