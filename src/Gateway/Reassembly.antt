-- ===== src/Gateway/Reassembly.antt =====
-- Modules/Gateway/GatewayState/WaitingForMessage puts a message together from its fragments.
use gateway_lo_ra.Prelude.{
  append_nil, ℕ, ℤ, ◌+◌, ◌≤◌, ◌<◌, ◌≡◌, ◌≢◌, refl, ◌∙◌, sym, ap, true, false, List, [], ◌∷◌, ◌++◌,
  none, some, if◌then◌else◌, length, drop, is_empty, arith, length-append, append_assoc,
}
use gateway_lo_ra.Timer
use gateway_lo_ra.Messages.Base.{Primitives}
use gateway_lo_ra.Gateway.Waiting.{
  WaitingForMessage, search_delimiter, insert_fragment, read_fragments, receive_packet, Reception,
  wait_for_message, start_waiting,
}

-- A text without the character of the delimiter.
abbrev pub NoBar : List ℕ → Type 0
NoBar [] = Unit {0}
NoBar (c ∷ cs) = (c ≢ b'|') × NoBar cs

search_delimiter_found :
    (s : List ℕ) → NoBar s → search_delimiter (s ++ b'|' ∷ b'|' ∷ []) ≡ some (s, [])
unfolding search_delimiter
search_delimiter_found [] h = refl
search_delimiter_found (c ∷ cs) h = ground (arith, search_delimiter_found cs h.1)

-- There is no delimiter in what came in before the last byte of it.
search_delimiter_absent :
    (acc : List ℕ) (c : ℕ) (r s : List ℕ)
    → NoBar s
    → acc ++ c ∷ r ≡ s ++ b'|' ∷ b'|' ∷ []
    → search_delimiter acc ≡ none
unfolding search_delimiter
search_delimiter_absent [] c r s h e = refl
search_delimiter_absent (a ∷ []) c r s h e = ground arith
search_delimiter_absent (a ∷ b ∷ acc) c r [] h e =
    absurd (omega (arith, ap length e, length-append acc (c ∷ r)))
search_delimiter_absent (a ∷ b ∷ acc) c r (x ∷ s) h e =
    let tails : (b ∷ acc) ++ c ∷ r ≡ s ++ b'|' ∷ b'|' ∷ [] = ap (drop 1) e in
    let heads : a ≡ x = ap (λ l. elim l [ [] ↦ 0 | y ∷ ys ↦ y ]) e in
    ground (arith, search_delimiter_absent (b ∷ acc) c r s h.1 tails, heads, h.0)

insert_inside :
    (rssi : ℤ) (bytes : List ℕ) (w : WaitingForMessage)
    → w.string_insert_count < 51
    → search_delimiter (w.accumulated ++ bytes) ≡ none
    → insert_fragment rssi bytes w ≡ (
      false,
      record w {
        accumulated = w.accumulated ++ bytes;
        string_insert_count = w.string_insert_count + 1;
      },
    )
unfolding insert_fragment
insert_inside rssi bytes w h e = ground arith

insert_last :
    (rssi : ℤ) (bytes s : List ℕ) (w : WaitingForMessage)
    → w.string_insert_count < 51
    → search_delimiter (w.accumulated ++ bytes) ≡ some (s, [])
    → insert_fragment rssi bytes w ≡ (
      false,
      record w {
        full_message = s;
        accumulated = [];
        string_insert_count = 0;
        message_received = true;
        current_rssi = rssi;
      },
    )
unfolding insert_fragment
insert_last rssi bytes s w h e = ground arith

read_one :
    (rssi : ℤ) (bytes : List ℕ) (w : WaitingForMessage)
    → is_empty bytes ≡ false
    → (insert_fragment rssi bytes w).0 ≡ false
    → read_fragments rssi 0 (bytes ∷ []) w ≡ (insert_fragment rssi bytes w).1
unfolding read_fragments
read_one rssi bytes w h e = ground arith

-- A fragment, with the tick of the call that finds it.
abbrev pub Fragment : Type 0
Fragment = ℕ × List ℕ

abbrev pub reception : ℤ → Fragment → Reception
reception rssi f = record { now = f.0; begins = true; packet = some (f.1 ∷ []); rssi = rssi }

abbrev pub concat : List Fragment → List ℕ
concat [] = []
concat (f ∷ fs) = f.1 ++ concat fs

abbrev pub AllSome : List Fragment → Type 0
AllSome [] = Unit {0}
AllSome (f ∷ fs) = (is_empty f.1 ≡ false) × AllSome fs

-- Calls of `waitForMessage`, each of which finds a packet with one fragment.
unfoldable pub wait_for_fragments :
    Primitives → ℕ → ℤ → List Fragment → WaitingForMessage → WaitingForMessage
wait_for_fragments p duration rssi [] w = w
wait_for_fragments p duration rssi (f ∷ fs) w =
    wait_for_fragments p duration rssi fs (wait_for_message p duration (reception rssi f) w).1

-- A gateway that waits, its radio started.
abbrev pub IsWaiting : WaitingForMessage → Type 0
IsWaiting w = (w.first_entry ≡ false) × (w.message_received ≡ false)

abbrev opened : ℕ → WaitingForMessage → WaitingForMessage
opened now w =
    if w.first_packet_received
    then w
    else record w { time_out = Timer.restart now w.time_out; first_packet_received = true }

wait_one :
    (p : Primitives) (duration : ℕ) (rssi : ℤ) (f : Fragment) (w : WaitingForMessage)
    → IsWaiting w
    → (wait_for_message p duration (reception rssi f) w).1
      ≡ read_fragments rssi 0 (f.1 ∷ []) (opened f.0 w)
unfolding wait_for_message start_waiting receive_packet
wait_one p duration rssi f w h = ground (arith, h.0, h.1)

opened_fields :
    (now : ℕ) (w : WaitingForMessage)
    → let w' = opened now w in
      (w'.accumulated ≡ w.accumulated)
      × (w'.string_insert_count ≡ w.string_insert_count)
      × (w'.message_received ≡ w.message_received)
      × (w'.first_entry ≡ w.first_entry)
opened_fields now w = ground arith

module _ (p : Primitives) (duration : ℕ) (rssi : ℤ) (f : Fragment) (w : WaitingForMessage)
    (waits : IsWaiting w) (some_bytes : is_empty f.1 ≡ false)
    (few : w.string_insert_count < 51) where
  wait_inside :
      search_delimiter (w.accumulated ++ f.1) ≡ none
      → let w' = (wait_for_message p duration (reception rssi f) w).1 in
        (IsWaiting w')
        × (w'.accumulated ≡ w.accumulated ++ f.1)
        × (w'.string_insert_count ≡ w.string_insert_count + 1)
  wait_inside e =
      let w1 = opened f.0 w in
      let (acc, count, received, entry) = opened_fields f.0 w in
      let inserted =
        insert_inside rssi f.1 w1 (omega (arith, count))
          (ap (λ a. search_delimiter (a ++ f.1)) acc ∙ e) in
      let whole =
        wait_one p duration rssi f w waits
        ∙ read_one rssi f.1 w1 some_bytes (ap (λ r. r.0) inserted)
        ∙ ap (λ r. r.1) inserted in
      (
        (
          ap (λ r. r.first_entry) whole ∙ entry ∙ waits.0,
          ap (λ r. r.message_received) whole ∙ received ∙ waits.1,
        ),
        ap (λ r. r.accumulated) whole ∙ ap (λ a. a ++ f.1) acc,
        ap (λ r. r.string_insert_count) whole ∙ ap (λ n. n + 1) count,
      )

  wait_last :
      (s : List ℕ)
      → search_delimiter (w.accumulated ++ f.1) ≡ some (s, [])
      → let w' = (wait_for_message p duration (reception rssi f) w).1 in
        (w'.message_received ≡ true)
        × (w'.full_message ≡ s)
        × (w'.accumulated ≡ [])
        × (w'.string_insert_count ≡ 0)
  wait_last s e =
      let w1 = opened f.0 w in
      let (acc, count, received, entry) = opened_fields f.0 w in
      let inserted =
        insert_last rssi f.1 s w1 (omega (arith, count))
          (ap (λ a. search_delimiter (a ++ f.1)) acc ∙ e) in
      let whole =
        wait_one p duration rssi f w waits
        ∙ read_one rssi f.1 w1 some_bytes (ap (λ r. r.0) inserted)
        ∙ ap (λ r. r.1) inserted in
      (
        ap (λ r. r.message_received) whole,
        ap (λ r. r.full_message) whole,
        ap (λ r. r.accumulated) whole,
        ap (λ r. r.string_insert_count) whole,
      )

none_before :
    (acc rest s : List ℕ)
    → NoBar s
    → is_empty rest ≡ false
    → acc ++ rest ≡ s ++ b'|' ∷ b'|' ∷ []
    → search_delimiter acc ≡ none
none_before acc [] s h k e = cc
none_before acc (c ∷ r) s h k e = search_delimiter_absent acc c r s h e

is_empty-append : (s t : List ℕ) → is_empty s ≡ false → is_empty (s ++ t) ≡ false
is_empty-append [] t h = cc
is_empty-append (c ∷ s) t h = refl

-- The fragments of a message are put together as it was: where what came in before, and the
-- fragments that follow, are a text without the character '|' and then the delimiter "||", and a
-- gateway that waits finds the fragments, none of them empty and 51 with those before at most, one
-- in each call, it has then received a message, the message is the text, and nothing is left over.
pub fragments_received :
    (p : Primitives) (duration : ℕ) (rssi : ℤ) (f : Fragment) (fs : List Fragment) (s : List ℕ)
    (w : WaitingForMessage)
    → IsWaiting w
    → NoBar s
    → AllSome (f ∷ fs)
    → w.string_insert_count + length (f ∷ fs) ≤ 51
    → w.accumulated ++ concat (f ∷ fs) ≡ s ++ b'|' ∷ b'|' ∷ []
    → let w' = wait_for_fragments p duration rssi (f ∷ fs) w in
      (w'.message_received ≡ true)
      × (w'.full_message ≡ s)
      × (w'.accumulated ≡ [])
      × (w'.string_insert_count ≡ 0)
unfolding wait_for_fragments
fragments_received p duration rssi f [] s w waits h k few e =
    wait_last p duration rssi f w waits k.0 (omega arith) s (
      ap (λ t. search_delimiter (w.accumulated ++ t)) (sym (append_nil f.1))
      ∙ ap search_delimiter e
      ∙ search_delimiter_found s h)
fragments_received p duration rssi f (g ∷ fs) s w waits h k few e =
    let rest : (w.accumulated ++ f.1) ++ concat (g ∷ fs) ≡ s ++ b'|' ∷ b'|' ∷ [] =
      append_assoc w.accumulated f.1 (concat (g ∷ fs)) ∙ e in
    let absent =
      none_before (w.accumulated ++ f.1) (concat (g ∷ fs)) s h
        (is_empty-append g.1 (concat fs) k.1.0) rest in
    let (waits', acc, count) = wait_inside p duration rssi f w waits k.0 (omega arith) absent in
    fragments_received p duration rssi g fs s (wait_for_message p duration (reception rssi f) w).1
      waits' h k.1 (omega (arith, count)) (ap (λ a. a ++ concat (g ∷ fs)) acc ∙ rest)
