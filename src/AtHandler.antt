-- ===== src/AtHandler.antt =====
-- Modules/ATCommandHandler: lines of the modem, read one byte to a call, and commands sent to it.
use gateway_lo_ra.Prelude.{
  ℕ, ◌+◌, ◌-◌, ◌<◌, ◌≤◌, Bool, true, false, ◌||◌, List, [], ◌∷◌, ◌++◌, Option, none, some, ◌==◌,
  ltb, if◌then◌else◌, length, take, is_empty, c_string,
}
pub mod Lines
pub mod Sized
mod Tests

-- `BUFFER_LEN_AT_COMMAND_HANDLER`
abbrev pub buffer_len : ℕ
buffer_len = 1024

-- `buffer` is its first `bufferIndex` bytes, `rx` what the UART holds unread, `tx` what it was sent.
pub record AtHandler : Type 0 where
  pub buffer : List ℕ
  pub rx : List ℕ
  pub tx : List ℕ

-- the constructor, on a UART with these bytes unread
unfoldable pub new : List ℕ → AtHandler
new rx = record { buffer = []; rx = rx; tx = [] }

-- `sendATCommand (char *)`: the second write is of 3 bytes, so the line ends in CR, LF and 0.
unfoldable pub send_at_command : List ℕ → AtHandler → AtHandler
send_at_command command h = record h { tx = h.tx ++ (command ++ b'\r' ∷ b'\n' ∷ 0 ∷ []) }

-- `sendATCommand (const char *, size_t)`
unfoldable pub send_at_command_sized : List ℕ → ℕ → AtHandler → AtHandler
unfolding send_at_command
send_at_command_sized command size h = send_at_command (take size command) h

abbrev pub is_terminator : ℕ → Bool
is_terminator c = c == b'\r' || c == b'\n'

-- `if (readable ()) { read (&c, 1); ... }`: one byte at most, given to the rest of the body.
unfoldable pub read_if_readable {ℓ} :
    {A : Type ℓ}
    → (ℕ → AtHandler → Option A × AtHandler)
    → List ℕ
    → AtHandler
    → Option A × AtHandler
read_if_readable body [] h = (none, h)
read_if_readable body (c ∷ cs) h = body c (record h { rx = cs })

-- The body of `readATResponse (char *)` for one byte that the UART gave.
unfoldable pub read_byte : ℕ → AtHandler → Option (List ℕ) × AtHandler
read_byte c h =
    if is_terminator c
    then (if ltb 0 (length h.buffer)
        then (some (c_string h.buffer), record h { buffer = [] })
        else (none, h))
    else (if ltb (length h.buffer) (buffer_len - 1)
        then (none, record h { buffer = h.buffer ++ c ∷ [] })
        else (none, h))

-- `readATResponse (char *)`: `none` is the result false, `some s` true with `s` copied out.
unfoldable pub read_at_response : Bool → AtHandler → Option (List ℕ) × AtHandler
unfolding read_byte read_if_readable
read_at_response is_null h = if is_null then (none, h) else read_if_readable read_byte h.rx h

-- The body of `readATResponse (char *, size_t)`: the copy is cut to the caller's buffer, and a
-- byte that finds the handler's buffer full empties it.
unfoldable pub read_byte_sized : ℕ → ℕ → AtHandler → Option (List ℕ) × AtHandler
read_byte_sized buffer_size c h =
    if is_terminator c
    then (if ltb 0 (length h.buffer)
        then (some (take (buffer_size - 1) (c_string h.buffer)), record h { buffer = [] })
        else (none, h))
    else (if ltb (length h.buffer) (buffer_len - 1)
        then (none, record h { buffer = h.buffer ++ c ∷ [] })
        else (none, record h { buffer = [] }))

-- `readATResponse (char *, size_t)`
unfoldable pub read_at_response_sized : Bool → ℕ → AtHandler → Option (List ℕ) × AtHandler
unfolding read_byte_sized read_if_readable
read_at_response_sized is_null buffer_size h =
    if is_null || buffer_size == 0
    then (none, h)
    else read_if_readable (read_byte_sized buffer_size) h.rx h

-- `readChar`
unfoldable pub read_char : AtHandler → Option ℕ × AtHandler
unfolding read_if_readable
read_char h = read_if_readable (λ c rest. (some c, rest)) h.rx h
