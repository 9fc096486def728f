-- ===== src/AtHandler/Tests.antt =====
-- Streams of the modem, and the theorems on them.
use gateway_lo_ra.Prelude.{
  ℕ, ◌≡◌, refl, false, List, [], ◌∷◌, ◌++◌, arith, length, codes, c_string, replicate,
}
use gateway_lo_ra.AtHandler.{read_at_response, read_at_response_sized}
use gateway_lo_ra.AtHandler.Lines.{
  split_lines, collect_map, responses, delivered, responses-split_lines,
}
use gateway_lo_ra.AtHandler.Sized.{rest, delivered_sized, responses_sized-split_lines}

-- "\r\nOK\r\n+CP" : one line, and the beginning of another
abbrev stream : List ℕ
stream = b'\r' ∷ b'\n' ∷ b'O' ∷ b'K' ∷ b'\r' ∷ b'\n' ∷ b'+' ∷ b'C' ∷ b'P' ∷ []

stream_lines : collect_map delivered (split_lines [] stream) ≡ codes "OK" ∷ []
unfolding split_lines collect_map delivered c_string
stream_lines = refl

responses-split_lines_example :
    responses
      (read_at_response false)
      (length stream)
      (record { buffer = []; rx = stream; tx = [] })
    ≡ collect_map delivered (split_lines [] stream)
responses-split_lines_example = responses-split_lines stream []

-- 1026 bytes and an end of line: the first 1024 bytes are lost
abbrev long_stream : List ℕ
long_stream = replicate 1024 b'x' ++ codes "OK" ++ b'\r' ∷ []

long_stream_lines : collect_map (delivered_sized 128) (split_lines [] long_stream) ≡ codes "OK" ∷ []
unfolding split_lines collect_map delivered_sized rest c_string
long_stream_lines = refl

responses_sized-split_lines_example :
    responses
      (read_at_response_sized false 128)
      (length stream)
      (record { buffer = []; rx = stream; tx = [] })
    ≡ collect_map (delivered_sized 128) (split_lines [] stream)
responses_sized-split_lines_example = responses_sized-split_lines 128 stream [] (omega arith)
