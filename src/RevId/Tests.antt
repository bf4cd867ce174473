-- ===== src/RevId/Tests.antt =====
-- Revision IDs as text.
use cbl.Prelude.{◌≡◌, refl, true, false, some, none, [], ◌∷◌, arith, ok, Slice}
use cbl.Fleece.Sample.{sample, read_one, find_byte}
use cbl.RevId.Digits.{parse_digits-write_digits}
use cbl.RevId.RoundTrip.{try_parse-expand}
use cbl.RevId.Hex.{parse_hex-bytes_to_hex}
use cbl.RevId.Text.{expand, try_parse, parse_digits, write_digits, parse_hex, bytes_to_hex}

-- "12-0aff".
expands : expand sample (12 ∷ 10 ∷ 255 ∷ []) ≡ ok (49 ∷ 50 ∷ 45 ∷ 48 ∷ 97 ∷ 102 ∷ 102 ∷ [])
unfolding expand read_one cbl.RevId.get_gen_and_digest
expands = refl

parses :
    try_parse sample (49 ∷ 50 ∷ 45 ∷ 48 ∷ 97 ∷ 102 ∷ 102 ∷ []) false ≡ some (12 ∷ 10 ∷ 255 ∷ [])
unfolding try_parse find_byte
parses = refl

-- A clock, "3@ab", which is parsed only where it is allowed.
parses_clock : try_parse sample (51 ∷ 64 ∷ 97 ∷ 98 ∷ []) true ≡ some (0 ∷ 3 ∷ 97 ∷ 98 ∷ [])
unfolding try_parse find_byte
parses_clock = refl

refuses_clock : try_parse sample (51 ∷ 64 ∷ 97 ∷ 98 ∷ []) false ≡ none
unfolding try_parse find_byte
refuses_clock = refl

parse_digits-write_digits_example : parse_digits (write_digits 1234) ≡ 1234
parse_digits-write_digits_example = parse_digits-write_digits 1234 (omega arith)

parse_hex-bytes_to_hex_example : parse_hex (bytes_to_hex (10 ∷ 255 ∷ [])) ≡ some (10 ∷ 255 ∷ [])
parse_hex-bytes_to_hex_example =
    parse_hex-bytes_to_hex (10 ∷ 255 ∷ []) (omega arith, (omega arith, tt))

try_parse-expand_example :
    (s : Slice) × (expand sample (12 ∷ 10 ∷ 255 ∷ []) ≡ ok s)
    × (try_parse sample s false ≡ some (12 ∷ 10 ∷ 255 ∷ []))
try_parse-expand_example =
    try_parse-expand sample 12 (10 ∷ 255 ∷ []) (ground arith) (omega arith)
      (omega arith, (omega arith, tt)) (omega arith) (omega arith) false
