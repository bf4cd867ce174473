-- ===== src/RevId/Text.antt =====
-- RevID.cc: the text of a revision ID, `generation-digest` or, of a clock, `generation@author`, and
-- the parser of it. A character is its ASCII code.
use cbl.Prelude.{
  ℕ, zero, suc, ◌+◌, ◌-◌, ◌*◌, ◌/◌, ◌%◌, ◌^◌, Bool, true, false, not, ◌&&◌, ◌||◌, Option, none,
  some, [], ◌∷◌, ◌++◌, Slice, Result, ok, throws, ◌>>=◌, corrupt_revision_data, bad_revision_id,
  ltb, leb, ◌==◌, if◌then◌else◌, length,
}
use cbl.Fleece.{Fleece}
use cbl.RevId.{is_clock, get_gen_and_digest}

unfoldable pub is_digit : ℕ → Bool
is_digit c = leb 48 c && leb c 57

unfoldable pub digit_to_int : ℕ → ℕ
unfolding is_digit
digit_to_int c =
    if is_digit c
    then c - 48
    else if leb 97 c && leb c 102
    then c - 87
    else if leb 65 c && leb c 70
    then c - 55
    else 0

-- The loop of `parseDigits`, in 64 bits.
unfoldable pub parse_from : ℕ → Slice → ℕ
unfolding is_digit
parse_from result [] = result
parse_from result (c ∷ cs) =
    let rest = parse_from ((10 * result + (c - 48)) % 2 ^ 64) cs in if is_digit c then rest else 0

unfoldable pub parse_digits : Slice → ℕ
unfolding parse_from
parse_digits s = parse_from 0 s

-- The loop of `writeDigits`, which fills its 20 bytes from the end.
unfoldable pub write_loop : ℕ → ℕ → Slice → Slice
write_loop zero n dst = dst
write_loop (suc fuel) n dst =
    let rest = write_loop fuel (n / 10) ((48 + n % 10) ∷ dst) in
    if ltb 0 (n / 10) then rest else (48 + n % 10) ∷ dst

unfoldable pub write_digits : ℕ → Slice
unfolding write_loop
write_digits n = if ltb n 10 then (48 + n) ∷ [] else write_loop 20 n []

-- `hexchar`.
unfoldable pub hex_char : ℕ → ℕ
hex_char d = if ltb d 10 then 48 + d else 87 + d

unfoldable pub bytes_to_hex : Slice → Slice
unfolding hex_char
bytes_to_hex [] = []
bytes_to_hex (b ∷ bs) = hex_char (b / 16) ∷ hex_char (b % 16) ∷ bytes_to_hex bs

unfoldable pub is_lower_xdigit : ℕ → Bool
unfolding is_digit
is_lower_xdigit c = is_digit c || (leb 97 c && leb c 102)

-- `_expandInto`.
unfoldable pub expand : Fleece → Slice → Result Slice
unfolding write_digits bytes_to_hex is_clock
expand F id = do
  (gen, digest) ← get_gen_and_digest F id
  ok (write_digits gen ++ (if is_clock id then 64 ∷ digest else 45 ∷ bytes_to_hex digest))

abbrev push_byte : ℕ → Option Slice → Option Slice
push_byte b none = none
push_byte b (some bs) = some (b ∷ bs)

-- The digest's loop; the number of digits is even.
unfoldable pub parse_hex : Slice → Option Slice
unfolding is_lower_xdigit digit_to_int
parse_hex [] = some []
parse_hex (c ∷ []) = none
parse_hex (c ∷ d ∷ rest) =
    let more = push_byte ((16 * digit_to_int c + digit_to_int d) % 2 ^ 8) (parse_hex rest) in
    if not (is_lower_xdigit c) || not (is_lower_xdigit d) then none else more

-- The size of `_buffer`.
abbrev pub buffer_size : ℕ
buffer_size = 42

abbrev put_before : Slice → Option Slice → Option Slice
put_before front none = none
put_before front (some back) = some (front ++ back)

-- The bytes of an ID whose generation is parsed.
unfoldable pub parse_suffix : Fleece → Bool → ℕ → Slice → Option Slice
unfolding parse_hex
parse_suffix F true gen suffix =
    if ltb buffer_size (1 + length (F.put_varint gen) + length suffix)
    then none
    else some (0 ∷ F.put_varint gen ++ suffix)
parse_suffix F false gen suffix =
    let size = length (F.put_varint gen) + length suffix / 2 in
    let digest = put_before (F.put_varint gen) (parse_hex suffix) in
    if ltb buffer_size size || length suffix % 2 == 1 then none else digest

-- `size` is that of the whole text.
unfoldable pub parse_parts : Fleece → Bool → ℕ → Slice → Slice → Option Slice
unfolding parse_digits parse_suffix
parse_parts F clock size front suffix =
    let gen = parse_digits front in
    let rest = if gen == 0 then none else parse_suffix F clock gen suffix in
    if length front == 0 || (ltb 20 (length front) || leb (size - 1) (length front))
    then none
    else rest

-- `tryParse`: the bytes of the ID, or `none` for text that is no ID.
unfoldable pub try_parse : Fleece → Slice → Bool → Option Slice
unfolding parse_parts
try_parse F ascii allow_clock = elim (F.find_byte 64 ascii) [
  | some (front, suffix) ↦
      if allow_clock then parse_parts F true (length ascii) front suffix else none
  | none ↦ elim (F.find_byte 45 ascii) [
    | none ↦ none
    | some (front, suffix) ↦ parse_parts F false (length ascii) front suffix
  ]
]

abbrev or_bad : Option Slice → Result Slice
or_bad none = throws bad_revision_id
or_bad (some id) = ok id

pub parse : Fleece → Slice → Bool → Result Slice
unfolding try_parse
parse F s allow_clock = or_bad (try_parse F s allow_clock)

pub parse_new : Fleece → Slice → Result Slice
unfolding try_parse
parse_new F s = or_bad (try_parse F s true)

-- The constructor of a `revidBuffer` from a generation, a digest and whether it is a clock.
pub from_parts : Fleece → ℕ → Slice → Bool → Result Slice
from_parts F generation digest clock =
    let id = (if clock then 0 ∷ [] else []) ++ F.put_varint generation ++ digest in
    if ltb buffer_size (length id) then throws corrupt_revision_data else ok id
