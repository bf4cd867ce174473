-- ===== src/RevId/RoundTrip.antt =====
-- A whole revision ID as text and back.
use cbl.Prelude.{
  ℕ, zero, suc, ◌<◌, ◌≤◌, ◌≡◌, ◌≢◌, ◌*◌, ◌+◌, ◌-◌, ◌/◌, ◌%◌, ◌^◌, refl, ap, ◌∙◌, Bool, false, ◌||◌,
  some, none, [], ◌∷◌, ◌++◌, Slice, arith, All, has, has-append, length, length-append, Bool-cases,
  inl, inr, ltb, leb, ◌==◌, ok,
}
use cbl.Fleece.{Fleece}
use cbl.RevId.{skip_flag, is_clock, get_gen_and_digest}
use cbl.RevId.Text.{
  hex_char, bytes_to_hex, is_lower_xdigit, is_digit, write_loop, write_digits, parse_digits, expand,
  try_parse, parse_parts, parse_suffix, buffer_size,
}
use cbl.RevId.Digits.{parse_digits-write_digits}
use cbl.RevId.Hex.{parse_hex-bytes_to_hex}

-- The digits of a generation are digits, from 1 to 20 of them.
has-write_loop :
    (b fuel n : ℕ) (dst : Slice)
    → is_digit b ≡ false
    → has b dst ≡ false
    → has b (write_loop fuel n dst) ≡ false
unfolding write_loop is_digit
has-write_loop b zero n dst other m = m
has-write_loop b (suc fuel) n dst other m =
    let here : has b ((48 + n % 10) ∷ dst) ≡ false = ground arith in
    elim (Bool-cases (ltb 0 (n / 10))) [
      | inl more ↦ rw more (has-write_loop b fuel (n / 10) ((48 + n % 10) ∷ dst) other here)
      | inr end ↦ rw end here
    ]

has-write_digits : (b n : ℕ) → is_digit b ≡ false → has b (write_digits n) ≡ false
unfolding write_digits is_digit
has-write_digits b n other = elim (Bool-cases (ltb n 10)) [
  | inl one ↦ rw one (ground arith)
  | inr more ↦ rw more (has-write_loop b 20 n [] other refl)
]

length-write_loop :
    (fuel n : ℕ) (dst : Slice)
    → (length dst ≤ length (write_loop fuel n dst))
      × (length (write_loop fuel n dst) ≤ fuel + length dst)
unfolding write_loop
length-write_loop zero n dst = (omega arith, omega arith)
length-write_loop (suc fuel) n dst = elim (Bool-cases (ltb 0 (n / 10))) [
  | inl more ↦
      let (low, high) = length-write_loop fuel (n / 10) ((48 + n % 10) ∷ dst) in
      rw more (omega arith, omega arith)
  | inr end ↦ rw end (omega arith, omega arith)
]

length-write_digits : (n : ℕ) → (1 ≤ length (write_digits n)) × (length (write_digits n) ≤ 20)
unfolding write_digits write_loop
length-write_digits n = elim (Bool-cases (ltb n 10)) [
  | inl one ↦ rw one (omega arith, omega arith)
  | inr more ↦ rw more (elim (Bool-cases (ltb 0 (n / 10))) [
    | inl on ↦
        let (low, high) = length-write_loop 19 (n / 10) ((48 + n % 10) ∷ []) in
        rw on (omega arith, omega arith)
    | inr end ↦ rw end (omega arith, omega arith)
  ])
]

length-bytes_to_hex : (s : Slice) → length (bytes_to_hex s) ≡ 2 * length s
unfolding bytes_to_hex
length-bytes_to_hex [] = omega arith
length-bytes_to_hex (b ∷ s) = omega (arith, length-bytes_to_hex s)

hex_char_differs : (b d : ℕ) → is_lower_xdigit b ≡ false → d < 16 → (b == hex_char d) ≡ false
unfolding hex_char is_lower_xdigit is_digit
hex_char_differs b d other low = ground arith

has-bytes_to_hex :
    (b : ℕ) (s : Slice)
    → is_lower_xdigit b ≡ false
    → All (λ c. c < 2 ^ 8) s
    → has b (bytes_to_hex s) ≡ false
unfolding bytes_to_hex
has-bytes_to_hex b [] other v = refl
has-bytes_to_hex b (c ∷ s) other v =
    rw
      (
        hex_char_differs b (c / 16) other (omega (arith, v.0)),
        hex_char_differs b (c % 16) other (omega arith),
        has-bytes_to_hex b s other v.1,
      )
      refl

-- The steps of the expansion and of the parser.
read_parts :
    (F : Fleece) (id digest : Slice) (gen : ℕ)
    → F.read_varint (skip_flag id) ≡ some (gen, digest)
    → get_gen_and_digest F id ≡ ok (gen, digest)
unfolding get_gen_and_digest
read_parts F id digest gen e = rw (e, get_gen_and_digest) refl

expand_digest :
    (F : Fleece) (id digest : Slice) (gen : ℕ)
    → get_gen_and_digest F id ≡ ok (gen, digest)
    → is_clock id ≡ false
    → expand F id ≡ ok (write_digits gen ++ 45 ∷ bytes_to_hex digest)
unfolding expand
expand_digest F id digest gen e plain = rw (e, plain) refl

parse_split :
    (F : Fleece) (allow_clock : Bool) (s front suffix : Slice)
    → F.find_byte 64 s ≡ none
    → F.find_byte 45 s ≡ some (front, suffix)
    → try_parse F s allow_clock ≡ parse_parts F false (length s) front suffix
unfolding try_parse
parse_split F allow_clock s front suffix plain split = rw (plain, split, try_parse) refl

parse_valid :
    (F : Fleece) (size : ℕ) (front suffix : Slice)
    → (length front == 0 || (ltb 20 (length front) || leb (size - 1) (length front))) ≡ false
    → (parse_digits front == 0) ≡ false
    → parse_parts F false size front suffix ≡ parse_suffix F false (parse_digits front) suffix
unfolding parse_parts parse_digits
parse_valid F size front suffix placed pos = rw (placed, pos) refl

module _ (F : Fleece) (gen : ℕ) (digest : Slice) (pos : gen ≢ 0) (small : gen < 2 ^ 64) where
  abbrev id : Slice
  id = F.put_varint gen ++ digest

  no_flag : (skip_flag id ≡ id) × (is_clock id ≡ false)
  unfolding skip_flag is_clock
  no_flag =
      let (b, bs, is, differs) = F.put_head gen pos in
      let plain : (b == 0) ≡ false = ground arith in (rw (is, plain) refl, rw (is, plain) refl)

  id-parts : get_gen_and_digest F id ≡ ok (gen, digest)
  id-parts = read_parts F id digest gen (ap F.read_varint no_flag.0 ∙ F.read-put gen digest small)

  abbrev text : Slice
  text = write_digits gen ++ 45 ∷ bytes_to_hex digest

  expand-text : expand F id ≡ ok text
  expand-text = expand_digest F id digest gen id-parts no_flag.1

  module _ (bytes : All (λ b. b < 2 ^ 8) digest) (some_byte : 1 ≤ length digest)
      (fits : length (F.put_varint gen) + length digest ≤ buffer_size) where
    no_clock : has 64 text ≡ false
    unfolding is_digit is_lower_xdigit
    no_clock =
        rw
          (
            has-append 64 (write_digits gen) (45 ∷ bytes_to_hex digest),
            has-write_digits 64 gen refl,
            has-bytes_to_hex 64 digest refl bytes,
          )
          refl

    half : length (bytes_to_hex digest) / 2 ≡ length digest
    half = rw (length-bytes_to_hex digest) (omega arith)

    even : length (bytes_to_hex digest) % 2 ≡ 0
    even = rw (length-bytes_to_hex digest) (omega arith)

    suffix_parsed : parse_suffix F false gen (bytes_to_hex digest) ≡ some id
    unfolding parse_suffix
    suffix_parsed =
        let room : ltb 42 (length (F.put_varint gen) + length digest) ≡ false = ground arith in
        rw (half, even, room, parse_hex-bytes_to_hex digest bytes) refl

    placed :
        (length (write_digits gen) == 0
          || (ltb 20 (length (write_digits gen))
              || leb (length text - 1) (length (write_digits gen))))
        ≡ false
    placed =
        let (low, high) = length-write_digits gen in
        let size : length text ≡ length (write_digits gen) + suc (2 * length digest) =
          length-append (write_digits gen) (45 ∷ bytes_to_hex digest)
          ∙ rw (length-bytes_to_hex digest) refl in
        rw size (ground arith)

    -- The text of an ID with a digest is parsed back to the ID, whether or not clocks are allowed: for
    -- a generation other than 0 of 64 bits and a digest of at least one byte, if the ID fits in the
    -- buffer.
    pub try_parse-expand :
        (allow_clock : Bool)
        → (s : Slice) × (expand F id ≡ ok s) × (try_parse F s allow_clock ≡ some id)
    unfolding is_digit
    try_parse-expand allow_clock =
        let back = parse_digits-write_digits gen small in
        let split =
          F.find-append 45 (write_digits gen) (bytes_to_hex digest)
            (has-write_digits 45 gen refl) in
        let valid : (parse_digits (write_digits gen) == 0) ≡ false = rw back (ground arith) in
        (
          text,
          expand-text,
          parse_split F allow_clock text (write_digits gen) (bytes_to_hex digest)
                (F.find_missing 64 text no_clock) split
              ∙ parse_valid F (length text) (write_digits gen) (bytes_to_hex digest) placed valid
              ∙ ap (λ g. parse_suffix F false g (bytes_to_hex digest)) back
              ∙ suffix_parsed,
        )
