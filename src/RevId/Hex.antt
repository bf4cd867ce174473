-- ===== src/RevId/Hex.antt =====
-- The hexadecimal text of a digest.
use cbl.Prelude.{ℕ, ◌<◌, ◌≡◌, ◌*◌, ◌+◌, ◌/◌, ◌%◌, ◌^◌, refl, true, some, [], ◌∷◌, Slice, arith, All}
use cbl.RevId.Text.{hex_char, bytes_to_hex, parse_hex, is_lower_xdigit, digit_to_int, is_digit}

hex_char-digit : (d : ℕ) → d < 16 → digit_to_int (hex_char d) ≡ d
unfolding hex_char digit_to_int is_digit
hex_char-digit d low = ground arith

hex_char_lower : (d : ℕ) → d < 16 → is_lower_xdigit (hex_char d) ≡ true
unfolding hex_char is_lower_xdigit is_digit
hex_char_lower d low = ground arith

halves : (b : ℕ) → b < 2 ^ 8 → (16 * (b / 16) + b % 16) % 2 ^ 8 ≡ b
halves b low = omega arith

-- The parser of a digest reads back every sequence of bytes that is written in hexadecimal.
pub parse_hex-bytes_to_hex :
    (s : Slice) → All (λ b. b < 2 ^ 8) s → parse_hex (bytes_to_hex s) ≡ some s
unfolding parse_hex bytes_to_hex
parse_hex-bytes_to_hex [] v = refl
parse_hex-bytes_to_hex (b ∷ s) v =
    let high : b / 16 < 16 = omega (arith, v.0) in
    let low : b % 16 < 16 = omega arith in
    rw
      (
        hex_char_lower (b / 16) high,
        hex_char_lower (b % 16) low,
        hex_char-digit (b / 16) high,
        hex_char-digit (b % 16) low,
        parse_hex-bytes_to_hex s v.1,
        halves b v.0,
      )
      refl
