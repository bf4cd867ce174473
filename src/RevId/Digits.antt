-- ===== src/RevId/Digits.antt =====
-- The decimal text of a generation.
use cbl.Prelude.{
  ℕ, zero, suc, ◌<◌, ◌≡◌, ◌*◌, ◌+◌, ◌-◌, ◌/◌, ◌%◌, ◌^◌, refl, ◌∙◌, true, false, [], ◌∷◌, Slice,
  arith, Bool-cases, inl, inr, ltb,
}
use cbl.RevId.Text.{parse_from, parse_digits, write_loop, write_digits, is_digit}

-- A number of at most `fuel + 1` digits.
abbrev Fits : ℕ → ℕ → Type 0
Fits zero n = n < 10
Fits (suc fuel) n = Fits fuel (n / 10)

next_digit : (n : ℕ) → n < 2 ^ 64 → (10 * (n / 10) + (48 + n % 10 - 48)) % 2 ^ 64 ≡ n
next_digit n small = omega arith

parse_from_digit :
    (n : ℕ) (dst : Slice)
    → n < 2 ^ 64
    → parse_from (n / 10) ((48 + n % 10) ∷ dst) ≡ parse_from n dst
unfolding parse_from is_digit
parse_from_digit n dst small =
    let digit : is_digit (48 + n % 10) ≡ true = ground arith in rw (digit, next_digit n small) refl

last_digit : (n : ℕ) → n < 2 ^ 64 → ltb 0 (n / 10) ≡ false → n / 10 ≡ 0
last_digit n small end = ground arith

-- Reading what `write_loop` wrote goes on from the number that it was given.
parse_from-write_loop :
    (fuel n : ℕ) (dst : Slice)
    → Fits fuel n
    → n < 2 ^ 64
    → parse_from 0 (write_loop (suc fuel) n dst) ≡ parse_from n dst
unfolding write_loop
parse_from-write_loop zero n dst low small =
    let end : n / 10 ≡ 0 = omega arith in rw end (rw end at (parse_from_digit n dst small))
parse_from-write_loop (suc fuel) n dst low small = elim (Bool-cases (ltb 0 (n / 10))) [
  | inl more ↦ rw more (
      parse_from-write_loop fuel (n / 10) ((48 + n % 10) ∷ dst) low (omega arith)
      ∙ parse_from_digit n dst small)
  | inr end ↦ rw end (rw (last_digit n small end) at (parse_from_digit n dst small))
]

Fits-64 : (n : ℕ) → n < 2 ^ 64 → Fits 19 n
Fits-64 n small = omega arith

-- The generation that `parseDigits` reads from what `writeDigits` wrote of a 64-bit number is that
-- number: the 20 bytes of the buffer are enough.
pub parse_digits-write_digits : (n : ℕ) → n < 2 ^ 64 → parse_digits (write_digits n) ≡ n
unfolding parse_digits write_digits parse_from is_digit
parse_digits-write_digits n small = elim (Bool-cases (ltb n 10)) [
  | inl one ↦ rw one (ground arith)
  | inr more ↦ rw more (parse_from-write_loop 19 n [] (Fits-64 n small) small)
]
