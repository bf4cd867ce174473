-- ===== src/Fleece/Sample.antt =====
-- A small implementation of the interface, for tests: a varint is one number.
use cbl.Prelude.{
  ℕ, ◌<◌, ◌≡◌, refl, ◌⊎◌, inl, inr, Bool, true, false, ◌||◌, ◌&&◌, Option, none, some, [], ◌∷◌, ◌^◌,
  ◌++◌, Slice, arith, ltb, ◌==◌, has, if◌then◌else◌,
}
use cbl.Fleece.{Fleece}

unfoldable pub bytes_less : Slice → Slice → Bool
bytes_less a [] = false
bytes_less [] (b ∷ s) = true
bytes_less (a ∷ r) (b ∷ s) = ltb a b || (a == b && bytes_less r s)

pub bytes_less_irrefl : (a : Slice) → bytes_less a a ≡ false
unfolding bytes_less
bytes_less_irrefl [] = refl
bytes_less_irrefl (a ∷ r) = ground (arith, bytes_less_irrefl r)

pub bytes_less_trans :
    (a b c : Slice) → bytes_less a b ≡ true → bytes_less b c ≡ true → bytes_less a c ≡ true
unfolding bytes_less
bytes_less_trans a [] c p q = ground arith
bytes_less_trans [] (b ∷ s) [] p q = q
bytes_less_trans [] (b ∷ s) (c ∷ u) p q = refl
bytes_less_trans (a ∷ r) (b ∷ s) [] p q = q
bytes_less_trans (a ∷ r) (b ∷ s) (c ∷ u) p q = ground (arith, bytes_less_trans r s u)

pub bytes_less-total : (a b : Slice) → (bytes_less a b ≡ true) ⊎ (a ≡ b) ⊎ (bytes_less b a ≡ true)
unfolding bytes_less
bytes_less-total [] [] = inr (inl refl)
bytes_less-total [] (b ∷ s) = inl refl
bytes_less-total (a ∷ r) [] = inr (inr refl)
bytes_less-total (a ∷ r) (b ∷ s) = ground (arith, bytes_less-total r s)

unfoldable pub read_one : Slice → Option (ℕ × Slice)
read_one [] = none
read_one (b ∷ r) = some (b, r)

pub read_one-append :
    (n : ℕ) (rest : Slice) → n < 2 ^ 64 → read_one ((n ∷ []) ++ rest) ≡ some (n, rest)
unfolding read_one
read_one-append n rest h = refl

abbrev after_byte : ℕ → Option (Slice × Slice) → Option (Slice × Slice)
after_byte c none = none
after_byte c (some (s, t)) = some (c ∷ s, t)

unfoldable pub find_byte : ℕ → Slice → Option (Slice × Slice)
find_byte b [] = none
find_byte b (c ∷ cs) =
    let rest = after_byte c (find_byte b cs) in if c == b then some ([], cs) else rest

pub find_byte-append :
    (b : ℕ) (front back : Slice)
    → has b front ≡ false
    → find_byte b (front ++ b ∷ back) ≡ some (front, back)
unfolding find_byte
find_byte-append b [] back n = ground arith
find_byte-append b (c ∷ front) back n =
    let other : (c == b) ≡ false = ground arith in
    rw (other, find_byte-append b front back (ground arith)) refl

pub find_byte_missing : (b : ℕ) (s : Slice) → has b s ≡ false → find_byte b s ≡ none
unfolding find_byte
find_byte_missing b [] n = refl
find_byte_missing b (c ∷ s) n =
    let other : (c == b) ≡ false = ground arith in
    rw (other, find_byte_missing b s (ground arith)) refl

abbrev pub sample : Fleece
sample = record {
  put_varint = λ n. n ∷ [];
  varint_size = λ _. 1;
  varint_size_lem = λ _. refl;
  read_varint = read_one;
  slice_less = bytes_less;
  read-put = read_one-append;
  put_head = λ n h. (n, [], refl, h);
  less_irrefl = bytes_less_irrefl;
  less_trans = bytes_less_trans;
  less_total = bytes_less-total;
  find_byte = find_byte;
  find-append = find_byte-append;
  find_missing = find_byte_missing;
}
