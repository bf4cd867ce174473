-- ===== src/Fleece.antt =====
-- The parts of vendor/fleece (a submodule) that the code calls: varints, the search for a byte and the
-- order of slices.
pub mod Sample
use cbl.Prelude.{
  ℕ, ◌^◌, ◌<◌, ◌≡◌, ◌≢◌, ◌⊎◌, Bool, true, false, Option, some, ◌∷◌, ◌++◌, Slice, has, none, length,
}

-- `PutUVarInt`, `ReadUVarInt` (the number and what follows it, or `none` where the buffer is too
-- short), `slice::operator<` and `slice::findByte` (what stands before the first such byte, and what
-- comes after it), with their documented behaviour.
pub record Fleece : Type 0 where
  pub put_varint : ℕ → Slice
  -- `SizeOfVarInt`.
  pub varint_size : ℕ → ℕ
  pub read_varint : Slice → Option (ℕ × Slice)
  pub slice_less : Slice → Slice → Bool
  pub varint_size_lem : (n : ℕ) → varint_size n ≡ length (put_varint n)
  pub read-put :
      (n : ℕ) (rest : Slice) → n < 2 ^ 64 → read_varint (put_varint n ++ rest) ≡ some (n, rest)
  -- Only the varint of 0 starts with a zero byte.
  pub put_head : (n : ℕ) → n ≢ 0 → (b : ℕ) × (bs : Slice) × (put_varint n ≡ b ∷ bs) × (b ≢ 0)
  pub less_irrefl : (a : Slice) → slice_less a a ≡ false
  pub less_trans :
      (a b c : Slice) → slice_less a b ≡ true → slice_less b c ≡ true → slice_less a c ≡ true
  pub less_total : (a b : Slice) → (slice_less a b ≡ true) ⊎ (a ≡ b) ⊎ (slice_less b a ≡ true)
  pub find_byte : ℕ → Slice → Option (Slice × Slice)
  pub find-append :
      (b : ℕ) (front back : Slice)
      → has b front ≡ false
      → find_byte b (front ++ b ∷ back) ≡ some (front, back)
  pub find_missing : (b : ℕ) (s : Slice) → has b s ≡ false → find_byte b s ≡ none
