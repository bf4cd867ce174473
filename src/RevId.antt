-- ===== src/RevId.antt =====
-- LiteCore/RevTrees/RevID.cc: the compressed revision ID. Its bytes are an optional zero byte (a
-- clock), the generation as a varint and the digest.
pub mod Text
pub mod Hex
pub mod Digits
pub mod RoundTrip
pub mod Tests
use cbl.Prelude.{
  ℕ, ◌^◌, ◌%◌, Bool, false, none, some, [], ◌∷◌, Slice, Result, ok, throws, ◌>>=◌,
  corrupt_revision_data, ltb, ◌==◌, if◌then◌else◌,
}
use cbl.Fleece.{Fleece}

unfoldable pub skip_flag : Slice → Slice
skip_flag [] = []
skip_flag (b ∷ bs) = if b == 0 then bs else b ∷ bs

pub is_clock : Slice → Bool
is_clock [] = false
is_clock (b ∷ bs) = b == 0

module _ (F : Fleece) where
  unfoldable pub get_gen_and_digest : Slice → Result (ℕ × Slice)
  unfolding skip_flag
  get_gen_and_digest id = elim (F.read_varint (skip_flag id)) [
    | none ↦ throws corrupt_revision_data
    | some r ↦ ok r
  ]

  -- Narrowed to `unsigned`.
  unfoldable pub generation : Slice → Result ℕ
  unfolding get_gen_and_digest
  generation id = do (gen, _) ← get_gen_and_digest id; ok (gen % 2 ^ 32)

  unfoldable pub digest : Slice → Result Slice
  unfolding get_gen_and_digest
  digest id = do (_, d) ← get_gen_and_digest id; ok d

  -- `operator<`: by generation, then by digest.
  unfoldable pub less : Slice → Slice → Result Bool
  unfolding generation digest
  less a b = do
    my_gen ← generation a
    other_gen ← generation b
    my_digest ← digest a
    other_digest ← digest b
    ok (if my_gen == other_gen then F.slice_less my_digest other_digest else ltb my_gen other_gen)
