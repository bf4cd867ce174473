-- ===== src/RawRevTree/Stored.antt =====
-- One revision, stored and read back.
use cbl.Prelude.{
  ℕ, ◌+◌, ◌%◌, ◌^◌, ◌<◌, ◌≡◌, refl, false, Option, none, some, ◌∷◌, ◌++◌, Slice, ok, arith, length,
  length-append,
}
use cbl.Fleece.{Fleece}
use cbl.RevTree.{Rev}
use cbl.RawRevTree.{
  enc16, enc32, stored_flags, next_rev, bytes, is_there, size_to_write, raw_rev, copy_to, parent_at,
  body_if,
}
use cbl.RawRevTree.Bytes.{
  dec16_lem, split_at-append, next_rev-append, loaded-stored_flags, has_data-stored_flags,
  kept_flags,
}

-- What can be stored of a revision: the ID's length in a byte, the sequence in 64 bits and the whole
-- record's size in 32, and no mark of an unfinished removal, whose bit means something else there.
pub record Storable (F : Fleece) (r : Rev) : Type 0 where
  pub id_fits : length r.rev_id < 2 ^ 8
  pub sequence_fits : r.sequence < 2 ^ 64
  pub size_fits : size_to_write F r < 2 ^ 32
  pub unmarked : r.purge ≡ false

-- The revision that is read back under a parent: it is not new.
abbrev pub kept : Rev → Option ℕ → Rev
kept r parent = record r { parent = parent; flags = kept_flags r.flags }

body-bytes : (body : Option Slice) → body_if (is_there body) (bytes body) ≡ body
body-bytes none = refl
body-bytes (some s) = refl

module _ (F : Fleece) where
  -- All of a record but its size.
  abbrev after_size : Rev → ℕ → Slice
  after_size r parent =
      enc16 parent
      ++ (stored_flags r.flags (is_there r.body)
          ∷ (length r.rev_id % 2 ^ 8)
          ∷ (r.rev_id ++ (F.put_varint r.sequence ++ bytes r.body)))

  length-after_size : (r : Rev) (parent : ℕ) → size_to_write F r ≡ 4 + length (after_size r parent)
  unfolding size_to_write enc16
  length-after_size r parent = omega (
    arith,
    length-append r.rev_id (F.put_varint r.sequence ++ bytes r.body),
    length-append (F.put_varint r.sequence) (bytes r.body),
    F.varint_size_lem r.sequence,
  )

  pub next_rev-raw_rev :
      (r : Rev) (parent : ℕ) (rest : Slice)
      → Storable F r
      → next_rev (raw_rev F r parent ++ rest) ≡ ok (some (raw_rev F r parent), rest)
  unfolding raw_rev
  next_rev-raw_rev r parent rest v =
      next_rev-append (size_to_write F r) (after_size r parent) rest v.size_fits
        (length-after_size r parent)

  pub copy_to-raw_rev :
      (r : Rev) (i count : ℕ) (parent : Option ℕ)
      → Storable F r
      → i < 2 ^ 16
      → parent_at count i ≡ ok parent
      → copy_to F count (raw_rev F r i) ≡ ok (kept r parent)
  unfolding raw_rev copy_to enc16 enc32
  copy_to-raw_rev r i count parent v small at =
      let id_len : length r.rev_id % 2 ^ 8 ≡ length r.rev_id = omega (arith, v.id_fits) in
      rw
        (
          id_len,
          split_at-append r.rev_id (F.put_varint r.sequence ++ bytes r.body),
          dec16_lem i small,
          at,
          F.read-put r.sequence (bytes r.body) v.sequence_fits,
          loaded-stored_flags r.flags (is_there r.body),
          has_data-stored_flags r.flags (is_there r.body),
          v.unmarked,
          body-bytes r.body,
        )
        refl
