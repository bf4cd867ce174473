-- ===== src/RawRevTree/Whole.antt =====
-- A whole tree, stored and read back.
use cbl.Prelude.{
  ℕ, suc, ◌<◌, ◌≤◌, ◌≡◌, refl, true, false, Option, none, some, List, [], ◌∷◌, ◌++◌, map, Slice, ok,
  >>=-eq-ok, >>=_total, ok-injective, arith, ltb, length, length-append, All, has,
}
use cbl.Fleece.{Fleece}
use cbl.RevTree.{Rev, RevTree}
use cbl.RevTree.WellFormed.{IsTree}
use cbl.RawRevTree.{
  enc32, raw_rev, parent_index, encode_revs, encode_remotes, encode_tree, decode_tree, decode,
  heap_of, number_from,
}
use cbl.RawRevTree.Places.{index_of_total}
use cbl.RawRevTree.RoundTrip.{
  image, NewRemotes, remote_places, count_revs-encode_revs, decode_revs-encode_revs,
  decode_remotes-encode_remotes,
}
use cbl.RawRevTree.Stored.{Storable}

-- What can be stored of a tree.
pub record StorableTree (F : Fleece) (t : RevTree) : Type 0 where
  pub revs : All (λ a. Storable F (t.heap a)) t.revs
  pub few : length t.revs ≤ 65535
  pub remotes : NewRemotes [] t.remote_revs

-- The tree that is read back: the same revisions in the same order, at the addresses from 0 on.
abbrev pub tree_image : ℕ → RevTree → RevTree
tree_image current t =
    let revs : List Rev = map (image current t.revs t.heap) t.revs in
    record {
      heap = heap_of revs;
      allocated = length revs;
      revs = number_from 0 revs;
      sorted = true;
      remote_revs = remote_places t.revs t.remote_revs;
      changed = false;
      unknown = false;
    }

raw_rev_pos : (F : Fleece) (r : Rev) (i : ℕ) → 0 < length (raw_rev F r i)
unfolding raw_rev enc32
raw_rev_pos F r i = omega arith

not_more : (n : ℕ) → n ≤ 65535 → ltb 65535 n ≡ false
not_more n h = ground arith

module _ (F : Fleece) (t : RevTree) where
  encode_revs_longer :
      (xs : List ℕ) (s : Slice) → encode_revs F t.revs t.heap xs ≡ ok s → length xs ≤ length s
  unfolding encode_revs
  encode_revs_longer [] s e = omega arith
  encode_revs_longer (a ∷ xs) s e =
      let (i, at, later) = >>=-eq-ok (parent_index t.revs (t.heap a).parent) _ e in
      let (more, rec, last) = >>=-eq-ok (encode_revs F t.revs t.heap xs) _ later in
      rw (← ok-injective last) (
        omega (
          arith,
          length-append (raw_rev F (t.heap a) i) more,
          raw_rev_pos F (t.heap a) i,
          encode_revs_longer xs more rec,
        ))

  parent_index_total :
      (p : Option ℕ)
      → ((q : ℕ) → p ≡ some q → has q t.revs ≡ true)
      → (i : ℕ) × (parent_index t.revs p ≡ ok i)
  unfolding parent_index
  parent_index_total none h = (_, refl)
  parent_index_total (some q) h = index_of_total t.revs q (h q refl)

  encode_revs_total :
      (xs : List ℕ)
      → IsTree F t
      → ((a : ℕ) → has a xs ≡ true → has a t.revs ≡ true)
      → (s : Slice) × (encode_revs F t.revs t.heap xs ≡ ok s)
  unfolding encode_revs
  encode_revs_total [] v within = (_, refl)
  encode_revs_total (a ∷ xs) v within =
      let m : has a t.revs ≡ true = within a (ground arith) in
      let (i, at) = parent_index_total (t.heap a).parent (λ q e. (v.parents a q m e).0) in
      let (s, rec) = encode_revs_total xs v (λ b k. within b (ground arith)) in
      >>=_total _ _ i at (>>=_total _ _ s rec (_, refl))

  encode_remotes_total :
      (m : List (ℕ × ℕ))
      → All (λ e. has e.1 t.revs ≡ true) m
      → (s : Slice) × (encode_remotes t.revs m ≡ ok s)
  unfolding encode_remotes
  encode_remotes_total [] v = (_, refl)
  encode_remotes_total ((k, a) ∷ m) v =
      let (i, at) = index_of_total t.revs a v.0 in
      let (s, rec) = encode_remotes_total m v.1 in
      >>=_total _ _ i at (>>=_total _ _ s rec (_, refl))

  -- A well-formed tree that can be stored (IDs below 256 bytes, sequences in 64 bits, records in 32, at
  -- most 65535 revisions, remotes from 1 to 65535) is encoded, and the bytes are decoded to a tree
  -- with the same revisions in the same order, with the same IDs, bodies, parents and remotes and the
  -- same flags but `kNew`; a revision without a sequence gets the record's.
  pub decode-encode_tree :
      (current : ℕ)
      → IsTree F t
      → StorableTree F t
      → (s : Slice) × (encode_tree F t ≡ ok s) × (decode F current s ≡ ok (tree_image current t))
  unfolding encode_tree decode decode_tree
  decode-encode_tree current v w =
      let (a, revs) = encode_revs_total t.revs v (λ _ m. m) in
      let (b, remotes) = encode_remotes_total t.remote_revs v.remotes in
      let enough : length t.revs < suc (length (a ++ (enc32 0 ++ b))) =
        omega (arith, length-append a (enc32 0 ++ b), encode_revs_longer t.revs a revs) in
      let few : ltb 65535 (length t.revs) ≡ false = not_more (length t.revs) w.few in
      (
        a ++ (enc32 0 ++ b),
        rw (revs, remotes) refl,
        rw
            (
              count_revs-encode_revs F current t.revs t.heap w.few t.revs a b _ w.revs revs enough,
              few,
              decode_revs-encode_revs F current t.revs t.heap w.few t.revs a b _ w.revs revs enough,
              decode_remotes-encode_remotes t.revs t.remote_revs [] b w.few w.remotes remotes,
            )
            refl,
      )
