-- ===== src/VersionedDocument/Prepared.antt =====
-- What `save` makes of the tree before it is encoded: it is sorted, and loses its stale bodies.
use cbl.Prelude.{
  ℕ, ◌<◌, ◌≤◌, ◌≡◌, ◌⊎◌, refl, sym, ap, ◌∙◌, subst, inl, inr, Bool, true, false, Option, none, some, List, [], ◌∷◌,
  Slice, Result, ok, throws, ◌>>=◌, arith, length, has, All, All_has, if_true, if_false, if◌then◌else◌, ◌^◌,
}
use cbl.Fleece.{Fleece}
use cbl.RevTree.{Rev, RevTree, set_conflict}
use cbl.RevTree.Order.{conflict_among, has_conflict, sort, head?}
use cbl.RevTree.Remove.{drop_body, is_stale, remove_non_leaf_bodies}
use cbl.RevTree.Sorting.{Rearranged, All_intro}
use cbl.RevTree.Sorted.{Resorted, IsSorted}
use cbl.RevTree.Stripped.{Lost, Stripped, remove_non_leaf_bodies-Stripped, Stripped-IsTree}
use cbl.RevTree.Walks.{Enough}
use cbl.RevTree.WellFormed.{IsTree}
use cbl.RawRevTree.{encode, encode_tree, size_to_write, decode, decode_tree, count_revs, next_rev, bytes}
use cbl.RawRevTree.Stored.{Storable}
use cbl.RawRevTree.RoundTrip.{NewRemotes}
use cbl.RawRevTree.Whole.{StorableTree, tree_image, decode-encode_tree}

-- The tree that is encoded: the revisions of `t` in their order, without the stale bodies.
pub record Prepared (F : Fleece) (fuel : ℕ) (t p : RevTree) : Type 0 where
  pub ordered : RevTree
  pub sorting : IsSorted F fuel t ordered
  pub stripped : p ≡ remove_non_leaf_bodies ordered

conflict_among_total :
    (t : RevTree) (xs : List ℕ) → t.unknown ≡ false → (b : Bool) × (conflict_among t xs ≡ ok b)
unfolding conflict_among
conflict_among_total t [] known = (false, if_false t.unknown _ _ known)
conflict_among_total t (_ ∷ []) known = (false, if_false t.unknown _ _ known)
conflict_among_total t (a ∷ b ∷ rest) known = (_, refl)

pub has_conflict_total : (t : RevTree) → t.unknown ≡ false → (b : Bool) × (has_conflict t ≡ ok b)
unfolding has_conflict
has_conflict_total t known = conflict_among_total t t.revs known

pub first_member : (F : Fleece) (xs : List ℕ) → 0 < length xs → (a : ℕ) × (head? F xs ≡ some a)
unfolding head?
first_member F [] h = absurd (omega arith)
first_member F (a ∷ xs) h = (a, refl)

module _ (F : Fleece) where
  conflict-Storable : (c : Bool) (r : Rev) → Storable F r → Storable F (set_conflict c r)
  unfolding size_to_write
  conflict-Storable c r v = record {
    id_fits = v.id_fits;
    sequence_fits = v.sequence_fits;
    size_fits = v.size_fits;
    unmarked = v.unmarked;
  }

  Lost-Storable : (r s : Rev) → Lost r s → Storable F r → Storable F s
  unfolding size_to_write
  Lost-Storable r s (inl e) v = subst (Storable F) (sym e) v
  Lost-Storable r s (inr (_, e)) v = subst (Storable F) (sym e) (record {
    id_fits = v.id_fits;
    sequence_fits = v.sequence_fits;
    size_fits = omega (arith, v.size_fits);
    unmarked = v.unmarked;
  })

  module _ (fuel : ℕ) (t u : RevTree) (s : IsSorted F fuel t u) where
    abbrev p : RevTree
    p = remove_non_leaf_bodies u

    abbrev strip : Stripped u p
    strip = (remove_non_leaf_bodies-Stripped u).0

    pub stripped-IsTree : IsTree F p
    stripped-IsTree = Stripped-IsTree F u p strip s.tree

    pub stripped-StorableTree : StorableTree F t → StorableTree F p
    stripped-StorableTree w = record {
      revs = All_intro (λ a. Storable F (p.heap a)) p.revs λ a m.
          let (c, e) = s.same.heap a in
          let there : has a t.revs ≡ true =
            sym (s.same.revs.members a) ∙ ap (has a) (sym strip.revs) ∙ m in
          Lost-Storable (u.heap a) (p.heap a) (strip.heap a)
            (subst (Storable F) (sym e)
              (conflict-Storable c (t.heap a)
                (All_has (λ b. Storable F (t.heap b)) a t.revs w.revs there)));
      few = omega (arith, ap length strip.revs, s.same.revs.size, w.few);
      remotes = subst (NewRemotes []) (sym (strip.remotes ∙ s.same.remotes)) w.remotes;
    }

    pub encode-stripped : (body : Slice) → encode_tree F p ≡ ok body → encode F fuel p ≡ ok (body, p)
    unfolding encode sort
    encode-stripped body e =
        rw (if_true p.sorted (ok p) _ (strip.sorted ∙ s.same.sorted)) (rw e refl)

-- Bytes that are decoded are not empty.
pub decoded_some :
    (F : Fleece) (n : ℕ) (body : Slice) (t : RevTree)
    → decode F n body ≡ ok t
    → (b : ℕ) × (rest : Slice) × (body ≡ b ∷ rest)
unfolding decode decode_tree count_revs next_rev
decoded_some F n [] t e = cc
decoded_some F n (b ∷ rest) t e = (b, rest, refl)
