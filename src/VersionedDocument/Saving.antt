-- ===== src/VersionedDocument/Saving.antt =====
-- `save`, and what the store has afterwards.
use cbl.Prelude.{
  ℕ, zero, suc, ◌+◌, ◌<◌, ◌≤◌, ◌≡◌, ◌≢◌, ◌⊎◌, refl, sym, ap, ◌∙◌, subst, inl, inr, Bool, true, false, not, ◌&&◌, ◌||◌,
  Option, none, some, List, [], ◌∷◌, Slice, slice_eq, Result, ok, throws, ◌>>=◌, arith, length, has,
  Bool-cases, ==_iff, ◌==◌, if_true, if_false, if_both, if◌then◌else◌, ok-injective, slice_eq_refl,
}
use cbl.Fleece.{Fleece}
use cbl.Record.{DocumentFlags, no_document_flags, Record, new_record, set_body}
use cbl.KeyStore.{column_as_slice}
use cbl.KeyStore.Contract.{Store, IsLawful, IsWritten, IsUntouched, sequence_at, written}
use cbl.RevTree.{Rev, RevTree, has_new_revisions}
use cbl.RevTree.Order.{current_revision, has_conflict, saved, head?}
use cbl.RevTree.Remove.{remove_non_leaf_bodies}
use cbl.RevTree.Sorted.{IsSorted, current_revision_total}
use cbl.RevTree.Walks.{Enough}
use cbl.RevTree.WellFormed.{IsTree}
use cbl.RawRevTree.{encode, encode_tree, decode}
use cbl.RawRevTree.Whole.{StorableTree, tree_image, decode-encode_tree}
use cbl.VersionedDocument.{
  VersionedDocument, SaveResult, conflict, no_new_sequence, new_sequence, of_record, meta_of,
  update_meta, same_flags, same_version, open_document, after_set, save_tree, save,
}
use cbl.VersionedDocument.Prepared.{
  Prepared, has_conflict_total, first_member, stripped-IsTree, stripped-StorableTree,
  encode-stripped, decoded_some,
}

-- A changed document with at least one revision, whose tree can be stored.
pub record IsSavable (F : Fleece) (fuel : ℕ) (doc : VersionedDocument) : Type 0 where
  pub changed : doc.tree.changed ≡ true
  pub known : doc.tree.unknown ≡ false
  pub tree : IsTree F doc.tree
  pub enough : Enough F fuel doc.tree
  pub storable : StorableTree F doc.tree
  pub some_revision : 0 < length doc.tree.revs

-- What `save` hands to the store: the metadata, the bytes, and the tree that they encode.
pub record Handed (F : Fleece) (fuel : ℕ) (doc : VersionedDocument) : Type 0 where
  pub ordered : RevTree
  pub sorting : IsSorted F fuel doc.tree ordered
  pub current : ℕ
  pub first : head? F ordered.revs ≡ some current
  pub conflicted : Bool
  pub differs : Bool
  pub meta :
      update_meta F fuel doc
      ≡ ok (differs, some current, record {
        tree = ordered;
        rec = meta_of (some current) conflicted ordered doc.rec;
      })
  pub body : Slice
  pub encoded : encode F fuel (remove_non_leaf_bodies ordered) ≡ ok (body, remove_non_leaf_bodies ordered)
  pub decoded : (n : ℕ) → decode F n body ≡ ok (tree_image n (remove_non_leaf_bodies ordered))

update_meta-eq :
    (F : Fleece) (fuel : ℕ) (doc : VersionedDocument) (u : RevTree) (a : ℕ) (c : Bool)
    → current_revision F fuel doc.tree ≡ ok (some a, u)
    → has_conflict u ≡ ok c
    → (b : Bool) × (update_meta F fuel doc
        ≡ ok (b, some a, record { tree = u; rec = meta_of (some a) c u doc.rec }))
unfolding update_meta
update_meta-eq F fuel doc u a c e f =
    let rec : Record = meta_of (some a) c u doc.rec in
    (
      not (same_flags rec.flags doc.rec.flags && same_version rec.version doc.rec.version),
      rw e (rw f refl),
    )

pub handed :
    (F : Fleece) (fuel : ℕ) (doc : VersionedDocument) → IsSavable F fuel doc → Handed F fuel doc
handed F fuel doc v =
    let (u, cur, s) = current_revision_total F fuel doc.tree v.known v.tree v.enough in
    let (a, first) =
      first_member F u.revs (omega (arith, v.some_revision, s.same.revs.size)) in
    let (c, conf) = has_conflict_total u (s.same.unknown ∙ v.known) in
    let (b, meta) =
      update_meta-eq F fuel doc u a c (cur ∙ ap (λ o. ok (o, u)) first) conf in
    let tree = stripped-IsTree F fuel doc.tree u s in
    let storable = stripped-StorableTree F fuel doc.tree u s v.storable in
    let (body, enc, _) = decode-encode_tree F (remove_non_leaf_bodies u) 0 tree storable in
    record {
      ordered = u;
      sorting = s;
      current = a;
      first = first;
      conflicted = c;
      differs = b;
      meta = meta;
      body = body;
      encoded = encode-stripped F fuel doc.tree u s body enc;
      decoded = λ n.
          let (other, enc_n, dec_n) =
            decode-encode_tree F (remove_non_leaf_bodies u) n tree storable in
          subst (λ x. decode F n x ≡ ok (tree_image n (remove_non_leaf_bodies u)))
            (ok-injective (sym enc_n ∙ enc)) dec_n;
    }

module _ (F : Fleece) (S : Store) (fuel : ℕ) (doc : VersionedDocument) (h : Handed F fuel doc) where
  abbrev pub stored_tree : RevTree
  stored_tree = remove_non_leaf_bodies h.ordered

  abbrev pub meta_rec : Record
  meta_rec = meta_of (some h.current) h.conflicted h.ordered doc.rec

  abbrev pub creates : Bool
  creates = meta_rec.sequence == 0 || has_new_revisions stored_tree

  pub save-eq :
      (n : ℕ) (s u : S.State)
      → doc.tree.changed ≡ true
      → S.set meta_rec.key meta_rec.version (some h.body) meta_rec.flags meta_rec.sequence creates s
        ≡ ok (n, u)
      → save F S fuel doc s
        ≡ ok (after_set F S creates n (record { tree = stored_tree; rec = meta_rec }) u)
  unfolding save save_tree
  save-eq n s u changed e =
      if_true doc.tree.changed _ _ changed ∙ rw h.meta (rw h.encoded (rw e refl))

  pub creates-need : (creates ≡ true) ⊎ (0 < meta_rec.sequence)
  creates-need = elim (Bool-cases (meta_rec.sequence == 0)) [
    | inl e ↦ inl (rw e refl)
    | inr e ↦ inr (ground arith)
  ]
