-- ===== src/VersionedDocument/Removing.antt =====
-- `save` of a document whose revisions were all purged: the record is deleted.
use cbl.Prelude.{
  ℕ, ◌<◌, ◌≡◌, ◌≢◌, refl, sym, ap, ◌∙◌, inl, inr, Bool, true, false, not, ◌&&◌, Option, none, some, List, [], ◌∷◌, Slice,
  slice_eq, Result, ok, ◌>>=◌, arith, length, ◌==◌, if_true, if_false, if◌then◌else◌, slice_eq_refl,
}
use cbl.Fleece.{Fleece}
use cbl.Record.{Record, new_record, slice_size}
use cbl.KeyStore.Contract.{Store, IsLawful, IsUntouched, sequence_at}
use cbl.RevTree.{RevTree, empty_tree}
use cbl.RevTree.Order.{current_revision, has_conflict, head?}
use cbl.RevTree.Sorted.{current_revision_total}
use cbl.RevTree.Walks.{Enough}
use cbl.RevTree.WellFormed.{IsTree}
use cbl.VersionedDocument.{
  VersionedDocument, SaveResult, conflict, no_new_sequence, of_record, meta_of, decode_body,
  update_meta, same_flags, same_version, open_document, save_nothing, save,
}
use cbl.VersionedDocument.Prepared.{has_conflict_total}

-- A changed document without a revision, which was read from a record.
pub record IsEmptied (F : Fleece) (fuel : ℕ) (doc : VersionedDocument) : Type 0 where
  pub changed : doc.tree.changed ≡ true
  pub known : doc.tree.unknown ≡ false
  pub tree : IsTree F doc.tree
  pub enough : Enough F fuel doc.tree
  pub no_revision : length doc.tree.revs ≡ 0
  pub was_read : 0 < doc.rec.sequence

no_member : (F : Fleece) (xs : List ℕ) → length xs ≡ 0 → head? F xs ≡ none
unfolding head?
no_member F [] e = refl
no_member F (a ∷ xs) e = absurd (omega arith)

update_meta-none :
    (F : Fleece) (fuel : ℕ) (doc : VersionedDocument) (u : RevTree) (c : Bool)
    → current_revision F fuel doc.tree ≡ ok (none, u)
    → has_conflict u ≡ ok c
    → (b : Bool) × (update_meta F fuel doc
        ≡ ok (b, none, record { tree = u; rec = meta_of none c u doc.rec }))
unfolding update_meta
update_meta-none F fuel doc u c e f =
    let rec : Record = meta_of none c u doc.rec in
    (
      not (same_flags rec.flags doc.rec.flags && same_version rec.version doc.rec.version),
      rw e (rw f refl),
    )

module _ (F : Fleece) (S : Store) (fuel : ℕ) (doc : VersionedDocument) (s : S.State)
    (v : IsEmptied F fuel doc) where
  emptied :
      (u : RevTree) × (c : Bool)
      × (save F S fuel doc s
        ≡ ok (save_nothing F S (record { tree = u; rec = meta_of none c u doc.rec }) s))
  unfolding save
  emptied =
      let (u, cur, sorted) = current_revision_total F fuel doc.tree v.known v.tree v.enough in
      let none_there = no_member F u.revs (sorted.same.revs.size ∙ v.no_revision) in
      let (c, conf) = has_conflict_total u (sorted.same.unknown ∙ v.known) in
      let (b, meta) = update_meta-none F fuel doc u c (cur ∙ ap (λ o. ok (o, u)) none_there) conf in
      (u, c, if_true doc.tree.changed _ _ v.changed ∙ rw meta refl)

  not_zero : (doc.rec.sequence == 0) ≡ false
  not_zero = let pos = v.was_read in ground arith

  module _ (L : IsLawful S) (w : S.IsValid s) where
    -- A document that was read from a record and whose revisions are all gone is saved by deleting the
    -- record, if that still has the sequence the document was read with: no other record changes, and
    -- the document opened again has no revision. If it has not, the save is a conflict, and nothing in
    -- the store reads differently.
    pub save-purged :
        (sequence_at S s doc.rec.key ≡ doc.rec.sequence
          → (d : VersionedDocument) × (u : S.State)
            × (save F S fuel doc s ≡ ok (no_new_sequence, d, u))
            × (d.tree.changed ≡ false)
            × S.IsValid u
            × (open_document F S fuel u doc.rec.key
              ≡ ok (record { tree = empty_tree; rec = new_record doc.rec.key }))
            × ((rec : Record) → slice_eq doc.rec.key rec.key ≡ false → S.read u rec ≡ S.read s rec))
        × (sequence_at S s doc.rec.key ≢ doc.rec.sequence
          → (d : VersionedDocument) × (u : S.State)
            × (save F S fuel doc s ≡ ok (conflict, d, u))
            × IsUntouched S s u)
    unfolding save_nothing meta_of open_document of_record new_record empty_tree
    save-purged =
        let (t, c, e) = emptied in
        let u : S.State = (S.del doc.rec.key doc.rec.sequence s).1 in
        let key : Record = new_record doc.rec.key in
        (
          λ at.
            let (gone, still, reads) = L.del_met s doc.rec.key doc.rec.sequence w v.was_read at in
            (
              record {
                tree = record t { changed = false };
                rec = meta_of none c t doc.rec;
              },
              u,
              e ∙ ap ok (if_false _ _ _ not_zero ∙ if_true _ _ _ gone),
              refl,
              still,
              ap (λ (p : Bool × Record). of_record F fuel p.1)
                (reads key ∙ if_true _ _ _ (slice_eq_refl doc.rec.key)),
              λ rec other. reads rec ∙ if_false _ _ _ other,
            ),
          λ other.
            let (kept, same) = L.del_unmet s doc.rec.key doc.rec.sequence w v.was_read other in
            (
              record { tree = t; rec = meta_of none c t doc.rec },
              u,
              e ∙ ap ok (if_false _ _ _ not_zero ∙ if_false _ _ _ kept),
              same,
            ),
        )
