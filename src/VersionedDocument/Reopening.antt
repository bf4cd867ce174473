-- ===== src/VersionedDocument/Reopening.antt =====
-- A document that was saved, read from the store again.
use cbl.Prelude.{
  ℕ, zero, suc, ◌+◌, ◌<◌, ◌≤◌, ◌≡◌, ◌≢◌, ◌⊎◌, refl, sym, ap, ◌∙◌, subst, inl, inr, Bool, true, false, ◌||◌,
  Option, none, some, List, [], ◌∷◌, Slice, slice_eq, Result, ok, throws, ◌>>=◌, arith, length, has,
  Bool-cases, ==_iff, ◌==◌, if_true, if_false, if_both, if◌then◌else◌, ok-injective, slice_eq_refl,
}
use cbl.Fleece.{Fleece}
use cbl.Record.{DocumentFlags, no_document_flags, Record, new_record, set_body}
use cbl.KeyStore.{column_as_slice}
use cbl.KeyStore.Contract.{Store, IsLawful, IsWritten, IsUntouched, sequence_at, written}
use cbl.RevTree.{Rev, RevTree, has_new_revisions}
use cbl.RevTree.Order.{saved}
use cbl.RevTree.Remove.{remove_non_leaf_bodies}
use cbl.RawRevTree.{decode}
use cbl.RawRevTree.Whole.{tree_image}
use cbl.VersionedDocument.{
  VersionedDocument, SaveResult, conflict, no_new_sequence, new_sequence, of_record, meta_of,
  decode_body, open_document, after_set, save,
}
use cbl.VersionedDocument.Prepared.{decoded_some}
use cbl.VersionedDocument.Saving.{IsSavable, Handed, handed, stored_tree, meta_rec, creates, save-eq, creates-need}

-- How things stand after a save without a conflict.
pub record SavedAs (F : Fleece) (S : Store) (fuel : ℕ) (doc : VersionedDocument) (h : Handed F fuel doc)
    (s : S.State) (result : SaveResult) (d : VersionedDocument) (u : S.State) : Type 0 where
  pub clean : d.tree.changed ≡ false
  pub positive : 0 < d.rec.sequence
  -- A new sequence is above that of every record; else the document keeps its own.
  pub sequences :
      ((result ≡ new_sequence) × ((other : Slice) → sequence_at S s other < d.rec.sequence))
      ⊎ ((result ≡ no_new_sequence) × (d.rec.sequence ≡ doc.rec.sequence))
  pub still : S.IsValid u
  pub others :
      (rec : Record) → slice_eq doc.rec.key rec.key ≡ false → S.read u rec ≡ S.read s rec
  pub reopened :
      open_document F S fuel u doc.rec.key
      ≡ ok (record {
        tree = tree_image d.rec.sequence (remove_non_leaf_bodies h.ordered);
        rec = written d.rec.sequence d.rec.version (some h.body) d.rec.flags (new_record doc.rec.key);
      })

of_record-eq :
    (F : Fleece) (fuel : ℕ) (rec : Record) (body : Slice) (t : RevTree)
    → rec.body ≡ some body
    → rec.flags.synced ≡ false
    → decode F rec.sequence body ≡ ok t
    → of_record F fuel rec ≡ ok (record { tree = t; rec = rec })
unfolding of_record
of_record-eq F fuel rec body t at plain e =
    let next : RevTree → Result VersionedDocument = λ t. ok (record { tree = t; rec = rec }) in
    let whole : decode_body F fuel rec (some body) ≡ ok t =
      rw e (if_false rec.flags.synced _ _ plain) in
    ap (λ o. decode_body F fuel rec o >>= next) at ∙ ap (λ (r : Result RevTree). r >>= next) whole

column_some : (b : ℕ) (rest s : Slice) → s ≡ b ∷ rest → column_as_slice (some s) ≡ some s
column_some b rest s e = rw e refl

module _ (F : Fleece) (S : Store) (L : IsLawful S) (fuel : ℕ) (doc : VersionedDocument) (s : S.State)
    (v : IsSavable F fuel doc) (w : S.IsValid s) where
  abbrev h : Handed F fuel doc
  h = handed F fuel doc v

  abbrev rec₁ : Record
  rec₁ = meta_rec F S fuel doc h

  abbrev t₁ : RevTree
  t₁ = stored_tree F S fuel doc h

  abbrev create : Bool
  create = creates F S fuel doc h

  meta-key : rec₁.key ≡ doc.rec.key
  unfolding meta_of
  meta-key = refl

  meta-sequence : rec₁.sequence ≡ doc.rec.sequence
  unfolding meta_of
  meta-sequence = refl

  meta-plain : rec₁.flags.synced ≡ false
  unfolding meta_of
  meta-plain = refl

  reopen :
      (n : ℕ) (u : S.State)
      → IsWritten S rec₁.key rec₁.version (some h.body) rec₁.flags create rec₁.sequence n s u
      → open_document F S fuel u doc.rec.key
        ≡ ok (record {
          tree = tree_image n t₁;
          rec = written n rec₁.version (some h.body) rec₁.flags (new_record doc.rec.key);
        })
  unfolding open_document meta_of written set_body new_record
  reopen n u wr =
      let new : Record = new_record doc.rec.key in
      let rec : Record = written n rec₁.version (some h.body) rec₁.flags new in
      let read : S.read u new ≡ (true, rec) =
        wr.reads new ∙ if_true _ _ _ (slice_eq_refl doc.rec.key) in
      let (b, rest, e) = decoded_some F n h.body _ (h.decoded n) in
      ap (λ (p : Bool × Record). of_record F fuel p.1) read
      ∙ of_record-eq F fuel rec h.body _ (column_some b rest h.body e) meta-plain (h.decoded n)

  others_lem :
      (n : ℕ) (u : S.State) (rec : Record)
      → IsWritten S rec₁.key rec₁.version (some h.body) rec₁.flags create rec₁.sequence n s u
      → slice_eq doc.rec.key rec.key ≡ false
      → S.read u rec ≡ S.read s rec
  unfolding meta_of
  others_lem n u rec wr e = wr.reads rec ∙ if_false _ _ _ e

  after-eq :
      (n : ℕ) (u : S.State) (b : Bool)
      → 0 < n
      → after_set F S b n (record { tree = t₁; rec = rec₁ }) u
        ≡ (
          if b then new_sequence else no_new_sequence,
          record {
            tree = record (if b then saved n t₁ else t₁) { changed = false };
            rec = record rec₁ { sequence = n; exists = true };
          },
          u,
        )
  unfolding after_set
  after-eq n u b pos = let not_zero : (n == 0) ≡ false = ground arith in rw not_zero refl

  -- A document with a revision, changed since it was read, is saved with enough fuel (more than every
  -- generation) to any store that keeps the contract, while the record still has the sequence the
  -- document was read with. The save is no conflict; the document has a positive sequence, a new one
  -- above all others or its own; no other record changed. Opened again, the document has the revisions
  -- of the sorted tree in that order, less the bodies that `removeNonLeafBodies` drops, with the
  -- remotes, and the version, the flags and the sequence that were saved.
  pub open_document-save :
      sequence_at S s doc.rec.key ≡ doc.rec.sequence
      → (result : SaveResult) × (d : VersionedDocument) × (u : S.State)
        × (save F S fuel doc s ≡ ok (result, d, u))
        × SavedAs F S fuel doc h s result d u
  unfolding meta_of
  open_document-save at =
      let (n, u, e, wr) =
        L.set_met s rec₁.key rec₁.version (some h.body) rec₁.flags rec₁.sequence create w
          (creates-need F S fuel doc h) at in
      let d : VersionedDocument = record {
        tree = record (if create then saved n t₁ else t₁) { changed = false };
        rec = record rec₁ { sequence = n; exists = true };
      } in
      (
        if create then new_sequence else no_new_sequence,
        d,
        u,
        save-eq F S fuel doc h n s u v.changed e ∙ ap ok (after-eq n u create wr.positive),
        record {
          clean = refl;
          positive = wr.positive;
          sequences = elim (Bool-cases create) [
            | inl new ↦ inl (if_true create _ _ new, wr.fresh new)
            | inr old ↦ inr (if_false create _ _ old, wr.kept old)
          ];
          still = wr.still;
          others = λ rec e. others_lem n u rec wr e;
          reopened = reopen n u wr;
        },
      )

  -- If the record has another sequence by then (0 where it is gone), because someone else saved or
  -- deleted the document since it was read, the save is a conflict: nothing in the store reads
  -- differently, and the document keeps the sequence it was read with.
  pub save-conflict :
      sequence_at S s doc.rec.key ≢ doc.rec.sequence
      → (d : VersionedDocument) × (u : S.State) × (save F S fuel doc s ≡ ok (conflict, d, u))
        × (d.rec.sequence ≡ doc.rec.sequence)
        × IsUntouched S s u
  unfolding meta_of after_set
  save-conflict other =
      let (u, e, same) =
        L.set_unmet s rec₁.key rec₁.version (some h.body) rec₁.flags rec₁.sequence create w
          (creates-need F S fuel doc h) other in
      (record { tree = t₁; rec = rec₁ }, u, save-eq F S fuel doc h 0 s u v.changed e, refl, same)
