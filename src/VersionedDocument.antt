-- ===== src/VersionedDocument.antt =====
-- LiteCore/RevTrees/VersionedDocument.cc: a document, a revision tree that is stored in a record. The
-- Fleece scopes of the bodies are left out.
pub mod Prepared
pub mod Saving
pub mod Reopening
pub mod Removing
pub mod Tests
use cbl.Prelude.{
  ℕ, ◌+◌, Bool, true, false, not, ◌&&◌, ◌||◌, Option, none, some, [], Slice, slice_eq, Result, ok,
  throws, ◌>>=◌, null_pointer, ltb, ◌==◌, if◌then◌else◌,
}
use cbl.Fleece.{Fleece}
use cbl.Record.{DocumentFlags, no_document_flags, Record, new_record}
use cbl.KeyStore.Contract.{Store}
use cbl.RevTree.{RevTree, empty_tree, any_such, has_new_revisions}
use cbl.RevTree.Insert.{keep_body}
use cbl.RevTree.Order.{
  same, current_revision, has_conflict, saved, set_latest_revision_on_remote,
}
use cbl.RevTree.Remove.{remove_non_leaf_bodies}
use cbl.RawRevTree.{encode, decode}

pub record VersionedDocument : Type 0 where
  pub tree : RevTree
  pub rec : Record

-- `enum SaveResult`.
pub data SaveResult : Type 0 where
  conflict no_new_sequence new_sequence : SaveResult

-- `keepBody` of a null pointer dereferences it.
abbrev pub keep_body_of : ℕ → Option ℕ → RevTree → Result RevTree
keep_body_of fuel none t = throws null_pointer
keep_body_of fuel (some a) t = keep_body fuel a t

-- `decode`, what follows `RevTree::decode` where the flag `kSynced` is set.
unfoldable pub mark_synced : Fleece → ℕ → RevTree → Result RevTree
unfolding set_latest_revision_on_remote
mark_synced F fuel t = do
  (pushed, t₁) ← current_revision F fuel t
  t₂ ← set_latest_revision_on_remote 1 pushed t₁
  (kept, t₃) ← current_revision F fuel t₂
  t₄ ← keep_body_of fuel kept t₃
  ok (record t₄ { changed = false })

abbrev pub decode_body : Fleece → ℕ → Record → Option Slice → Result RevTree
decode_body F fuel rec none =
    ok (record empty_tree { unknown = ltb 0 rec.body_size })
decode_body F fuel rec (some body) = do
  t ← decode F rec.sequence body
  if rec.flags.synced then mark_synced F fuel t else ok t

-- `VersionedDocument(store, rec)`: the record is decoded into a new tree.
unfoldable pub of_record : Fleece → ℕ → Record → Result VersionedDocument
unfolding empty_tree mark_synced
of_record F fuel rec = do
  t ← decode_body F fuel rec rec.body
  ok (record { tree = t; rec = rec })

-- The flags and the version of the current revision.
unfoldable pub meta_of : Option ℕ → Bool → RevTree → Record → Record
unfolding any_such
meta_of none conflicted t rec = record rec {
  flags = record no_document_flags { deleted = true };
  version = none;
}
meta_of (some a) conflicted t rec = record rec {
  flags = record no_document_flags {
    deleted = (t.heap a).deleted;
    conflicted = conflicted;
    has_attachments = any_such (λ r. r.has_attachments) t.heap t.revs;
  };
  version = some (t.heap a).rev_id;
}

abbrev pub same_flags : DocumentFlags → DocumentFlags → Bool
same_flags f g =
    same f.deleted g.deleted
    && (same f.conflicted g.conflicted
      && (same f.has_attachments g.has_attachments && same f.synced g.synced))

-- Slices that are null or empty are equal.
abbrev pub same_version : Option Slice → Option Slice → Bool
same_version none none = true
same_version none (some s) = slice_eq [] s
same_version (some r) none = slice_eq r []
same_version (some r) (some s) = slice_eq r s

-- `updateMeta`, with the current revision it found: did the flags or the version change?
unfoldable pub update_meta :
    Fleece → ℕ → VersionedDocument → Result (Bool × Option ℕ × VersionedDocument)
unfolding meta_of has_conflict
update_meta F fuel doc = do
  (current, t) ← current_revision F fuel doc.tree
  conflicted ← has_conflict t
  let rec : Record = meta_of current conflicted t doc.rec
  let kept : Bool =
    same_flags rec.flags doc.rec.flags && same_version rec.version doc.rec.version
  ok (not kept, current, record { tree = t; rec = rec })

module _ (F : Fleece) (S : Store) where
  -- `VersionedDocument(store, docID)`.
  unfoldable pub open_document : ℕ → S.State → Slice → Result VersionedDocument
  unfolding of_record new_record
  open_document fuel s key = of_record F fuel (S.read s (new_record key)).1

  -- What `save` does once the store answered.
  unfoldable pub after_set :
      Bool → ℕ → VersionedDocument → S.State → SaveResult × VersionedDocument × S.State
  unfolding saved
  after_set create n doc s =
      let t : RevTree = if create then saved n doc.tree else doc.tree in
      let stored : VersionedDocument = record {
        tree = record t { changed = false };
        rec = record (doc.rec) { sequence = n; exists = true };
      } in
      if n == 0
      then (conflict, doc, s)
      else (if create then new_sequence else no_new_sequence, stored, s)

  -- `save` of a tree with a current revision.
  unfoldable pub save_tree :
      ℕ → VersionedDocument → S.State → Result (SaveResult × VersionedDocument × S.State)
  unfolding after_set has_new_revisions
  save_tree fuel doc s = do
    (body, t) ← encode F fuel (remove_non_leaf_bodies doc.tree)
    let seq : ℕ = doc.rec.sequence
    let create : Bool = seq == 0 || has_new_revisions t
    (n, s₁) ← S.set doc.rec.key doc.rec.version (some body) doc.rec.flags seq create s
    ok (after_set create n (record doc { tree = t }) s₁)

  -- `save` of a tree without one: the record is deleted, if there is one.
  unfoldable pub save_nothing :
      VersionedDocument → S.State → SaveResult × VersionedDocument × S.State
  save_nothing doc s =
      let done : VersionedDocument = record doc { tree = record (doc.tree) { changed = false } } in
      let answer = S.del doc.rec.key doc.rec.sequence s in
      if doc.rec.sequence == 0
      then (no_new_sequence, done, s)
      else if answer.0 then (no_new_sequence, done, answer.1) else (conflict, doc, answer.1)

  abbrev pub save_current :
      ℕ
      → Option ℕ
      → VersionedDocument
      → S.State
      → Result (SaveResult × VersionedDocument × S.State)
  save_current fuel none doc s = ok (save_nothing doc s)
  save_current fuel (some _) doc s = save_tree fuel doc s

  unfoldable pub save :
      ℕ → VersionedDocument → S.State → Result (SaveResult × VersionedDocument × S.State)
  unfolding update_meta save_tree save_nothing
  save fuel doc s =
      let rest : Result (SaveResult × VersionedDocument × S.State) = (do
        (_, current, updated) ← update_meta F fuel doc
        save_current fuel current updated s) in
      if doc.tree.changed then rest else ok (no_new_sequence, doc, s)
