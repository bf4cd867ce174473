-- ===== src/VersionedDocument/Tests.antt =====
-- Documents with two revisions and with none, and the theorems at them.
use cbl.Prelude.{
  ℕ, ◌≡◌, ◌≢◌, refl, true, false, none, some, [], ◌∷◌, Slice, slice_eq, ok, arith, Bool,
}
use cbl.Fleece.Sample.{sample, read_one}
use cbl.Record.{Record, new_record}
use cbl.KeyStore.{read_record, select, begin_writing, key_is}
use cbl.KeyStore.Contract.{IsUntouched, sequence_at}
use cbl.KeyStore.Lookups.{sqlite_store, IsOpen}
use cbl.KeyStore.Lawful.{sqlite_store-IsLawful}
use cbl.KeyStore.Steps.{new_store}
use cbl.KeyStore.Tests.{opened, opened-IsOpen}
use cbl.RevId.{generation}
use cbl.RevTree.{empty_tree, get}
use cbl.RevTree.Insert.{insert}
use cbl.RevTree.Tests.{child-enough}
use cbl.RevTree.WellFormed.{IsTree, empty_tree-IsTree}
use cbl.RawRevTree.Tests.{pushed, pushed-IsTree, pushed-StorableTree}
use cbl.VersionedDocument.{
  VersionedDocument, SaveResult, conflict, no_new_sequence, open_document, save,
}
use cbl.VersionedDocument.Saving.{IsSavable, handed}
use cbl.VersionedDocument.Reopening.{SavedAs, open_document-save, save-conflict}
use cbl.VersionedDocument.Removing.{IsEmptied, save-purged}

abbrev doc : VersionedDocument
doc = record { tree = pushed; rec = new_record (100 ∷ []) }

-- The same, as if it had been read from a record that is no longer there.
abbrev stale_doc : VersionedDocument
stale_doc = record { tree = pushed; rec = record (new_record (100 ∷ [])) { sequence = 5 } }

abbrev purged_doc : VersionedDocument
purged_doc = record {
  tree = record empty_tree { changed = true };
  rec = record (new_record (100 ∷ [])) { sequence = 5 };
}

doc-IsSavable : IsSavable sample 9 doc
unfolding insert generation get slice_eq read_one empty_tree
doc-IsSavable = record {
  changed = refl;
  known = refl;
  tree = pushed-IsTree;
  enough = child-enough;
  storable = pushed-StorableTree;
  some_revision = omega arith;
}

stale_doc-IsSavable : IsSavable sample 9 stale_doc
unfolding insert generation get slice_eq read_one empty_tree
stale_doc-IsSavable = record {
  changed = refl;
  known = refl;
  tree = pushed-IsTree;
  enough = child-enough;
  storable = pushed-StorableTree;
  some_revision = omega arith;
}

purged_doc-IsEmptied : IsEmptied sample 9 purged_doc
unfolding empty_tree new_record
purged_doc-IsEmptied =
    let v = empty_tree-IsTree sample in
    record {
      changed = refl;
      known = refl;
      tree = record {
        stored = v.stored;
        distinct = v.distinct;
        parents = v.parents;
        unique = v.unique;
        leaves = v.leaves;
        unmarked = v.unmarked;
        remotes = v.remotes;
      };
      enough = λ a m. cc;
      no_revision = refl;
      was_read = omega arith;
    }

no_record : sequence_at sqlite_store opened (100 ∷ []) ≡ 0
unfolding read_record select begin_writing new_store new_record
no_record = refl

not_stale : sequence_at sqlite_store opened (100 ∷ []) ≢ 5
not_stale e = cc (no_record, e)

open_document-save_example :
    (result : SaveResult) × (d : VersionedDocument) × (u : sqlite_store.State)
    × (save sample sqlite_store 9 doc opened ≡ ok (result, d, u))
    × SavedAs sample sqlite_store 9 doc (handed sample 9 doc doc-IsSavable) opened result d u
unfolding new_record
open_document-save_example =
    open_document-save sample sqlite_store sqlite_store-IsLawful 9 doc opened doc-IsSavable
      opened-IsOpen no_record

save-conflict_example :
    (d : VersionedDocument) × (u : sqlite_store.State)
    × (save sample sqlite_store 9 stale_doc opened ≡ ok (conflict, d, u))
    × (d.rec.sequence ≡ 5)
    × IsUntouched sqlite_store opened u
unfolding new_record
save-conflict_example =
    save-conflict sample sqlite_store sqlite_store-IsLawful 9 stale_doc opened stale_doc-IsSavable
      opened-IsOpen not_stale

save-purged_example :
    (sequence_at sqlite_store opened (100 ∷ []) ≡ 5
      → (d : VersionedDocument) × (u : sqlite_store.State)
        × (save sample sqlite_store 9 purged_doc opened ≡ ok (no_new_sequence, d, u))
        × (d.tree.changed ≡ false)
        × IsOpen u
        × (open_document sample sqlite_store 9 u (100 ∷ [])
          ≡ ok (record { tree = empty_tree; rec = new_record (100 ∷ []) }))
        × ((rec : Record)
          → slice_eq (100 ∷ []) rec.key ≡ false
          → sqlite_store.read u rec ≡ sqlite_store.read opened rec))
    × (sequence_at sqlite_store opened (100 ∷ []) ≢ 5
      → (d : VersionedDocument) × (u : sqlite_store.State)
        × (save sample sqlite_store 9 purged_doc opened ≡ ok (conflict, d, u))
        × IsUntouched sqlite_store opened u)
unfolding new_record
save-purged_example =
    save-purged sample sqlite_store 9 purged_doc opened purged_doc-IsEmptied sqlite_store-IsLawful
      opened-IsOpen
