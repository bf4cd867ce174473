-- ===== src/SequenceTracker/Transactions.antt =====
-- Transactions, also those of other trackers.
use cbl.Prelude.{
  ℕ, ◌+◌, Bool, true, false, ◌||◌, none, some, List, [], ◌∷◌, ◌++◌, map, Result, ok, throws,
  assertion_failed, bad_read, ltb, if◌then◌else◌,
}
use cbl.SequenceTracker.{
  Entry, placeholder, is_placeholder, SequenceTracker, in_transaction, remove_obsolete_entries,
  split, after_placeholder,
}
use cbl.SequenceTracker.Placeholders.{remove_placeholder}
use cbl.SequenceTracker.Documents.{document_changed_in}

-- The transaction's notifier is named `obs`; it is at the end of the list.
unfoldable pub begin_transaction : ℕ → SequenceTracker → Result SequenceTracker
begin_transaction obs t =
    let started = record t {
      changes = t.changes ++ placeholder obs ∷ [];
      num_placeholders = t.num_placeholders + 1;
      transaction = some obs;
      pre_transaction_last_sequence = t.last_sequence;
    } in
    if in_transaction t then throws assertion_failed else ok started

unfoldable pub commit_entry : Entry → Entry
commit_entry e = if is_placeholder e then e else record e { committed_sequence = e.sequence }

unfoldable pub revert_entries : List Entry → SequenceTracker → SequenceTracker
revert_entries [] t = t
revert_entries (e ∷ es) t =
    let skipped = revert_entries es t in
    let back = document_changed_in e.doc_id e.rev_id e.committed_sequence e.body_size t in
    let reverted = revert_entries es back in if is_placeholder e then skipped else reverted

-- `_transaction.reset` removes the placeholder, with the transaction over.
unfoldable pub leave_transaction : ℕ → SequenceTracker → SequenceTracker
leave_transaction obs t =
    remove_obsolete_entries (remove_placeholder obs (record t { transaction = none }))

unfoldable pub commit : ℕ → SequenceTracker → List Entry × Entry × List Entry → SequenceTracker
commit obs t (front, p, after) =
    leave_transaction obs (record t { changes = front ++ p ∷ map commit_entry after })

unfoldable pub abort : ℕ → SequenceTracker → List Entry × Entry × List Entry → SequenceTracker
abort obs t (front, p, after) =
    leave_transaction obs
      (revert_entries after (record t { last_sequence = t.pre_transaction_last_sequence }))

unfoldable pub end_transaction : Bool → SequenceTracker → Result SequenceTracker
end_transaction committing t = elim t.transaction [
  | none ↦ throws assertion_failed
  | some obs ↦ elim (split obs t.changes) [
    | none ↦ throws bad_read
    | some parts ↦ ok (if committing then commit obs t parts else abort obs t parts)
  ]
]

pub add_external_entries : List Entry → SequenceTracker → SequenceTracker
add_external_entries [] t = t
add_external_entries (e ∷ es) t = add_external_entries es (
    document_changed_in e.doc_id e.rev_id e.sequence e.body_size
      (record t { last_sequence = e.sequence }))

abbrev pub any_entry : List Entry → Bool
any_entry [] = false
any_entry (_ ∷ _) = true

pub add_external_transaction : SequenceTracker → SequenceTracker → Result SequenceTracker
add_external_transaction other t =
    let watched = any_entry t.changes || ltb 0 t.num_doc_observers in
    elim other.transaction [
      | none ↦ throws assertion_failed
      | some obs ↦
          let all =
            remove_obsolete_entries
              (add_external_entries (after_placeholder (split obs other.changes)) t) in
          if in_transaction t then throws assertion_failed else ok (if watched then all else t)
    ]
