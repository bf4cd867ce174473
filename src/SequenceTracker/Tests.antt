-- ===== src/SequenceTracker/Tests.antt =====
-- A tracker with two observers and two changes.
use cbl.Prelude.{
  Result, false, ℕ, slice_eq, drop, take, ◌>>=◌, map, ◌+◌, ◌≤◌, ◌≡◌, ◌⊎◌, refl, Bool, true, none,
  some, List, [], ◌∷◌, ◌++◌, ok, length,
}
use cbl.SequenceTracker.{
  trim, has_db_change_notifiers, Entry, is_placeholder, SequenceTracker, Change, doc_entry,
  placeholder, remove_obsolete_entries, split, after_placeholder,
}
use cbl.SequenceTracker.Documents.{
  document_changed, document_changed_in, find_doc, finish_change, notify_placeholders, notices_of,
  stamped, is_last, erase_doc,
}
use cbl.SequenceTracker.Transactions.{
  begin_transaction, end_transaction, commit, abort, leave_transaction, commit_entry,
  revert_entries,
}
use cbl.SequenceTracker.Pending.{documents}
use cbl.SequenceTracker.Placeholders.{
  read_changes, add_placeholder_after, new_tracker, since_place, remove_placeholder, without,
}
use cbl.SequenceTracker.Reading.{
  read_changes_lem, after-remove_obsolete_entries, remove_obsolete_entries-bound,
}

abbrev first_doc : Entry
first_doc = record (doc_entry (some (97 ∷ [])) (49 ∷ []) 1 10) { committed_sequence = 1 }

abbrev second_doc : Entry
second_doc = record (doc_entry (some (98 ∷ [])) (49 ∷ []) 2 20) { committed_sequence = 2 }

abbrev pending : List Entry
pending = first_doc ∷ placeholder 2 ∷ second_doc ∷ []

abbrev tracker : SequenceTracker
tracker = record {
  changes = placeholder 1 ∷ pending;
  idle = [];
  last_sequence = 2;
  num_placeholders = 2;
  num_doc_observers = 0;
  transaction = none;
  pre_transaction_last_sequence = 0;
  notices = [];
}

read_changes_lem_example :
    (out : List Change) × (external : Bool) × (t₁ : SequenceTracker) × (read_changes 1 1 tracker
      ≡ ok (out, external, t₁))
    × (length out ≤ 1)
    × (documents pending ≡ out ++ documents (after_placeholder (split 1 t₁.changes)))
unfolding split placeholder doc_entry
read_changes_lem_example =
    read_changes_lem 1 1 tracker [] (placeholder 1) pending (refl, (refl, (refl, (refl, tt)))) refl
      refl

after-remove_obsolete_entries_example :
    after_placeholder (split 2 (remove_obsolete_entries tracker).changes)
    ≡ after_placeholder (split 2 tracker.changes)
unfolding placeholder doc_entry
after-remove_obsolete_entries_example =
    after-remove_obsolete_entries 2 tracker (refl, (refl, (refl, (refl, tt))))

remove_obsolete_entries-bound_example :
    (length (remove_obsolete_entries tracker).changes ≤ 100 + 2)
    ⊎ ((e : Entry) × (rest : List Entry) × ((remove_obsolete_entries tracker).changes ≡ e ∷ rest)
        × (is_placeholder e ≡ true))
remove_obsolete_entries-bound_example = remove_obsolete_entries-bound tracker refl

-- A transaction: two documents change, the first of them twice, and it is committed or aborted.
abbrev session : Bool → Result SequenceTracker
session committing = do
  t ← add_placeholder_after 1 0 new_tracker
  t₁ ← begin_transaction 2 t
  t₂ ← document_changed (97 ∷ []) (49 ∷ []) 1 10 t₁
  t₃ ← document_changed (98 ∷ []) (49 ∷ []) 2 20 t₂
  t₄ ← document_changed (97 ∷ []) (50 ∷ []) 3 30 t₃
  end_transaction committing t₄

abbrev seen : SequenceTracker → List (ℕ × ℕ)
seen t = map (λ e. (e.sequence, e.committed_sequence)) t.changes

abbrev seen_in : Bool → Result (List (ℕ × ℕ) × ℕ × ℕ)
seen_in committing = do t ← session committing; ok (seen t, t.last_sequence, t.num_placeholders)

-- Committed: each sequence is the committed one, in the order of the last changes, after the placeholder.
committed_in_order : seen_in true ≡ ok ((0, 0) ∷ (2, 2) ∷ (3, 3) ∷ [], 3, 1)
unfolding add_placeholder_after begin_transaction document_changed end_transaction commit
    leave_transaction commit_entry document_changed_in find_doc finish_change notify_placeholders
    notices_of stamped is_last erase_doc since_place new_tracker remove_placeholder without
    remove_obsolete_entries trim split placeholder doc_entry has_db_change_notifiers slice_eq drop
    take
committed_in_order = refl

-- Aborted: both are back at no sequence, and so is the tracker.
aborted_is_back : seen_in false ≡ ok ((0, 0) ∷ (0, 0) ∷ (0, 0) ∷ [], 0, 1)
unfolding add_placeholder_after begin_transaction document_changed end_transaction abort
    leave_transaction revert_entries document_changed_in find_doc finish_change notify_placeholders
    notices_of stamped is_last erase_doc since_place new_tracker remove_placeholder without
    remove_obsolete_entries trim split placeholder doc_entry has_db_change_notifiers slice_eq drop
    take
aborted_is_back = refl
