-- ===== src/SequenceTracker/Placeholders.antt =====
-- The placeholders of the database's observers.
use cbl.Prelude.{
  ℕ, suc, ◌+◌, ◌-◌, Bool, ◌||◌, none, some, List, [], ◌∷◌, ◌++◌, Result, ok, throws, ◌>>=◌,
  bad_read, ltb, leb, take, drop, if◌then◌else◌, length,
}
use cbl.SequenceTracker.{
  Entry, placeholder, is_placeholder, is_purge, is_of, SequenceTracker, remove_obsolete_entries,
  split, Change, read_found,
}

unfoldable pub new_tracker : SequenceTracker
new_tracker = record {
  changes = [];
  idle = [];
  last_sequence = 0;
  num_placeholders = 0;
  num_doc_observers = 0;
  transaction = none;
  pre_transaction_last_sequence = 0;
  notices = [];
}

-- `_since` on the entries from the last one back: how many stand after the result.
pub since_back : ℕ → ℕ → ℕ → List Entry → ℕ
since_back since passed found [] = found
since_back since passed found (e ∷ es) =
    let newer = since_back since (suc passed) passed es in
    let older = since_back since (suc passed) found es in
    if ltb since e.sequence || is_purge e then newer else if is_placeholder e then older else found

abbrev pub reverse_onto {ℓ} : {A : Type ℓ} → List A → List A → List A
reverse_onto done [] = done
reverse_onto done (x ∷ xs) = reverse_onto (x ∷ done) xs

-- The place before which a placeholder goes. With no entry, the code steps before an empty list.
unfoldable pub since_place : ℕ → SequenceTracker → Result ℕ
since_place since_seq t =
    let size = length t.changes in
    let found = since_back since_seq 0 0 (reverse_onto [] t.changes) in
    if leb t.last_sequence since_seq
    then ok size
    else if ltb 0 size
    then ok (size - 1 - found)
    else throws bad_read

unfoldable pub add_placeholder_after : ℕ → ℕ → SequenceTracker → Result SequenceTracker
add_placeholder_after obs seq t = do
  place ← since_place seq t
  ok (record t {
    changes = take place t.changes ++ placeholder obs ∷ drop place t.changes;
    num_placeholders = t.num_placeholders + 1;
  })

-- `list::erase` of a placeholder.
unfoldable pub without : ℕ → List Entry → List Entry
without obs [] = []
without obs (e ∷ es) = let rest = without obs es in if is_of obs e then es else e ∷ rest

unfoldable pub remove_placeholder : ℕ → SequenceTracker → SequenceTracker
remove_placeholder obs t =
    remove_obsolete_entries
      (record t { changes = without obs t.changes; num_placeholders = t.num_placeholders - 1 })

unfoldable pub read_changes :
    ℕ → ℕ → SequenceTracker → Result (List Change × Bool × SequenceTracker)
read_changes obs max t = elim (split obs t.changes) [
  | none ↦ throws bad_read
  | some parts ↦ ok (read_found max parts t)
]
