-- ===== src/SequenceTracker.antt =====
-- LiteCore/Database/SequenceTracker.cc and .hh: the list of changes, the observers' placeholders in it and
-- transactions. An iterator or a notifier is named by its document or by a number. `_byDocID` has an
-- entry for each document in the two lists, and for nothing else, so it is a search in them.
pub mod Placeholders
pub mod Documents
pub mod Transactions
pub mod Pending
pub mod Reading
pub mod Tests
use cbl.Prelude.{
  ℕ, zero, suc, ◌+◌, ◌-◌, ◌%◌, ◌^◌, Bool, true, false, not, ◌&&◌, ◌||◌, Option, none, some, List,
  [], ◌∷◌, ◌++◌, Slice, slice_eq, ltb, leb, ◌==◌, if◌then◌else◌, length,
}

-- A placeholder has no document.
pub record Entry : Type 0 where
  pub doc_id : Option Slice
  pub sequence : ℕ
  pub committed_sequence : ℕ
  pub rev_id : Slice
  pub document_observers : List ℕ
  pub body_size : ℕ
  pub idle : Bool
  pub external : Bool
  pub database_observer : Option ℕ

abbrev pub is_placeholder : Entry → Bool
is_placeholder e = elim e.doc_id [ none ↦ true | some _ ↦ false ]

abbrev pub is_purge : Entry → Bool
is_purge e = e.sequence == 0 && not (is_placeholder e)

abbrev pub is_idle : Entry → Bool
is_idle e = e.idle && not (is_placeholder e)

unfoldable pub doc_entry : Option Slice → Slice → ℕ → ℕ → Entry
doc_entry doc_id rev_id sequence body_size = record {
  doc_id = doc_id;
  sequence = sequence;
  committed_sequence = 0;
  rev_id = rev_id;
  document_observers = [];
  body_size = body_size;
  idle = false;
  external = false;
  database_observer = none;
}

-- The fields that the code leaves as they are have any value; no code reads them.
unfoldable pub placeholder : ℕ → Entry
unfolding doc_entry
placeholder obs = record (doc_entry none [] 0 0) { database_observer = some obs }

-- A call of `notify` of a document's or the database's notifier. A transaction's own has no callback.
pub data Notice : Type 0 where
  to_document to_database : ℕ → Notice

-- `notices` is the calls of `notify` so far; what a callback calls comes after.
pub record SequenceTracker : Type 0 where
  pub changes : List Entry
  pub idle : List Entry
  pub last_sequence : ℕ
  pub num_placeholders : ℕ
  pub num_doc_observers : ℕ
  pub transaction : Option ℕ
  pub pre_transaction_last_sequence : ℕ
  pub notices : List Notice

abbrev pub has_value {ℓ} : {A : Type ℓ} → Option A → Bool
has_value none = false
has_value (some _) = true

abbrev pub in_transaction : SequenceTracker → Bool
in_transaction t = has_value t.transaction

unfoldable pub has_db_change_notifiers : SequenceTracker → Bool
has_db_change_notifiers t =
    let own = if in_transaction t then 1 else 0 in
    ltb 0 ((t.num_placeholders + 2 ^ 64 - own) % 2 ^ 64)

abbrev pub min_changes_to_keep : ℕ
min_changes_to_keep = 100

-- The loop of `removeObsoleteEntries`.
unfoldable pub trim : ℕ → List Entry → List Entry
trim room [] = []
trim room (e ∷ es) =
    let rest = trim room es in
    if ltb room (suc (length es)) && not (is_placeholder e) then rest else e ∷ es

unfoldable pub remove_obsolete_entries : SequenceTracker → SequenceTracker
remove_obsolete_entries t =
    let room = min_changes_to_keep + t.num_placeholders in
    if in_transaction t then t else record t { changes = trim room t.changes }

-- Whether an entry is a notifier's placeholder.
abbrev pub is_of : ℕ → Entry → Bool
is_of obs e = elim e.database_observer [ none ↦ false | some o ↦ o == obs ]

-- The entries before a notifier's placeholder, the placeholder and those after it.
abbrev pub put_behind :
    Entry → Option (List Entry × Entry × List Entry) → Option (List Entry × Entry × List Entry)
put_behind e none = none
put_behind e (some (front, p, after)) = some (e ∷ front, p, after)

unfoldable pub split : ℕ → List Entry → Option (List Entry × Entry × List Entry)
split obs [] = none
split obs (e ∷ es) =
    let rest = put_behind e (split obs es) in if is_of obs e then some ([], e, es) else rest

-- `hasChangesAfterPlaceholder`.
abbrev pub any_document : List Entry → Bool
any_document [] = false
any_document (e ∷ es) = not (is_placeholder e) || any_document es

abbrev pub after_placeholder : Option (List Entry × Entry × List Entry) → List Entry
after_placeholder none = []
after_placeholder (some (_, _, after)) = after

pub has_changes_after_placeholder : ℕ → SequenceTracker → Bool
has_changes_after_placeholder obs t = any_document (after_placeholder (split obs t.changes))

-- What is copied of an entry.
pub record Change : Type 0 where
  pub doc_id : Option Slice
  pub rev_id : Slice
  pub sequence : ℕ
  pub body_size : ℕ

abbrev pub change_of : Entry → Change
change_of e = record {
  doc_id = e.doc_id;
  rev_id = e.rev_id;
  sequence = e.sequence;
  body_size = e.body_size;
}

-- What the loop of `readChanges` gives: the changes, the entries it passed and those it did not.
pub record Batch : Type 0 where
  pub out : List Change
  pub passed : List Entry
  pub left : List Entry

abbrev pub pass : Entry → List Change → Batch → Batch
pass e more b = record { out = more ++ b.out; passed = e ∷ b.passed; left = b.left }

abbrev pub stop : List Entry → Batch
stop es = record { out = []; passed = []; left = es }

abbrev pub equal_bool : Bool → Bool → Bool
equal_bool true b = b
equal_bool false b = not b

-- `external` is that of the first change, once there is one.
abbrev pub differs : Option Bool → Entry → Bool
differs none e = false
differs (some external) e = not (equal_bool e.external external)

unfoldable pub read_loop : ℕ → Option Bool → List Entry → Batch
read_loop zero external es = stop es
read_loop (suc room) external [] = stop []
read_loop (suc room) external (e ∷ es) =
    let skipped = pass e [] (read_loop (suc room) external es) in
    let taken = pass e (change_of e ∷ []) (read_loop room (some e.external) es) in
    if is_placeholder e then skipped else if differs external e then stop (e ∷ es) else taken

-- `readChanges`: the changes, the flag, and the tracker with the placeholder moved.
abbrev pub first_external : List Entry → Bool
first_external [] = false
first_external (e ∷ es) = if is_placeholder e then first_external es else e.external

unfoldable pub read_found :
    ℕ → List Entry × Entry × List Entry → SequenceTracker → List Change × Bool × SequenceTracker
read_found max (front, p, after) t =
    let b = read_loop max none after in
    let moved = record t { changes = front ++ (b.passed ++ p ∷ b.left) } in
    if ltb 0 (length b.out)
    then (b.out, first_external after, remove_obsolete_entries moved)
    else (b.out, false, t)
