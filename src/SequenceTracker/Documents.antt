-- ===== src/SequenceTracker/Documents.antt =====
-- Changes of documents, and their observers.
use cbl.Prelude.{
  ℕ, ◌+◌, ◌-◌, Bool, true, false, not, ◌&&◌, Option, none, some, List, [], ◌∷◌, ◌++◌, map, Slice,
  slice_eq, Result, ok, throws, assertion_failed, bad_read, ltb, ◌==◌, min, drop, if◌then◌else◌,
}
use cbl.SequenceTracker.{
  Entry, doc_entry, is_placeholder, is_idle, Notice, to_document, to_database, SequenceTracker,
  in_transaction, has_db_change_notifiers, remove_obsolete_entries, has_value,
}
use cbl.SequenceTracker.Placeholders.{reverse_onto}

-- Whether an entry is the one that `_byDocID` has for a document.
abbrev pub same_doc : Option Slice → Option Slice → Bool
same_doc none none = true
same_doc none (some _) = false
same_doc (some _) none = false
same_doc (some a) (some b) = slice_eq a b

abbrev pub is_entry_of : Option Slice → Entry → Bool
is_entry_of doc_id e = not (has_value e.database_observer) && same_doc e.doc_id doc_id

unfoldable pub find_doc : Option Slice → List Entry → Option Entry
find_doc doc_id [] = none
find_doc doc_id (e ∷ es) =
    let rest = find_doc doc_id es in if is_entry_of doc_id e then some e else rest

unfoldable pub erase_doc : Option Slice → List Entry → List Entry
erase_doc doc_id [] = []
erase_doc doc_id (e ∷ es) =
    let rest = erase_doc doc_id es in if is_entry_of doc_id e then es else e ∷ rest

abbrev pub replace_doc : Option Slice → Entry → List Entry → List Entry
replace_doc doc_id new es = map (λ e. if is_entry_of doc_id e then new else e) es

-- Whether the entry of a document is the last one.
unfoldable pub is_last : Option Slice → List Entry → Bool
is_last doc_id [] = false
is_last doc_id (e ∷ es) = elim es [ [] ↦ is_entry_of doc_id e | _ ∷ _ ↦ is_last doc_id es ]

-- The placeholders right before the last entry, from the last one back, are notified.
unfoldable pub notices_of : List Entry → List Notice
notices_of [] = []
notices_of (e ∷ es) =
    let rest = notices_of es in
    let here : List Notice = elim e.database_observer [
      | none ↦ rest
      | some obs ↦ to_database obs ∷ rest
    ] in
    if is_placeholder e then here else []

abbrev pub no_notices : List Notice → Bool
no_notices [] = true
no_notices (_ ∷ _) = false

unfoldable pub notify_placeholders : SequenceTracker → SequenceTracker
notify_placeholders t =
    let new = notices_of (drop 1 (reverse_onto [] t.changes)) in
    let told = record t { notices = t.notices ++ new } in
    if no_notices new then told else remove_obsolete_entries told

-- The end of `_documentChanged`: an entry that is outside of a transaction is external.
unfoldable pub stamped : Bool → ℕ → Entry → Entry
stamped inside sequence e =
    if inside then e else record e { committed_sequence = sequence; external = true }

unfoldable pub finish_change : Option Slice → Entry → Bool → SequenceTracker → SequenceTracker
finish_change doc_id e list_changed t =
    let told = record t { notices = t.notices ++ map to_document e.document_observers } in
    if list_changed && ltb 0 told.num_placeholders then notify_placeholders told else told

unfoldable pub document_changed_in :
    Option Slice → Slice → ℕ → ℕ → SequenceTracker → SequenceTracker
document_changed_in doc_id rev_id sequence body_size t =
    let short_size = min body_size 4294967295 in
    let inside = in_transaction t in
    elim (find_doc doc_id (t.changes ++ t.idle)) [
      | none ↦
          let e = stamped inside sequence (doc_entry doc_id rev_id sequence short_size) in
          finish_change doc_id e true (record t { changes = t.changes ++ e ∷ [] })
      | some old ↦
          let e =
            stamped inside sequence
              (record old { rev_id = rev_id; sequence = sequence; body_size = short_size }) in
          let awake = record e { idle = false } in
          if is_idle old && not (has_db_change_notifiers t)
          then finish_change doc_id e false (record t { idle = replace_doc doc_id e t.idle })
          else if is_idle old
          then finish_change doc_id awake true
              (record t { idle = erase_doc doc_id t.idle; changes = t.changes ++ awake ∷ [] })
          else if is_last doc_id t.changes
          then finish_change doc_id e false (record t { changes = replace_doc doc_id e t.changes })
          else finish_change doc_id e true
              (record t { changes = erase_doc doc_id t.changes ++ e ∷ [] })
    ]

unfoldable pub document_changed : Slice → Slice → ℕ → ℕ → SequenceTracker → Result SequenceTracker
document_changed doc_id rev_id sequence body_size t =
    let later = record t { last_sequence = sequence } in
    if ltb t.last_sequence sequence && in_transaction t
    then ok (document_changed_in (some doc_id) rev_id sequence body_size later)
    else throws assertion_failed

pub document_purged : Slice → SequenceTracker → Result SequenceTracker
document_purged doc_id t =
    if in_transaction t
    then ok (document_changed_in (some doc_id) [] 0 0 t)
    else throws assertion_failed

pub add_doc_change_notifier : Slice → ℕ → SequenceTracker → SequenceTracker
add_doc_change_notifier doc_id obs t =
    let watch : Entry → Entry =
      λ e. record e { document_observers = e.document_observers ++ obs ∷ [] } in
    let counted = record t { num_doc_observers = t.num_doc_observers + 1 } in
    elim (find_doc (some doc_id) (t.changes ++ t.idle)) [
      | none ↦ record counted {
        idle = t.idle ++ watch (record (doc_entry (some doc_id) [] 0 0) { idle = true }) ∷ [];
      }
      | some e ↦ record counted {
        changes = replace_doc (some doc_id) (watch e) t.changes;
        idle = replace_doc (some doc_id) (watch e) t.idle;
      }
    ]

abbrev pub none_left : List ℕ → Bool
none_left [] = true
none_left (_ ∷ _) = false

-- `std::find` and `erase`; `none` where the notifier is not there.
abbrev pub keep {ℓ} : {A : Type ℓ} → A → Option (List A) → Option (List A)
keep a none = none
keep a (some rest) = some (a ∷ rest)

pub erase_observer : ℕ → List ℕ → Option (List ℕ)
erase_observer obs [] = none
erase_observer obs (o ∷ os) =
    let rest = keep o (erase_observer obs os) in if o == obs then some os else rest

pub remove_doc_change_notifier : Slice → ℕ → SequenceTracker → Result SequenceTracker
remove_doc_change_notifier doc_id obs t = elim (find_doc (some doc_id) (t.changes ++ t.idle)) [
  | none ↦ throws bad_read
  | some e ↦ elim (erase_observer obs e.document_observers) [
    | none ↦ throws assertion_failed
    | some rest ↦
        let left = record e { document_observers = rest } in
        let counted = record t { num_doc_observers = t.num_doc_observers - 1 } in
        ok (
          if none_left rest && is_idle e
          then record counted { idle = erase_doc (some doc_id) t.idle }
          else record counted {
            changes = replace_doc (some doc_id) left t.changes;
            idle = replace_doc (some doc_id) left t.idle;
          })
  ]
]
