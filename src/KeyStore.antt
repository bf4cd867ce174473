-- ===== src/KeyStore.antt =====
-- LiteCore/Storage/SQLiteKeyStore.cc: a key-value store in a table, with the sequences of its records,
-- and the part of SQLiteDataFile.cc and DataFile.cc that its transactions need.
-- The effect of a SQL statement of the source on the table is written out; a NULL column is `none`.
pub mod Writing
pub mod Expiration
pub mod Rows
pub mod Steps
pub mod Invariant
pub mod Lookups
pub mod Replacing
pub mod Setting
pub mod Lawful
pub mod Expiring
pub mod Contract
pub mod Tests
use cbl.Prelude.{
  ℕ, zero, suc, ◌+◌, Bool, true, false, not, ◌&&◌, ◌||◌, Option, none, some, List, [], ◌∷◌, Slice,
  slice_eq, Result, ok, throws, ◌>>=◌, assertion_failed, length, ltb, ◌==◌, if◌then◌else◌,
}
use cbl.Record.{
  DocumentFlags, no_document_flags, with_flags, Record, new_record, set_body, set_unloaded_body_size,
  slice_size,
}

-- A row of the table `kv_@`.
pub record Row : Type 0 where
  pub key : Slice
  pub sequence : Option ℕ
  pub flags : DocumentFlags
  pub version : Option Slice
  pub body : Option Slice
  pub expiration : Option ℕ

-- What ROLLBACK goes back to: the rows, the sequence in `kvmeta`, and whether the table has the column
-- `expiration`.
pub record Stored : Type 0 where
  pub rows : List Row
  pub last_seq : ℕ
  pub has_column : Bool

-- `cached` is `_lastSequence`, `none` for -1; `saved` is the state of the file when the transaction
-- began.
pub record KeyStore : Type 0 where
  pub stored : Stored
  pub saved : Stored
  pub sequences : Bool
  pub in_transaction : Bool
  pub cached : Option ℕ
  pub cached_changed : Bool
  pub has_expiration : Bool

-- `WHERE` clauses: no column equals anything if it is NULL.
abbrev pub column_is : Option ℕ → ℕ → Bool
column_is none n = false
column_is (some m) n = m == n

unfoldable pub key_is : Slice → Row → Bool
key_is key r = slice_eq r.key key

unfoldable pub key_and_sequence : Slice → ℕ → Row → Bool
unfolding key_is
key_and_sequence key seq r = key_is key r && column_is r.sequence seq

-- `SELECT … WHERE`, the first row; `UPDATE … WHERE` and `DELETE … WHERE`, with the count of rows.
unfoldable pub select : (Row → Bool) → List Row → Option Row
select test [] = none
select test (r ∷ rs) = if test r then some r else select test rs

unfoldable pub count_where : (Row → Bool) → List Row → ℕ
count_where test [] = 0
count_where test (r ∷ rs) = (if test r then 1 else 0) + count_where test rs

unfoldable pub update_where : (Row → Bool) → (Row → Row) → List Row → List Row
update_where test f [] = []
update_where test f (r ∷ rs) = (if test r then f r else r) ∷ update_where test f rs

unfoldable pub delete_where : (Row → Bool) → List Row → List Row
delete_where test [] = []
delete_where test (r ∷ rs) = if test r then delete_where test rs else r ∷ delete_where test rs

abbrev pub with_rows : List Row → KeyStore → KeyStore
with_rows rows k = record k { stored = record (k.stored) { rows = rows } }

-- `columnAsSlice`: SQLite has a null pointer for a blob without bytes.
abbrev pub column_as_slice : Option Slice → Option Slice
column_as_slice none = none
column_as_slice (some []) = none
column_as_slice (some (b ∷ s)) = some (b ∷ s)

-- An INTEGER column that is NULL reads as 0.
abbrev pub column_as_int : Option ℕ → ℕ
column_as_int none = 0
column_as_int (some n) = n

-- `setRecordMetaAndBody`, with `kMetaOnly` or the whole content.
unfoldable pub set_record_meta_and_body : Bool → Row → Record → Record
unfolding set_body slice_size
set_record_meta_and_body meta_only r rec =
    let meta : Record =
      record rec { exists = true; flags = r.flags; version = column_as_slice r.version } in
    if meta_only
    then set_unloaded_body_size (slice_size r.body) meta
    else set_body (column_as_slice r.body) meta

abbrev pub read_row : Bool → Option Row → Record → Bool × Record
read_row meta_only none rec = (false, rec)
read_row meta_only (some r) rec =
    (
      true,
      set_record_meta_and_body meta_only r (record rec { sequence = column_as_int r.sequence }),
    )

unfoldable pub read_record : Bool → KeyStore → Record → Bool × Record
unfolding select key_is
read_record meta_only k rec =
    read_row meta_only (select (key_is rec.key) k.stored.rows) rec

-- `KeyStore::get` by key and by sequence; `readBody`.
unfoldable pub record_of : Bool → KeyStore → Slice → Record
unfolding read_record new_record
record_of meta_only k key = (read_record meta_only k (new_record key)).1

abbrev pub found_at : ℕ → Option Row → Record
found_at seq none = new_record []
found_at seq (some r) =
    set_record_meta_and_body false r (record (new_record r.key) { sequence = seq })

unfoldable pub record_at : KeyStore → ℕ → Result Record
unfolding select new_record
record_at k seq =
    let found = found_at seq (select (λ r. column_is r.sequence seq) k.stored.rows) in
    if k.sequences then ok found else throws assertion_failed

abbrev pub body_from : Record → Result Record → Result Record
body_from rec (throws why) = throws why
body_from rec (ok full) = ok (record rec { body = full.body })

unfoldable pub read_body : KeyStore → Record → Result Record
unfolding record_at record_of
read_body k rec = elim rec.body [
  | some _ ↦ ok rec
  | none ↦
      body_from rec
        (if rec.sequence == 0 then ok (record_of false k rec.key) else record_at k rec.sequence)
]

unfoldable pub record_count : KeyStore → ℕ
unfolding count_where
record_count k = count_where (λ r. not r.flags.deleted) k.stored.rows

-- `lastSequence`, which keeps the value of `kvmeta` during a transaction.
abbrev pub or_stored : Option ℕ → ℕ → ℕ
or_stored none n = n
or_stored (some c) n = c

unfoldable pub last_sequence : KeyStore → ℕ
last_sequence k = or_stored k.cached k.stored.last_seq

unfoldable pub cache_last_sequence : KeyStore → KeyStore
unfolding last_sequence
cache_last_sequence k =
    if k.in_transaction then record k { cached = some (last_sequence k) } else k

unfoldable pub set_last_sequence : ℕ → KeyStore → KeyStore
set_last_sequence seq k =
    if k.sequences then record k { cached = some seq; cached_changed = true } else k

-- `transactionWillEnd`.
unfoldable pub transaction_will_end : Bool → KeyStore → KeyStore
unfolding last_sequence
transaction_will_end commit k =
    let kept =
      record k { stored = record (k.stored) { last_seq = last_sequence k } } in
    record (if commit && k.cached_changed then kept else k) {
      cached = none;
      cached_changed = false;
    }

-- `Transaction::Transaction`, `commit` and `abort` with the end of the scope.
unfoldable pub begin_writing : KeyStore → Result KeyStore
begin_writing k =
    if k.in_transaction
    then throws assertion_failed
    else ok (record k { in_transaction = true; saved = k.stored })

unfoldable pub end_writing : Bool → KeyStore → Result KeyStore
unfolding transaction_will_end
end_writing commit k =
    let noticed = transaction_will_end commit k in
    let ended =
      record noticed {
        in_transaction = false;
        stored = if commit then noticed.stored else noticed.saved;
      } in
    if k.in_transaction then ok ended else throws assertion_failed
