-- ===== src/KeyStore/Writing.antt =====
-- SQLiteKeyStore.cc and KeyStore.cc: `set`, `write`, `del`, `setDocumentFlag` and `erase`.
use cbl.Prelude.{ℕ, zero, suc, ◌+◌, Bool, true, false, Option, none, some, List, [], ◌∷◌, Slice, Result, ok, throws, ◌>>=◌, assertion_failed, ltb, ◌==◌, if◌then◌else◌}
use cbl.Record.{DocumentFlags, with_flags, Record}
use cbl.KeyStore.{Row, KeyStore, key_is, key_and_sequence, count_where, update_where, delete_where, with_rows, last_sequence, cache_last_sequence, set_last_sequence, begin_writing, end_writing}

-- The statement that `set` chooses, on the row that it binds, with the count of rows it changes.
unfoldable pub insert_or_replace : Row → List Row → ℕ × List Row
unfolding delete_where key_is
insert_or_replace r rows = (1, r ∷ delete_where (key_is r.key) rows)

unfoldable pub insert_or_ignore : Row → List Row → ℕ × List Row
unfolding count_where key_is
insert_or_ignore r rows =
    if count_where (key_is r.key) rows == 0 then (1, r ∷ rows) else (0, rows)

unfoldable pub replace_only : ℕ → Row → List Row → ℕ × List Row
unfolding count_where update_where key_and_sequence
replace_only seq r rows =
    let test = key_and_sequence r.key seq in
    (
      count_where test rows,
      update_where test (λ old. record r { expiration = old.expiration }) rows,
    )

unfoldable pub write_row : Option ℕ → Row → List Row → ℕ × List Row
unfolding insert_or_replace insert_or_ignore replace_only
write_row none r rows = insert_or_replace r rows
write_row (some zero) r rows = insert_or_ignore r rows
write_row (some (suc n)) r rows = replace_only (suc n) r rows

-- The sequence that `set` binds: the next, or that of the record it replaces.
unfoldable pub bound_sequence : Option ℕ → Bool → KeyStore → Result (ℕ × KeyStore)
unfolding last_sequence cache_last_sequence
bound_sequence replacing true k = ok (last_sequence k + 1, cache_last_sequence k)
bound_sequence none false k = throws assertion_failed
bound_sequence (some zero) false k = throws assertion_failed
bound_sequence (some (suc n)) false k = ok (suc n, k)

abbrev pub replaces_sequence : Option ℕ → Bool
replaces_sequence none = false
replaces_sequence (some zero) = false
replaces_sequence (some (suc n)) = true

-- The result of the statement and what follows it.
unfoldable pub finish_set : ℕ → Bool → ℕ × List Row → KeyStore → ℕ × KeyStore
unfolding set_last_sequence
finish_set seq new_sequence (zero, rows) k = (0, k)
finish_set seq new_sequence (suc _, rows) k =
    (seq, if new_sequence then set_last_sequence seq (with_rows rows k) else with_rows rows k)

-- `SQLiteKeyStore::set`; `row` has the key, the version, the body and the flags.
unfoldable pub set_row : Row → Option ℕ → Bool → KeyStore → Result (ℕ × KeyStore)
unfolding bound_sequence finish_set write_row
set_row row replacing new_sequence k =
    let with_sequence : Result (ℕ × KeyStore) = (do
      (seq, k₁) ← bound_sequence replacing new_sequence k
      let bound : Row = record row { sequence = some seq }
      ok (finish_set seq new_sequence (write_row replacing bound k₁.stored.rows) k₁)) in
    let plain : Result (ℕ × KeyStore) =
      ok (finish_set 1 new_sequence
        (write_row replacing (record row { sequence = none }) k.stored.rows) k) in
    let without = if replaces_sequence replacing then throws assertion_failed else plain in
    if k.sequences then with_sequence else without

unfoldable pub row_to_write : Slice → Option Slice → Option Slice → DocumentFlags → Row
row_to_write key version body flags = record {
  key = key;
  sequence = none;
  flags = flags;
  version = version;
  body = body;
  expiration = none;
}

unfoldable pub set_record :
    Slice
    → Option Slice
    → Option Slice
    → DocumentFlags
    → Option ℕ
    → Bool
    → KeyStore
    → Result (ℕ × KeyStore)
unfolding row_to_write set_row
set_record key version body flags = set_row (row_to_write key version body flags)

-- `KeyStore::write`.
unfoldable pub write_record : Record → Option ℕ → KeyStore → Result (Record × KeyStore)
unfolding set_record
write_record rec replacing k = do
  (seq, k₁) ← set_record rec.key rec.version rec.body rec.flags replacing true k
  ok (record rec { exists = true; sequence = seq }, k₁)

unfoldable pub delete_test : Slice → ℕ → Row → Bool
unfolding key_is key_and_sequence
delete_test key zero = key_is key
delete_test key (suc n) = key_and_sequence key (suc n)

unfoldable pub del_record : Slice → ℕ → KeyStore → Bool × KeyStore
unfolding count_where delete_where delete_test
del_record key seq k =
    let test = delete_test key seq in
    (
      ltb 0 (count_where test k.stored.rows),
      with_rows (delete_where test k.stored.rows) k,
    )

unfoldable pub set_document_flag : Slice → ℕ → DocumentFlags → KeyStore → Bool × KeyStore
unfolding count_where update_where key_and_sequence with_flags
set_document_flag key seq flags k =
    let test = key_and_sequence key seq in
    let flag : Row → Row = λ r. record r { flags = with_flags r.flags flags } in
    (
      ltb 0 (count_where test k.stored.rows),
      with_rows (update_where test flag k.stored.rows) k,
    )

-- `erase`, in a transaction of its own.
unfoldable pub erase_records : KeyStore → Result KeyStore
unfolding begin_writing set_last_sequence end_writing
erase_records k = do
  k₁ ← begin_writing k
  end_writing true (set_last_sequence 0 (with_rows [] k₁))
