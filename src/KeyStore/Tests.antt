-- ===== src/KeyStore/Tests.antt =====
-- A store with two records, and the theorems at it.
use cbl.Prelude.{
  ℕ, ◌≡◌, refl, true, false, none, some, [], ◌∷◌, Slice, slice_eq, Result, ok, ◌>>=◌, value_or, throws, sqlite_error,
}
use cbl.Record.{no_document_flags}
use cbl.KeyStore.{Row, KeyStore, begin_writing, end_writing, last_sequence, transaction_will_end, cache_last_sequence, set_last_sequence, count_where, key_is, record_at, record_count, select, set_record_meta_and_body, delete_where, update_where, key_and_sequence, read_record}
use cbl.KeyStore.Writing.{
  set_record, set_row, bound_sequence, write_row, insert_or_ignore, insert_or_replace, replace_only, finish_set, row_to_write, write_record, set_document_flag, erase_records, del_record, delete_test,
}
use cbl.KeyStore.Expiration.{
  set_expiration, get_expiration, expire_records, next_expiration, due_keys, is_due, add_expiration,
  has_expiration?, with_column, bound_time,
}
use cbl.KeyStore.Expiring.{NextAfter, next_expiration-expire_records}
use cbl.KeyStore.Steps.{Reach, here, later, begin, finish, set, new_store}
use cbl.KeyStore.Lookups.{IsOpen}
use cbl.KeyStore.Invariant.{IsStore}
use cbl.KeyStore.Invariant.Reached.{Reach-IsStore}

abbrev pub opened : KeyStore
opened = value_or new_store (begin_writing new_store)

abbrev first_key : Slice
first_key = 97 ∷ []

abbrev second_key : Slice
second_key = 98 ∷ []

-- A record, a second one, and the first replaced.
abbrev wrote_first : ℕ × KeyStore
wrote_first =
    value_or (0, opened) (set_record first_key none (some (1 ∷ [])) no_document_flags (some 0) true opened)

abbrev wrote_second : ℕ × KeyStore
wrote_second =
    value_or (0, opened)
      (set_record second_key none (some (2 ∷ [])) no_document_flags none true wrote_first.1)

abbrev replaced : ℕ × KeyStore
replaced =
    value_or (0, opened)
      (set_record first_key none (some (3 ∷ [])) no_document_flags (some 1) true wrote_second.1)

abbrev committed : KeyStore
committed = value_or opened (end_writing true replaced.1)

pub opened-IsOpen : IsOpen opened
unfolding begin_writing new_store
opened-IsOpen = record { store = Reach-IsStore (later here (begin refl)); inside = refl }

sequences : (wrote_first.0 ≡ 1) × (wrote_second.0 ≡ 2) × (replaced.0 ≡ 3)
unfolding begin_writing new_store set_record set_row bound_sequence write_row insert_or_ignore
  insert_or_replace replace_only finish_set row_to_write last_sequence cache_last_sequence
  set_last_sequence count_where key_is slice_eq delete_where key_and_sequence
sequences = (refl, refl, refl)

-- The first record was replaced since sequence 1.
stale_write :
    set_record first_key none (some (4 ∷ [])) no_document_flags (some 1) true replaced.1 ≡ ok (0, replaced.1)
unfolding begin_writing new_store set_record set_row bound_sequence write_row insert_or_ignore
  insert_or_replace replace_only finish_set row_to_write last_sequence cache_last_sequence
  set_last_sequence count_where key_is slice_eq delete_where key_and_sequence update_where
stale_write = refl

Reach-IsStore_example : IsStore committed
unfolding begin_writing new_store set_record set_row bound_sequence write_row insert_or_ignore
  insert_or_replace replace_only finish_set row_to_write last_sequence cache_last_sequence
  set_last_sequence count_where key_is slice_eq delete_where key_and_sequence update_where
  end_writing transaction_will_end
Reach-IsStore_example =
    Reach-IsStore
      (later (later (later (later (later here (begin refl))
                (set first_key none (some (1 ∷ [])) no_document_flags (some 0) true 1 refl refl))
              (set second_key none (some (2 ∷ [])) no_document_flags none true 2 refl refl))
          (set first_key none (some (3 ∷ [])) no_document_flags (some 1) true 3 refl refl))
        (finish true refl))

-- The first record expires at 10, and the second at 20.
abbrev expiring : KeyStore
expiring =
    let first = value_or (false, opened) (set_expiration first_key 10 replaced.1) in
    (value_or (false, opened) (set_expiration second_key 20 first.1)).1

next_expiration-expire_records_example :
    (l : KeyStore) × (next : ℕ)
    × (expire_records 15 true expiring
      ≡ ok (due_keys 15 expiring.stored.rows, count_where (is_due 15) expiring.stored.rows, l))
    × (l.stored.rows ≡ delete_where (is_due 15) expiring.stored.rows)
    × (next_expiration l ≡ ok next)
    × NextAfter 15 next
unfolding begin_writing new_store set_record set_row bound_sequence write_row insert_or_ignore
  insert_or_replace replace_only finish_set row_to_write last_sequence cache_last_sequence
  set_last_sequence count_where key_is slice_eq delete_where key_and_sequence update_where
  set_expiration add_expiration has_expiration? with_column bound_time
next_expiration-expire_records_example =
    next_expiration-expire_records 15 true expiring refl refl

-- The first expiration time, set in a transaction that is aborted: the column is gone, and the store
-- still asks for it.
abbrev aborted : KeyStore
aborted =
    value_or opened
      (end_writing false (value_or (false, opened) (set_expiration first_key 10 opened)).1)

missing_column : get_expiration first_key aborted ≡ throws sqlite_error
unfolding begin_writing new_store set_expiration add_expiration has_expiration? with_column
  update_where get_expiration end_writing transaction_will_end
missing_column = refl
