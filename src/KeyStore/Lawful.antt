-- ===== src/KeyStore/Lawful.antt =====
-- The tables of SQLiteKeyStore.cc keep the contract of the key-value store.
use cbl.Prelude.{ℕ, zero, suc, ◌<◌, ◌≡◌, ◌≢◌, refl, sym, ap, ◌∙◌, inl, inr, true, false, none, List, Slice, slice_eq, arith, Bool-cases, if◌then◌else◌, if_true, if_false, slice_eq_iff, ltb-true}
use cbl.Record.{no_document_flags, Record}
use cbl.KeyStore.{Row, KeyStore, key_and_sequence, delete_where, last_sequence, read_row, read_record}
use cbl.KeyStore.Writing.{del_record, delete_test, row_to_write}
use cbl.KeyStore.Rows.{lookup, lookup-delete_own, lookup-delete_other, matches-count, unmatched-count, delete_none}

use cbl.KeyStore.Lookups.{sqlite_store, IsOpen, read-lookup, sequence_at-lookup, other_row, row_with}
use cbl.KeyStore.Replacing.{not_there}

use cbl.KeyStore.Invariant.Reached.{del_record-IsStore}
use cbl.KeyStore.Contract.{IsLawful, IsUntouched, sequence_at}

use cbl.KeyStore.Setting.{sqlite_set_met, sqlite_set_unmet}

module _ (k : KeyStore) (key : Slice) (n : ℕ) (v : IsOpen k) where
  del-IsOpen : IsOpen (del_record key (suc n) k).1
  unfolding del_record
  del-IsOpen = record {
    store = del_record-IsStore key (suc n) k v.store;
    inside = v.inside;
  }

  abbrev deleted : List Row
  deleted = delete_where (key_and_sequence key (suc n)) k.stored.rows

  after_del :
      (rec : Record)
      → read_record false (del_record key (suc n) k).1 rec
        ≡ read_row false (lookup rec.key deleted) rec
  unfolding read_record del_record delete_test
  after_del rec = refl

  sqlite_del_met :
      sequence_at sqlite_store k key ≡ suc n
      → ((del_record key (suc n) k).0 ≡ true) × IsOpen (del_record key (suc n) k).1
        × ((rec : Record)
          → read_record false (del_record key (suc n) k).1 rec
            ≡ (if slice_eq key rec.key then (false, rec) else read_record false k rec))
  unfolding del_record delete_test row_to_write
  sqlite_del_met at =
      let (r, found, m) =
        row_with (last_sequence k) key k.stored.rows n v.store.table
          (sym (sequence_at-lookup k key) ∙ at) in
      let gone =
        lookup-delete_own key (suc n) k.stored.rows r v.store.table.keys found m in
      (ltb-true (matches-count key (suc n) k.stored.rows r found m), del-IsOpen, λ rec.
        elim (Bool-cases (slice_eq key rec.key)) [
          | inl own ↦
              after_del rec
              ∙ ap (λ o. read_row false o rec)
                  (ap (λ j. lookup j deleted) (sym ((slice_eq_iff key rec.key).0 own)) ∙ gone)
              ∙ sym (if_true _ _ _ own)
          | inr other ↦
              after_del rec
              ∙ ap (λ o. read_row false o rec)
                  (lookup-delete_other rec.key (key_and_sequence key (suc n)) k.stored.rows λ q hit.
                    not_there (row_to_write key none none no_document_flags) (suc n) k.stored.rows rec.key q
                      other hit)
              ∙ sym (read-lookup k rec)
              ∙ sym (if_false _ _ _ other)
        ])

  sqlite_del_unmet :
      sequence_at sqlite_store k key ≢ suc n
      → ((del_record key (suc n) k).0 ≡ false)
        × IsUntouched sqlite_store k (del_record key (suc n) k).1
  unfolding del_record delete_test
  sqlite_del_unmet other =
      let zero_rows =
        unmatched-count key (suc n) k.stored.rows _ v.store.table.keys refl
          (other_row (last_sequence k) key k.stored.rows (suc n)
            λ e. other (sequence_at-lookup k key ∙ e)) in
      (rw zero_rows refl, record {
        still = del-IsOpen;
        reads = λ rec.
            after_del rec
            ∙ ap (λ l. read_row false (lookup rec.key l) rec)
                (delete_none (key_and_sequence key (suc n)) k.stored.rows zero_rows)
            ∙ sym (read-lookup k rec);
      })

positive_del :
    (P : ℕ → Type 0) → ((n : ℕ) → P (suc n)) → (seq : ℕ) → 0 < seq → P seq
positive_del P f zero h = absurd (omega arith)
positive_del P f (suc n) h = f n

-- Within a transaction, the SQLite store does what KeyStore.hh says of a write that names the sequence it
-- replaces. If the record has that sequence (0 for no record), `set` gives it a positive sequence,
-- which is the same or, where a new one is asked for, above that of every record; the record then
-- reads as it was written, and every other as before; `del` removes it. If it has another sequence, `set`
-- returns 0 and `del` false, and every record reads as before.
pub sqlite_store-IsLawful : IsLawful sqlite_store
sqlite_store-IsLawful = record {
  set_met = λ k key version body flags seq create v need at.
      sqlite_set_met k key version body flags seq create v need at;
  set_unmet = λ k key version body flags seq create v need other.
      sqlite_set_unmet k key version body flags seq create v need other;
  del_met = λ k key seq v pos.
      positive_del
        (λ m.
          sequence_at sqlite_store k key ≡ m
          → ((del_record key m k).0 ≡ true) × IsOpen (del_record key m k).1
            × ((rec : Record)
              → read_record false (del_record key m k).1 rec
                ≡ (if slice_eq key rec.key then (false, rec) else read_record false k rec)))
        (λ n. sqlite_del_met k key n v) seq pos;
  del_unmet = λ k key seq v pos.
      positive_del
        (λ m.
          sequence_at sqlite_store k key ≢ m
          → ((del_record key m k).0 ≡ false) × IsUntouched sqlite_store k (del_record key m k).1)
        (λ n. sqlite_del_unmet k key n v) seq pos;
}
