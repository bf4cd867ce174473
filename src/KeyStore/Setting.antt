-- ===== src/KeyStore/Setting.antt =====
-- `set` of SQLiteKeyStore.cc keeps the contract of the key-value store.
use cbl.Prelude.{ℕ, zero, suc, ◌+◌, ◌<◌, ◌≡◌, ◌≢◌, ◌⊎◌, refl, sym, ap, ◌∙◌, inl, inr, Bool, true, false, Option, some, List, Slice, slice_eq, ok, arith, Bool-cases, if_both, if◌then◌else◌, if_true, if_false}
use cbl.Record.{DocumentFlags, Record, set_body, slice_size}
use cbl.KeyStore.{Row, Stored, KeyStore, last_sequence, cache_last_sequence, set_last_sequence, read_row, read_record, set_record_meta_and_body}
use cbl.KeyStore.Writing.{write_row, bound_sequence, finish_set, set_row, set_record, row_to_write}
use cbl.KeyStore.Rows.{lookup}

use cbl.KeyStore.Lookups.{sqlite_store, IsOpen, read-lookup, sequence_at-lookup, below_last}
use cbl.KeyStore.Replacing.{Wrote, write_met, write_unmet}

use cbl.KeyStore.Invariant.Reached.{set_row-IsStore, cache-inside}
use cbl.KeyStore.Contract.{IsWritten, IsUntouched, written, sequence_at}

-- The sequence that `set` binds, and the state after it was asked for.
record IsBound (k : KeyStore) (seq : ℕ) (create : Bool) (n : ℕ) (c : KeyStore) : Type 0 where
  eq : bound_sequence (some seq) create k ≡ ok (n, c)
  stored : c.stored ≡ k.stored
  inside : c.in_transaction ≡ true
  positive : 0 < n
  kept : create ≡ false → n ≡ seq
  fresh : create ≡ true → last_sequence k < n

module _ (k : KeyStore) (v : IsOpen k) where
  bound_total :
      (seq : ℕ) (create : Bool)
      → (create ≡ true) ⊎ (0 < seq)
      → (n : ℕ) × (c : KeyStore) × IsBound k seq create n c
  unfolding bound_sequence cache_last_sequence
  bound_total seq true need = (last_sequence k + 1, cache_last_sequence k, record {
    eq = refl;
    stored = if_both (λ (c : KeyStore). c.stored ≡ k.stored) k.in_transaction _ _ (λ _. refl) (λ _. refl);
    inside = cache-inside k v.inside;
    positive = omega arith;
    kept = λ e. cc;
    fresh = λ _. omega arith;
  })
  bound_total zero false (inl e) = cc
  bound_total zero false (inr h) = absurd (omega arith)
  bound_total (suc n) false need = (suc n, k, record {
    eq = refl;
    stored = refl;
    inside = v.inside;
    positive = omega arith;
    kept = λ _. refl;
    fresh = λ e. cc;
  })

  set_row-eq :
      (row : Row) (seq : ℕ) (create : Bool) (n : ℕ) (c : KeyStore)
      → IsBound k seq create n c
      → set_row row (some seq) create k
        ≡ ok (finish_set n create
          (write_row (some seq) (record row { sequence = some n }) c.stored.rows) c)
  unfolding set_row
  set_row-eq row seq create n c b = if_true k.sequences _ _ v.store.sequences ∙ rw b.eq refl

-- What `finish_set` leaves: the rows, and the transaction.
finish-rows :
    (n m : ℕ) (create : Bool) (rows : List Row) (c : KeyStore)
    → ((finish_set n create (suc m, rows) c).0 ≡ n)
      × ((finish_set n create (suc m, rows) c).1.stored.rows ≡ rows)
      × ((finish_set n create (suc m, rows) c).1.in_transaction ≡ c.in_transaction)
unfolding finish_set set_last_sequence
finish-rows n m true rows c = (
  refl,
  if_both (λ (d : KeyStore). d.stored.rows ≡ rows) c.sequences _ _ (λ _. refl) (λ _. refl),
  if_both (λ (d : KeyStore). d.in_transaction ≡ c.in_transaction) c.sequences _ _ (λ _. refl)
    (λ _. refl),
)
finish-rows n m false rows c = (refl, refl, refl)

read_own :
    (n : ℕ) (key : Slice) (version body : Option Slice) (flags : DocumentFlags) (e : Option ℕ) (rec : Record)
    → read_row false (some (record (row_to_write key version body flags) { sequence = some n; expiration = e })) rec
      ≡ (true, written n version body flags rec)
unfolding set_record_meta_and_body set_body slice_size row_to_write written
read_own n key version body flags e rec = refl

module _ (k : KeyStore) (key : Slice) (version body : Option Slice) (flags : DocumentFlags) (seq : ℕ)
    (create : Bool) (v : IsOpen k) where
  abbrev row : Row
  row = row_to_write key version body flags

  set-IsOpen :
      (n : ℕ) (u : KeyStore)
      → set_record key version body flags (some seq) create k ≡ ok (n, u)
      → u.in_transaction ≡ true
      → IsOpen u
  unfolding set_record
  set-IsOpen n u e inside = record {
    store = set_row-IsStore row (some seq) create n k u v.inside e v.store;
    inside = inside;
  }

  set-eq :
      (n : ℕ) (c : KeyStore) (p : ℕ × List Row)
      → IsBound k seq create n c
      → write_row (some seq) (record row { sequence = some n }) k.stored.rows ≡ p
      → set_record key version body flags (some seq) create k ≡ ok (finish_set n create p c)
  unfolding set_record
  set-eq n c p b w =
      set_row-eq k v row seq create n c b
      ∙ ap (λ q. ok (finish_set n create q c))
          (ap (λ (s : Stored). write_row (some seq) (record row { sequence = some n }) s.rows) b.stored
            ∙ w)

  after_write :
      (n : ℕ) (u : KeyStore) (after : List Row) (rec : Record)
      → Wrote (record row { sequence = some n }) k.stored.rows after
      → u.stored.rows ≡ after
      → read_record false u rec
        ≡ (if slice_eq key rec.key
          then (true, written n version body flags rec)
          else read_record false k rec)
  unfolding row_to_write
  after_write n u after rec wrote rows =
      let found : read_record false u rec ≡ read_row false (lookup rec.key after) rec =
        read-lookup u rec ∙ ap (λ l. read_row false (lookup rec.key l) rec) rows in
      elim (Bool-cases (slice_eq key rec.key)) [
        | inl own ↦
            let (e, at) = wrote.own rec.key own in
            found ∙ ap (λ o. read_row false o rec) at ∙ read_own n key version body flags e rec
            ∙ sym (if_true _ _ _ own)
        | inr other ↦
            found ∙ ap (λ o. read_row false o rec) (wrote.other rec.key other)
            ∙ sym (read-lookup k rec) ∙ sym (if_false _ _ _ other)
      ]

  pub sqlite_set_met :
      (create ≡ true) ⊎ (0 < seq)
      → sequence_at sqlite_store k key ≡ seq
      → (n : ℕ) × (u : KeyStore)
        × (set_record key version body flags (some seq) create k ≡ ok (n, u))
        × IsWritten sqlite_store key version body flags create seq n k u
  unfolding row_to_write
  sqlite_set_met need at =
      let (n, c, b) = bound_total k v seq create need in
      let (m, after, w, wrote) =
        write_met (record row { sequence = some n }) seq (last_sequence k) k.stored.rows v.store.table
          (sym (sequence_at-lookup k key) ∙ at) in
      let u : KeyStore = (finish_set n create (suc m, after) c).1 in
      let (given, rows, inside) = finish-rows n m create after c in
      let eq = set-eq n c (suc m, after) b w ∙ ap (λ q. ok (q, u)) given in
      (n, u, eq, record {
        positive = b.positive;
        kept = b.kept;
        fresh = λ e other. omega (
          arith,
          b.fresh e,
          sequence_at-lookup k other,
          below_last (last_sequence k) other k.stored.rows v.store.table,
        );
        still = set-IsOpen n u eq (inside ∙ b.inside);
        reads = λ rec. after_write n u after rec wrote rows;
      })

  pub sqlite_set_unmet :
      (create ≡ true) ⊎ (0 < seq)
      → sequence_at sqlite_store k key ≢ seq
      → (u : KeyStore) × (set_record key version body flags (some seq) create k ≡ ok (0, u))
        × IsUntouched sqlite_store k u
  unfolding finish_set row_to_write
  sqlite_set_unmet need other =
      let (n, c, b) = bound_total k v seq create need in
      let (after, w) =
        write_unmet (record row { sequence = some n }) seq (last_sequence k) k.stored.rows
          v.store.table (λ e. other (sequence_at-lookup k key ∙ e)) in
      let eq = set-eq n c (0, after) b w in
      (c, eq, record {
        still = set-IsOpen 0 c eq b.inside;
        reads = λ rec.
            read-lookup c rec
            ∙ ap (λ (s : Stored). read_row false (lookup rec.key s.rows) rec) b.stored
            ∙ sym (read-lookup k rec);
      })

