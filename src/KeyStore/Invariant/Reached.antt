-- ===== src/KeyStore/Invariant/Reached.antt =====
-- Every call on a key-value store preserves the invariant.
use cbl.Prelude.{ℕ, zero, suc, ◌+◌, ◌≡◌, refl, sym, ap, ◌∙◌, inl, inr, Bool, true, false, Option, none, some, List, [], ◌∷◌, Slice, Result, ok, arith, ok-injective, >>=-eq-ok, if-cases, if_both, subst}
use cbl.Record.{DocumentFlags, with_flags}
use cbl.KeyStore.{Row, Stored, KeyStore, key_is, key_and_sequence, update_where, delete_where, with_rows, last_sequence, cache_last_sequence, set_last_sequence, begin_writing, or_stored}
use cbl.KeyStore.Writing.{write_row, bound_sequence, finish_set, set_row, set_record, del_record, set_document_flag, erase_records, replace_only, delete_test, row_to_write}
use cbl.KeyStore.Expiration.{add_expiration, set_expiration, expire_records, delete_due, with_column, has_expiration?, notice, delete_unless_none, is_due, bound_time}
use cbl.KeyStore.Rows.Sequences.{IsTable, IsTable-delete, IsTable-keep}
use cbl.KeyStore.Steps.{Step, begin, finish, set, del, flag, erase, expire_at, expire, ask_last_sequence, others, Reach, here, later, new_store}
use cbl.KeyStore.Invariant.{IsStore, with_rows-IsStore, begin_writing-IsStore, end_writing-IsStore, cache_last_sequence-IsStore, finish_new-IsStore, finish_same-IsStore, write_row-IsTable, matched_key, matched_sequence}

pub cache-inside : (k : KeyStore) → k.in_transaction ≡ true → (cache_last_sequence k).in_transaction ≡ true
unfolding cache_last_sequence
cache-inside k e = if_both (λ (c : KeyStore). c.in_transaction ≡ true) k.in_transaction _ _ (λ _. e) (λ _. e)

pub cache-last : (k : KeyStore) → last_sequence (cache_last_sequence k) ≡ last_sequence k
unfolding cache_last_sequence last_sequence
cache-last k = if_both (λ (c : KeyStore). last_sequence c ≡ last_sequence k) k.in_transaction _ _ (λ _. refl) (λ _. refl)

-- A set with a new sequence, and one that keeps the sequence of the row it replaces.
set_bound-IsStore :
    (row : Row) (replacing : Option ℕ) (new_sequence : Bool) (seq : ℕ) (k k₁ : KeyStore)
    → k.in_transaction ≡ true
    → bound_sequence replacing new_sequence k ≡ ok (seq, k₁)
    → IsStore k
    → IsStore
      (finish_set seq new_sequence
        (write_row replacing (record row { sequence = some seq }) k₁.stored.rows) k₁).1
unfolding bound_sequence write_row replace_only
set_bound-IsStore row replacing true seq k k₁ inside e v =
    let c : KeyStore = cache_last_sequence k in
    let w = cache_last_sequence-IsStore k v in
    let last : suc (last_sequence c) ≡ last_sequence k + 1 = omega (arith, cache-last k) in
    let whole : (suc (last_sequence c), c) ≡ (seq, k₁) = ap (λ m. (m, c)) last ∙ ok-injective e in
    subst
      (λ p.
        IsStore (finish_set p.0 true
          (write_row replacing (record row { sequence = some p.0 }) p.1.stored.rows) p.1).1)
      whole
      (finish_new-IsStore c w (suc (last_sequence c)) _ (cache-inside k inside)
        (write_row-IsTable (record row { sequence = some (suc (last_sequence c)) }) replacing
          (last_sequence c) c.stored.rows refl w.table))
set_bound-IsStore row none false seq k k₁ inside e v = cc
set_bound-IsStore row (some zero) false seq k k₁ inside e v = cc
set_bound-IsStore row (some (suc n)) false seq k k₁ inside e v =
    let bound : Row = record row { sequence = some (suc n) } in
    let f : Row → Row = λ old. record bound { expiration = old.expiration } in
    subst
      (λ p.
        IsStore (finish_set p.0 false
          (write_row (some (suc n)) (record row { sequence = some p.0 }) p.1.stored.rows) p.1).1)
      (ok-injective e)
      (finish_same-IsStore k v (suc n) _
        (IsTable-keep (key_and_sequence row.key (suc n)) f k.stored.rows (last_sequence k)
          (λ r m. matched_key row.key (suc n) r m) (λ r m. matched_sequence row.key (suc n) r m)
          v.table))

pub set_row-IsStore :
    (row : Row) (replacing : Option ℕ) (new_sequence : Bool) (n : ℕ) (k l : KeyStore)
    → k.in_transaction ≡ true
    → set_row row replacing new_sequence k ≡ ok (n, l)
    → IsStore k
    → IsStore l
unfolding set_row
set_row-IsStore row replacing new_sequence n k l inside e v = elim (if-cases k.sequences _ _ e) [
  | inl (_, on) ↦
      let ((seq, k₁), at, last) = >>=-eq-ok (bound_sequence replacing new_sequence k) _ on in
      subst IsStore (ap (λ p. p.1) (ok-injective last))
        (set_bound-IsStore row replacing new_sequence seq k k₁ inside at v)
  | inr (off, _) ↦ cc (off, v.sequences)
]

pub del_record-IsStore : (key : Slice) (seq : ℕ) (k : KeyStore) → IsStore k → IsStore (del_record key seq k).1
unfolding del_record
del_record-IsStore key seq k v =
    with_rows-IsStore k (delete_where (delete_test key seq) k.stored.rows)
      (IsTable-delete (delete_test key seq) k.stored.rows (last_sequence k) v.table) v

set_document_flag-IsStore :
    (key : Slice) (seq : ℕ) (flags : DocumentFlags) (k : KeyStore)
    → IsStore k
    → IsStore (set_document_flag key seq flags k).1
unfolding set_document_flag
set_document_flag-IsStore key seq flags k v =
    let f : Row → Row = λ r. record r { flags = with_flags r.flags flags } in
    with_rows-IsStore k (update_where (key_and_sequence key seq) f k.stored.rows)
      (IsTable-keep (key_and_sequence key seq) f k.stored.rows (last_sequence k) (λ _ _. refl)
        (λ _ _. refl) v.table) v

began : (k l : KeyStore) → begin_writing k ≡ ok l → l.in_transaction ≡ true
unfolding begin_writing
began k l e = elim (if-cases k.in_transaction _ _ e) [
  | inl (_, bad) ↦ cc
  | inr (_, good) ↦ sym (ap (λ s. s.in_transaction) (ok-injective good))
]

erase_records-IsStore : (k l : KeyStore) → erase_records k ≡ ok l → IsStore k → IsStore l
unfolding erase_records finish_set
erase_records-IsStore k l e v =
    let (k₁, b, fin) = >>=-eq-ok (begin_writing k) _ e in
    let w = begin_writing-IsStore k k₁ b v in
    end_writing-IsStore true (set_last_sequence 0 (with_rows [] k₁)) l fin
      (finish_new-IsStore k₁ w 0 (1, []) (began k k₁ b)
        λ _. record { keys = tt; bounded = tt; distinct = tt })

-- The invariant says nothing of the column `expiration`.
column-IsStore :
    (k : KeyStore) (known has : Bool)
    → IsStore k
    → IsStore (record k { has_expiration = known; stored = record (k.stored) { has_column = has } })
unfolding last_sequence
column-IsStore k known has v = record {
  sequences = v.sequences;
  table = v.table;
  back = v.back;
  idle = v.idle;
  clean = v.clean;
}

add_expiration-IsStore : (k : KeyStore) → IsStore k → IsStore (add_expiration k)
unfolding add_expiration
add_expiration-IsStore k v =
    if_both IsStore (has_expiration? k) _ _
      (λ _. column-IsStore k (has_expiration? k) k.stored.has_column v)
      (λ _. column-IsStore k true true v)

with_column-ok {ℓ} :
    {A : Type ℓ} (k : KeyStore) (rest : Result A) (a : A) → with_column k rest ≡ ok a → rest ≡ ok a
unfolding with_column
with_column-ok k rest a e = elim (if-cases k.stored.has_column _ _ e) [
  | inl (_, good) ↦ good
  | inr (_, bad) ↦ cc
]

delete_due-IsStore :
    (now n : ℕ) (k l : KeyStore) → delete_due now k ≡ ok (n, l) → IsStore k → IsStore l
unfolding delete_due
delete_due-IsStore now n k l e v = elim (if-cases k.in_transaction _ _ e) [
  | inl (_, good) ↦
      subst IsStore (ap (λ p. p.1) (ok-injective good))
        (with_rows-IsStore k (delete_where (is_due now) k.stored.rows)
          (IsTable-delete (is_due now) k.stored.rows (last_sequence k) v.table) v)
  | inr (_, bad) ↦ cc
]

delete_unless_none-IsStore :
    (callback : Bool) (keys : List Slice) (now n : ℕ) (k l : KeyStore)
    → delete_unless_none callback keys now k ≡ ok (n, l)
    → IsStore k
    → IsStore l
delete_unless_none-IsStore true [] now n k l e v = subst IsStore (ap (λ p. p.1) (ok-injective e)) v
delete_unless_none-IsStore true (_ ∷ _) now n k l e v = delete_due-IsStore now n k l e v
delete_unless_none-IsStore false keys now n k l e v = delete_due-IsStore now n k l e v

set_expiration-IsStore :
    (key : Slice) (time : ℕ) (found : Bool) (k l : KeyStore)
    → set_expiration key time k ≡ ok (found, l)
    → IsStore k
    → IsStore l
unfolding set_expiration
set_expiration-IsStore key time found k l e v =
    let k₁ : KeyStore = add_expiration k in
    let w = add_expiration-IsStore k v in
    let f : Row → Row = λ r. record r { expiration = bound_time time } in
    subst IsStore (ap (λ p. p.1) (ok-injective (with_column-ok k₁ _ _ e)))
      (with_rows-IsStore k₁ (update_where (key_is key) f k₁.stored.rows)
        (IsTable-keep (key_is key) f k₁.stored.rows (last_sequence k₁) (λ _ _. refl) (λ _ _. refl)
          w.table) w)

expire_records-IsStore :
    (now : ℕ) (callback : Bool) (keys : List Slice) (n : ℕ) (k l : KeyStore)
    → expire_records now callback k ≡ ok (keys, n, l)
    → IsStore k
    → IsStore l
unfolding expire_records
expire_records-IsStore now callback keys n k l e v = elim (if-cases (has_expiration? k) _ _ e) [
  | inl (_, some_due) ↦
      let ((m, k₁), at, last) = >>=-eq-ok (with_column k _) _ some_due in
      let w = column-IsStore k (has_expiration? k) k.stored.has_column v in
      subst IsStore (ap (λ p. p.2) (ok-injective last))
        (delete_unless_none-IsStore callback _ now m (notice k) k₁ (with_column-ok k _ _ at) w)
  | inr (_, none_due) ↦ subst IsStore (ap (λ p. p.2) (ok-injective none_due)) v
]

others-IsStore :
    (k : KeyStore) (s : Stored)
    → k.in_transaction ≡ false
    → IsTable s.rows s.last_seq
    → IsStore k
    → IsStore (record k { stored = s })
unfolding last_sequence
others-IsStore k s out t v =
    let same : s.last_seq ≡ or_stored k.cached s.last_seq =
      sym (ap (λ c. or_stored c s.last_seq) (v.idle out)) in
    record {
      sequences = v.sequences;
      table = subst (IsTable s.rows) same t;
      back = λ inside. cc;
      idle = v.idle;
      clean = λ _. sym same;
    }

Step-IsStore : {k l : KeyStore} → Step k l → IsStore k → IsStore l
unfolding set_record row_to_write
Step-IsStore {k} {l} (begin e) v = begin_writing-IsStore k l e v
Step-IsStore {k} {l} (finish commit e) v = end_writing-IsStore commit k l e v
Step-IsStore {k} {l} (set key version body flags replacing new_sequence n inside e) v =
    set_row-IsStore (row_to_write key version body flags) replacing new_sequence n k l inside e v
Step-IsStore {k} (del key seq _) v = del_record-IsStore key seq k v
Step-IsStore {k} (flag key seq flags _) v = set_document_flag-IsStore key seq flags k v
Step-IsStore {k} {l} (erase e) v = erase_records-IsStore k l e v
Step-IsStore {k} {l} (expire_at key time found e) v = set_expiration-IsStore key time found k l e v
Step-IsStore {k} {l} (expire now callback keys n e) v =
    expire_records-IsStore now callback keys n k l e v
Step-IsStore {k} ask_last_sequence v = cache_last_sequence-IsStore k v
Step-IsStore {k} (others s out t) v = others-IsStore k s out t v

-- However a store whose records have sequences is called, in whatever order, through transactions that
-- commit or abort and writes of other connections between them: no two rows have the same key or the
-- same sequence, and no row has a sequence of 0 or one above the store's last sequence.
pub Reach-IsStore : {k : KeyStore} → Reach new_store k → IsStore k
unfolding new_store last_sequence
Reach-IsStore here = record {
  sequences = refl;
  table = record { keys = tt; bounded = tt; distinct = tt };
  back = λ b. cc;
  idle = λ _. refl;
  clean = λ _. refl;
}
Reach-IsStore (later r st) = Step-IsStore st (Reach-IsStore r)
