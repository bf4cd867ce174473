-- ===== src/KeyStore/Invariant.antt =====
-- What holds in every state of a store whose records have sequences.
pub mod Reached
use cbl.Prelude.{
  ℕ, zero, suc, ◌+◌, ◌<◌, ◌≤◌, ◌≡◌, refl, sym, ap, ◌∙◌, inl, inr, Bool, true, false, ◌&&◌, Option, none,
  some, List, [], ◌∷◌, Slice, Result, ok, throws, ◌>>=◌, arith, Bool-cases, ok-injective, >>=-eq-ok,
  if-cases, if◌then◌else◌, subst, slice_eq_iff, ==_iff, ◌==◌,
}
use cbl.Record.{DocumentFlags}
use cbl.KeyStore.{
  Row, Stored, KeyStore, key_is, key_and_sequence, count_where, update_where, delete_where,
  with_rows, last_sequence, cache_last_sequence, set_last_sequence, transaction_will_end,
  begin_writing, end_writing,
}
use cbl.KeyStore.Writing.{
  write_row, bound_sequence, finish_set, set_row, set_record, del_record, set_document_flag,
  erase_records, insert_or_replace, insert_or_ignore, replace_only,
}
use cbl.KeyStore.Expiration.{
  add_expiration, set_expiration, expire_records, delete_due,
}
use cbl.KeyStore.Rows.{deleted-OtherKeys, OtherKeys, column_is-eq}
use cbl.KeyStore.Rows.Sequences.{
  IsTable, IsTable-delete, IsTable-keep, IsTable-fresh, IsTable-cons, IsTable_le,
}
use cbl.KeyStore.Steps.{
  Step, begin, finish, set, del, flag, erase, expire_at, expire, ask_last_sequence, others, Reach, here, later, new_store,
}

pub record IsStore (k : KeyStore) : Type 0 where
  pub sequences : k.sequences ≡ true
  pub table : IsTable k.stored.rows (last_sequence k)
  -- What a rollback goes back to is in order.
  pub back : k.in_transaction ≡ true → IsTable k.saved.rows k.saved.last_seq
  -- Nothing is kept in memory between transactions.
  pub idle : k.in_transaction ≡ false → k.cached ≡ none
  -- The last sequence is the stored one until it is changed.
  pub clean : k.cached_changed ≡ false → last_sequence k ≡ k.stored.last_seq

pub with_rows-IsStore :
    (k : KeyStore) (rows : List Row)
    → IsTable rows (last_sequence k)
    → IsStore k
    → IsStore (with_rows rows k)
unfolding last_sequence
with_rows-IsStore k rows t v = record {
  sequences = v.sequences;
  table = t;
  back = v.back;
  idle = v.idle;
  clean = v.clean;
}

pub begin_writing-IsStore : (k l : KeyStore) → begin_writing k ≡ ok l → IsStore k → IsStore l
unfolding begin_writing last_sequence
begin_writing-IsStore k l e v = elim (if-cases k.in_transaction _ _ e) [
  | inl (_, bad) ↦ cc
  | inr (out, good) ↦
      subst IsStore (ok-injective good) (record {
        sequences = v.sequences;
        table = v.table;
        back = λ _. subst (IsTable k.stored.rows) (rw (v.idle out) refl) v.table;
        idle = λ b. cc;
        clean = v.clean;
      })
]

-- The state after a transaction, given what was written.
abbrev pub ended : KeyStore → Stored → KeyStore
ended k s = record k {
  stored = s;
  in_transaction = false;
  cached = none;
  cached_changed = false;
}

pub ended-IsStore :
    (k : KeyStore) (s : Stored)
    → k.sequences ≡ true
    → IsTable s.rows s.last_seq
    → IsStore (ended k s)
unfolding last_sequence
ended-IsStore k s on t = record {
  sequences = on;
  table = t;
  back = λ b. cc;
  idle = λ _. refl;
  clean = λ _. refl;
}

commit-IsStore :
    (changed : Bool) (k : KeyStore)
    → k.sequences ≡ true
    → IsTable k.stored.rows (last_sequence k)
    → (changed ≡ false → last_sequence k ≡ k.stored.last_seq)
    → IsStore (
        let kept : KeyStore =
          if changed then record k { stored = record (k.stored) { last_seq = last_sequence k } } else k in
        ended kept kept.stored)
commit-IsStore true k on t same =
    ended-IsStore k (record (k.stored) { last_seq = last_sequence k }) on t
commit-IsStore false k on t same =
    ended-IsStore k k.stored on (subst (IsTable k.stored.rows) (same refl) t)

pub end_writing-IsStore :
    (commit : Bool) (k l : KeyStore) → end_writing commit k ≡ ok l → IsStore k → IsStore l
unfolding end_writing transaction_will_end
end_writing-IsStore true k l e v = elim (if-cases k.in_transaction _ _ e) [
  | inl (_, good) ↦
      subst IsStore (ok-injective good)
        (commit-IsStore k.cached_changed k v.sequences v.table v.clean)
  | inr (_, bad) ↦ cc
]
end_writing-IsStore false k l e v = elim (if-cases k.in_transaction _ _ e) [
  | inl (inside, good) ↦
      subst IsStore (ok-injective good) (ended-IsStore k k.saved v.sequences (v.back inside))
  | inr (_, bad) ↦ cc
]

count-OtherKeys :
    (key : Slice) (rows : List Row) → count_where (key_is key) rows ≡ 0 → OtherKeys key rows
unfolding count_where
count-OtherKeys key [] e = tt
count-OtherKeys key (r ∷ rs) e = elim (Bool-cases (key_is key r)) [
  | inl hit ↦ absurd (omega (arith, subst (λ b. (if b then 1 else 0) + count_where (key_is key) rs ≡ 0) hit e))
  | inr miss ↦
      (miss, count-OtherKeys key rs
        (omega (arith, subst (λ b. (if b then 1 else 0) + count_where (key_is key) rs ≡ 0) miss e)))
]

pub matched_key : (key : Slice) (n : ℕ) (r : Row) → key_and_sequence key n r ≡ true → key ≡ r.key
unfolding key_and_sequence key_is
matched_key key n r e = sym ((slice_eq_iff r.key key).0 (ground arith))

pub matched_sequence :
    (key : Slice) (n : ℕ) (r : Row) → key_and_sequence key n r ≡ true → some n ≡ r.sequence
unfolding key_and_sequence key_is
matched_sequence key n r e = column_is-eq r.sequence n (ground arith)

-- The rows that are written with a new sequence.
pub write_row-IsTable :
    (row : Row) (replacing : Option ℕ) (last : ℕ) (rows : List Row)
    → row.sequence ≡ some (suc last)
    → IsTable rows last
    → (0 < (write_row replacing row rows).0)
    → IsTable (write_row replacing row rows).1 (suc last)
unfolding write_row insert_or_ignore insert_or_replace replace_only
write_row-IsTable row none last rows e t written =
    IsTable-cons row (delete_where (key_is row.key) rows) last e (deleted-OtherKeys row.key rows)
      (IsTable-delete (key_is row.key) rows last t)
write_row-IsTable row (some zero) last rows e t written =
    elim (Bool-cases (count_where (key_is row.key) rows == 0)) [
      | inl absent ↦
          rw absent
            (IsTable-cons row rows last e
              (count-OtherKeys row.key rows ((==_iff (count_where (key_is row.key) rows) 0).0 absent)) t)
      | inr there ↦ absurd (omega (arith, rw there at written))
    ]
write_row-IsTable row (some (suc n)) last rows e t written =
    IsTable-fresh row.key (suc n) last (λ old. record row { expiration = old.expiration }) (λ r. e)
      rows (λ r m. matched_key row.key (suc n) r m) t

module _ (k : KeyStore) (v : IsStore k) where
  cached-IsStore : (b : Bool) → k.in_transaction ≡ b → IsStore (if b then record k { cached = some (last_sequence k) } else k)
  unfolding last_sequence
  cached-IsStore true inside = record {
    sequences = v.sequences;
    table = v.table;
    back = v.back;
    idle = λ out. cc;
    clean = v.clean;
  }
  cached-IsStore false outside = v

  pub cache_last_sequence-IsStore : IsStore (cache_last_sequence k)
  unfolding cache_last_sequence
  cache_last_sequence-IsStore = cached-IsStore k.in_transaction refl

  renewed-IsStore :
      (b : Bool) (rows : List Row) (seq : ℕ)
      → b ≡ true
      → k.in_transaction ≡ true
      → IsTable rows seq
      → IsStore (if b
        then record (with_rows rows k) { cached = some seq; cached_changed = true }
        else with_rows rows k)
  unfolding last_sequence
  renewed-IsStore true rows seq on inside t = record {
    sequences = v.sequences;
    table = t;
    back = v.back;
    idle = λ out. cc;
    clean = λ same. cc;
  }
  renewed-IsStore false rows seq on inside t = cc

  pub finish_new-IsStore :
      (seq : ℕ) (p : ℕ × List Row)
      → k.in_transaction ≡ true
      → ((0 < p.0) → IsTable p.1 seq)
      → IsStore (finish_set seq true p k).1
  unfolding finish_set set_last_sequence
  finish_new-IsStore seq (zero, rows) inside t = v
  finish_new-IsStore seq (suc n, rows) inside t =
      renewed-IsStore k.sequences rows seq v.sequences inside (t (omega arith))

  pub finish_same-IsStore :
      (seq : ℕ) (p : ℕ × List Row)
      → IsTable p.1 (last_sequence k)
      → IsStore (finish_set seq false p k).1
  unfolding finish_set
  finish_same-IsStore seq (zero, rows) t = v
  finish_same-IsStore seq (suc n, rows) t = with_rows-IsStore k rows t v
