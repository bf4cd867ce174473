-- ===== src/KeyStore/Lookups.antt =====
-- SQLiteKeyStore.cc as a store of KeyStore.hh, and its rows as what `read` finds.
use cbl.Prelude.{ℕ, suc, ◌≤◌, ◌≡◌, ◌≢◌, refl, sym, ap, ◌∙◌, inl, inr, true, false, Option, none, some, List, [], ◌∷◌, Slice, arith, Bool-cases, Option-cases, if-cases, subst, ==_iff, All, some_injective}
use cbl.Record.{Record, new_record, set_body}
use cbl.KeyStore.{Row, KeyStore, column_is, key_is, select, read_row, read_record, set_record_meta_and_body, column_as_int}
use cbl.KeyStore.Writing.{set_record, del_record}
use cbl.KeyStore.Rows.{lookup, column_is-eq}
use cbl.KeyStore.Rows.Sequences.{IsTable, HasSequence}
use cbl.KeyStore.Invariant.{IsStore}

use cbl.KeyStore.Contract.{Store, sequence_at}

-- A store in a transaction.
pub record IsOpen (k : KeyStore) : Type 0 where
  pub store : IsStore k
  pub inside : k.in_transaction ≡ true

abbrev pub sqlite_store : Store
sqlite_store = record {
  State = KeyStore;
  IsValid = IsOpen;
  read = read_record false;
  set = λ key version body flags seq. set_record key version body flags (some seq);
  del = del_record;
}

-- Reading is a lookup in the rows.
pub read-lookup :
    (k : KeyStore) (rec : Record)
    → read_record false k rec ≡ read_row false (lookup rec.key k.stored.rows) rec
unfolding read_record
read-lookup k rec = refl

abbrev pub row_sequence : Option Row → ℕ
row_sequence none = 0
row_sequence (some r) = column_as_int r.sequence

read_row-sequence :
    (key : Slice) (o : Option Row)
    → (read_row false o (new_record key)).1.sequence ≡ row_sequence o
unfolding set_record_meta_and_body set_body new_record
read_row-sequence key none = refl
read_row-sequence key (some r) = refl

pub sequence_at-lookup :
    (k : KeyStore) (key : Slice)
    → sequence_at sqlite_store k key ≡ row_sequence (lookup key k.stored.rows)
unfolding read_record new_record
sequence_at-lookup k key = read_row-sequence key (lookup key k.stored.rows)

All-lookup :
    (P : Row → Type 0) (key : Slice) (rows : List Row) (r : Row)
    → All P rows
    → lookup key rows ≡ some r
    → P r
unfolding select
All-lookup P key [] r h e = cc
All-lookup P key (x ∷ rows) r h e = elim (if-cases (key_is key x) _ _ e) [
  | inl (_, here) ↦ subst P (some_injective here) h.0
  | inr (_, later) ↦ All-lookup P key rows r h.1 later
]

-- The row whose record has a sequence, and the lack of one.
pub row_with : (last : ℕ) (key : Slice) (rows : List Row) (n : ℕ)
    → IsTable rows last
    → row_sequence (lookup key rows) ≡ suc n
    → (r : Row) × (lookup key rows ≡ some r) × (column_is r.sequence (suc n) ≡ true)
row_with last key rows n t e = elim (Option-cases (lookup key rows)) [
  | inl gone ↦ absurd (omega (arith, sym (ap row_sequence gone) ∙ e))
  | inr (r, at) ↦
      let (m, s, _, _) = All-lookup (HasSequence last) key rows r t.bounded at in
      let same : m ≡ suc n = ap column_as_int (sym s) ∙ sym (ap row_sequence at) ∙ e in
      (r, at, subst (λ o. column_is o (suc n) ≡ true) (sym s) ((==_iff m (suc n)).1 same))
]

pub no_row : (last : ℕ) (key : Slice) (rows : List Row)
    → IsTable rows last
    → row_sequence (lookup key rows) ≡ 0
    → lookup key rows ≡ none
no_row last key rows t e = elim (Option-cases (lookup key rows)) [
  | inl gone ↦ gone
  | inr (r, at) ↦
      let (m, s, pos, _) = All-lookup (HasSequence last) key rows r t.bounded at in
      let same : m ≡ 0 = ap column_as_int (sym s) ∙ sym (ap row_sequence at) ∙ e in
      absurd (omega arith)
]

pub other_row : (last : ℕ) (key : Slice) (rows : List Row) (n : ℕ)
    → row_sequence (lookup key rows) ≢ n
    → (r : Row) → lookup key rows ≡ some r
    → column_is r.sequence n ≡ false
other_row last key rows n other r at = elim (Bool-cases (column_is r.sequence n)) [
  | inl e ↦ absurd (other (ap row_sequence at ∙ ap column_as_int (sym (column_is-eq r.sequence n e))))
  | inr e ↦ e
]

pub below_last : (last : ℕ) (key : Slice) (rows : List Row)
    → IsTable rows last
    → row_sequence (lookup key rows) ≤ last
below_last last key rows t = elim (Option-cases (lookup key rows)) [
  | inl gone ↦ rw gone (omega arith)
  | inr (r, at) ↦
      let (m, s, _, low) = All-lookup (HasSequence last) key rows r t.bounded at in
      rw (at, s) low
]

