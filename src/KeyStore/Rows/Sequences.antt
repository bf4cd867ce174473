-- ===== src/KeyStore/Rows/Sequences.antt =====
-- The sequences of the rows: each is positive, at most the last sequence, and in one row only.
use cbl.Prelude.{ℕ, suc, ◌<◌, ◌≤◌, ◌≡◌, ◌≢◌, refl, sym, ◌∙◌, inl, inr, Bool, true, some, List, [], ◌∷◌, Slice, arith, All, Bool-cases, some_injective}
use cbl.KeyStore.{Row, key_is, key_and_sequence, update_where, delete_where}
use cbl.KeyStore.Rows.{OtherKeys, UniqueKeys, OtherKeys-same, UniqueKeys-delete, UniqueKeys-update}

abbrev pub HasSequence : ℕ → Row → Type 0
HasSequence last r = (n : ℕ) × (r.sequence ≡ some n) × (0 < n) × (n ≤ last)

abbrev pub OtherSequence : Row → Row → Type 0
OtherSequence r s = s.sequence ≢ r.sequence

abbrev pub UniqueSequences : List Row → Type 0
UniqueSequences [] = Unit
UniqueSequences (r ∷ rs) = All (OtherSequence r) rs × UniqueSequences rs

-- The rows of a store whose records have sequences.
pub record IsTable (rows : List Row) (last : ℕ) : Type 0 where
  pub keys : UniqueKeys rows
  pub bounded : All (HasSequence last) rows
  pub distinct : UniqueSequences rows

pub All-weaken {ℓ} :
    {A : Type ℓ} (P Q : A → Type 0) (xs : List A) → ((a : A) → P a → Q a) → All P xs → All Q xs
All-weaken P Q [] f h = tt
All-weaken P Q (x ∷ xs) f h = (f x h.0, All-weaken P Q xs f h.1)

pub HasSequence_le : (a b : ℕ) (r : Row) → a ≤ b → HasSequence a r → HasSequence b r
HasSequence_le a b r le (n, e, p, q) = (n, e, p, omega arith)

pub All-delete :
    (P : Row → Type 0) (test : Row → Bool) (rows : List Row)
    → All P rows
    → All P (delete_where test rows)
unfolding delete_where
All-delete P test [] h = tt
All-delete P test (r ∷ rs) h = elim (Bool-cases (test r)) [
  | inl e ↦ rw e (All-delete P test rs h.1)
  | inr e ↦ rw e (h.0, All-delete P test rs h.1)
]

UniqueSequences-delete :
    (test : Row → Bool) (rows : List Row) → UniqueSequences rows → UniqueSequences (delete_where test rows)
unfolding delete_where
UniqueSequences-delete test [] u = tt
UniqueSequences-delete test (r ∷ rs) u = elim (Bool-cases (test r)) [
  | inl e ↦ rw e (UniqueSequences-delete test rs u.1)
  | inr e ↦
      rw e (All-delete (OtherSequence r) test rs u.0, UniqueSequences-delete test rs u.1)
]

pub IsTable-delete :
    (test : Row → Bool) (rows : List Row) (last : ℕ)
    → IsTable rows last
    → IsTable (delete_where test rows) last
IsTable-delete test rows last t = record {
  keys = UniqueKeys-delete test rows t.keys;
  bounded = All-delete (HasSequence last) test rows t.bounded;
  distinct = UniqueSequences-delete test rows t.distinct;
}

pub IsTable_le : (rows : List Row) (a b : ℕ) → a ≤ b → IsTable rows a → IsTable rows b
IsTable_le rows a b le t = record {
  keys = t.keys;
  bounded =
    All-weaken (HasSequence a) (HasSequence b) rows (λ r. HasSequence_le a b r le) t.bounded;
  distinct = t.distinct;
}

module _ (test : Row → Bool) (f : Row → Row) where
  pub All-update :
      (P : Row → Type 0) (rows : List Row)
      → ((r : Row) → test r ≡ true → P r → P (f r))
      → All P rows
      → All P (update_where test f rows)
  unfolding update_where
  All-update P [] step h = tt
  All-update P (r ∷ rs) step h = elim (Bool-cases (test r)) [
    | inl e ↦ rw e (step r e h.0, All-update P rs step h.1)
    | inr e ↦ rw e (h.0, All-update P rs step h.1)
  ]

  -- An update that keeps the sequences.
  UniqueSequences-keep :
      (rows : List Row)
      → ((r : Row) → test r ≡ true → (f r).sequence ≡ r.sequence)
      → UniqueSequences rows
      → UniqueSequences (update_where test f rows)
  unfolding update_where
  UniqueSequences-keep [] keeps u = tt
  UniqueSequences-keep (r ∷ rs) keeps u =
      let rest =
        All-update (OtherSequence r) rs (λ s e other same. other (sym (keeps s e) ∙ same)) u.0 in
      elim (Bool-cases (test r)) [
        | inl e ↦ rw (e, keeps r e) (rest, UniqueSequences-keep rs keeps u.1)
        | inr e ↦ rw e (rest, UniqueSequences-keep rs keeps u.1)
      ]

  pub IsTable-keep :
      (rows : List Row) (last : ℕ)
      → ((r : Row) → test r ≡ true → (f r).key ≡ r.key)
      → ((r : Row) → test r ≡ true → (f r).sequence ≡ r.sequence)
      → IsTable rows last
      → IsTable (update_where test f rows) last
  IsTable-keep rows last keys keeps t = record {
    keys = UniqueKeys-update test f rows keys t.keys;
    bounded =
      All-update (HasSequence last) rows (λ r e h. (h.0, keeps r e ∙ h.1, h.2, h.3)) t.bounded;
    distinct = UniqueSequences-keep rows keeps t.distinct;
  }

-- No row with another key is updated.
update_none :
    (key : Slice) (n : ℕ) (f : Row → Row) (rows : List Row)
    → OtherKeys key rows
    → update_where (key_and_sequence key n) f rows ≡ rows
unfolding update_where key_and_sequence
update_none key n f [] h = refl
update_none key n f (r ∷ rs) h = rw (h.0, update_none key n f rs h.1) refl

above_last : (last : ℕ) (r s : Row) → HasSequence last r → s.sequence ≡ some (suc last) → s.sequence ≢ r.sequence
above_last last r s (n, e, p, q) at same =
    let eq : suc last ≡ n = some_injective (sym at ∙ same ∙ e) in omega arith

key_and_sequence-key :
    (key : Slice) (n : ℕ) (r : Row) → key_and_sequence key n r ≡ true → key_is key r ≡ true
unfolding key_and_sequence
key_and_sequence-key key n r e = ground arith

-- One row gets a new sequence.
module _ (key : Slice) (n last : ℕ) (f : Row → Row) (fresh : (r : Row) → (f r).sequence ≡ some (suc last)) where
  UniqueSequences-fresh :
      (rows : List Row)
      → UniqueKeys rows
      → All (HasSequence last) rows
      → UniqueSequences rows
      → UniqueSequences (update_where (key_and_sequence key n) f rows)
  unfolding update_where
  UniqueSequences-fresh [] k b u = tt
  UniqueSequences-fresh (r ∷ rs) k b u = elim (Bool-cases (key_and_sequence key n r)) [
    | inl e ↦
        rw (e, update_none key n f rs (OtherKeys-same r key rs (key_and_sequence-key key n r e) k.0)) (
          All-weaken (HasSequence last) (OtherSequence (f r)) rs
            (λ s h same. above_last last s (f r) h (fresh r) (sym same)) b.1,
          u.1,
        )
    | inr e ↦
        rw e (
          All-update (key_and_sequence key n) f (OtherSequence r) rs
            (λ s _ _. above_last last r (f s) b.0 (fresh s)) u.0,
          UniqueSequences-fresh rs k.1 b.1 u.1,
        )
  ]

  pub IsTable-fresh :
      (rows : List Row)
      → ((r : Row) → key_and_sequence key n r ≡ true → (f r).key ≡ r.key)
      → IsTable rows last
      → IsTable (update_where (key_and_sequence key n) f rows) (suc last)
  IsTable-fresh rows keeps t = record {
    keys = UniqueKeys-update (key_and_sequence key n) f rows keeps t.keys;
    bounded =
      All-update (key_and_sequence key n) f (HasSequence (suc last)) rows
        (λ r _ _. (suc last, fresh r, omega arith, omega arith))
        (All-weaken (HasSequence last) (HasSequence (suc last)) rows
          (λ r. HasSequence_le last (suc last) r (omega arith)) t.bounded);
    distinct = UniqueSequences-fresh rows t.keys t.bounded t.distinct;
  }

-- A row with a new sequence is put in front of rows with other keys.
pub IsTable-cons :
    (r : Row) (rows : List Row) (last : ℕ)
    → r.sequence ≡ some (suc last)
    → OtherKeys r.key rows
    → IsTable rows last
    → IsTable (r ∷ rows) (suc last)
IsTable-cons r rows last e other t = record {
  keys = (other, t.keys);
  bounded =
    (
      (suc last, e, omega arith, omega arith),
      (IsTable_le rows last (suc last) (omega arith) t).bounded,
    );
  distinct =
    (
      All-weaken (HasSequence last) (OtherSequence r) rows
        (λ s h same. above_last last s r h e (sym same)) t.bounded,
      t.distinct,
    );
}
