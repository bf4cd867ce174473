-- ===== src/KeyStore/Replacing.antt =====
-- The statements of `set`: the rows where the condition is met, and that nothing is written where it is not.
use cbl.Prelude.{ℕ, zero, suc, ◌-◌, ◌≡◌, ◌≢◌, refl, sym, ap, ◌∙◌, inl, inr, Bool, true, false, Option, none, some, List, ◌∷◌, Slice, slice_eq, arith, Bool-cases, Option-cases, subst, slice_eq_iff, ==_iff, ◌==◌, slice_eq_refl, if_true, if_false}

use cbl.KeyStore.{Row, column_is, key_is, select, key_and_sequence, count_where, update_where}
use cbl.KeyStore.Writing.{write_row, insert_or_ignore, replace_only}
use cbl.KeyStore.Rows.{lookup, lookup-OtherKeys, OtherKeys-count, matches-count, unmatched-count, lookup-count, lookup-update, lookup-key}
use cbl.KeyStore.Rows.Sequences.{IsTable}
use cbl.KeyStore.Invariant.{matched_key}



use cbl.KeyStore.Lookups.{row_sequence, row_with, no_row, other_row}

-- The rows after a write whose condition was met.
pub record Wrote (row : Row) (rows after : List Row) : Type 0 where
  pub own :
      (j : Slice)
      → slice_eq row.key j ≡ true
      → (e : Option ℕ) × (lookup j after ≡ some (record row { expiration = e }))
  pub other : (j : Slice) → slice_eq row.key j ≡ false → lookup j after ≡ lookup j rows

cons-Wrote : (row : Row) (rows : List Row) → Wrote row rows (row ∷ rows)
unfolding select key_is
cons-Wrote row rows = record {
  own = λ j e. (row.expiration, rw e refl);
  other = λ j e. rw e refl;
}

module _ (row : Row) (n : ℕ) (rows : List Row) where
  abbrev pub put_in : Row → Row
  put_in old = record row { expiration = old.expiration }

  abbrev pub there : Row → Bool
  there = key_and_sequence row.key n

  keeps_key : (r : Row) → there r ≡ true → (put_in r).key ≡ r.key
  keeps_key r e = matched_key row.key n r e

  pub not_there : (j : Slice) (r : Row) → slice_eq row.key j ≡ false → key_is j r ≡ true → there r ≡ false
  unfolding key_and_sequence key_is
  not_there j r apart e =
      let same : r.key ≡ j = (slice_eq_iff r.key j).0 e in
      elim (Bool-cases (slice_eq r.key row.key)) [
        | inl d ↦
            cc (apart, slice_eq_refl j, (slice_eq_iff r.key row.key).0 d, same)
        | inr d ↦ rw d refl
      ]

  found_there :
      (r : Row)
      → lookup row.key rows ≡ some r
      → column_is r.sequence n ≡ true
      → there r ≡ true
  unfolding key_and_sequence
  found_there r at m = rw (lookup-key row.key rows r at) m

  update-Wrote :
      (r : Row)
      → lookup row.key rows ≡ some r
      → column_is r.sequence n ≡ true
      → Wrote row rows (update_where there put_in rows)
  update-Wrote r at m = record {
    own = λ j e.
        let same : row.key ≡ j = (slice_eq_iff row.key j).0 e in
        (
          r.expiration,
          lookup-update there put_in j rows (some r) keeps_key (subst (λ i. lookup i rows ≡ some r) same at)
          ∙ ap some (if_true (there r) (put_in r) r (found_there r at m)),
        );
    other = λ j e. elim (Option-cases (lookup j rows)) [
      | inl gone ↦ lookup-update there put_in j rows none keeps_key gone ∙ sym gone
      | inr (q, found) ↦
          lookup-update there put_in j rows (some q) keeps_key found
          ∙ ap some (if_false (there q) (put_in q) q (not_there j q e (lookup-key j rows q found)))
          ∙ sym found
    ];
  }

pub write_met :
    (row : Row) (seq last : ℕ) (rows : List Row)
    → IsTable rows last
    → row_sequence (lookup row.key rows) ≡ seq
    → (m : ℕ) × (after : List Row) × (write_row (some seq) row rows ≡ (suc m, after))
      × Wrote row rows after
unfolding write_row insert_or_ignore replace_only
write_met row zero last rows t e =
    let gone = OtherKeys-count row.key rows (lookup-OtherKeys row.key rows (no_row last row.key rows t e)) in
    (0, row ∷ rows, if_true _ _ _ ((==_iff (count_where (key_is row.key) rows) 0).1 gone), cons-Wrote row rows)
write_met row (suc n) last rows t e =
    let (r, at, m) = row_with last row.key rows n t e in
    (
      count_where (there row (suc n) rows) rows - 1,
      update_where (there row (suc n) rows) (put_in row (suc n) rows) rows,
      ap (λ c. (c, update_where (there row (suc n) rows) (put_in row (suc n) rows) rows))
        (omega (arith, matches-count row.key (suc n) rows r at m)),
      update-Wrote row (suc n) rows r at m,
    )

pub write_unmet :
    (row : Row) (seq last : ℕ) (rows : List Row)
    → IsTable rows last
    → row_sequence (lookup row.key rows) ≢ seq
    → (after : List Row) × (write_row (some seq) row rows ≡ (0, after))
unfolding write_row insert_or_ignore replace_only
write_unmet row zero last rows t other = elim (Option-cases (lookup row.key rows)) [
  | inl gone ↦ absurd (other (ap row_sequence gone))
  | inr (r, at) ↦
      let some_row = lookup-count row.key rows r at in
      let not_none : (count_where (key_is row.key) rows == 0) ≡ false = ground arith in
      (rows, if_false _ _ _ not_none)
]
write_unmet row (suc n) last rows t other =
    (
      update_where (there row (suc n) rows) (put_in row (suc n) rows) rows,
      ap (λ c. (c, update_where (there row (suc n) rows) (put_in row (suc n) rows) rows))
        (unmatched-count row.key (suc n) rows _ t.keys refl (other_row last row.key rows (suc n) other)),
    )
