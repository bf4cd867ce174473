-- ===== src/KeyStore/Expiring.antt =====
-- `expireRecords` and `nextExpiration`.
use cbl.Prelude.{
  ℕ, ◌+◌, ◌<◌, ◌≡◌, ◌⊎◌, refl, sym, ap, ◌∙◌, inl, inr, Bool, true, false, ◌||◌, Option, none, some,
  List, [], ◌∷◌, Slice, Result, ok, ◌>>=◌, arith, leb, Bool-cases, if_true, if_both, if◌then◌else◌,
}
use cbl.KeyStore.{KeyStore, Row, count_where, delete_where, with_rows, column_as_int}
use cbl.KeyStore.Expiration.{
  has_expiration?, notice, with_column, due, is_due, due_keys, delete_due, called_back,
  delete_unless_none, expire_records, earlier, earliest, next_expiration,
}
use cbl.KeyStore.Rows.{delete_none}

known : (k : KeyStore) → k.stored.has_column ≡ true → has_expiration? k ≡ true
unfolding has_expiration?
known k e = ground arith

no_keys-count :
    (now : ℕ) (rows : List Row) → due_keys now rows ≡ [] → count_where (is_due now) rows ≡ 0
unfolding due_keys count_where
no_keys-count now [] e = refl
no_keys-count now (r ∷ rs) e = elim (Bool-cases (is_due now r)) [
  | inl late ↦ cc (rw late at e)
  | inr early ↦ rw early (omega (arith, no_keys-count now rs (rw early at e)))
]

-- The store without the records that are due.
abbrev expired : ℕ → KeyStore → KeyStore
expired now k = with_rows (delete_where (is_due now) k.stored.rows) k

delete_due-eq :
    (now : ℕ) (k : KeyStore)
    → k.in_transaction ≡ true
    → delete_due now k ≡ ok (count_where (is_due now) k.stored.rows, expired now k)
unfolding delete_due
delete_due-eq now k inside = if_true k.in_transaction _ _ inside

-- With and without a callback, the same is deleted.
delete_unless_none-eq :
    (callback : Bool) (keys : List Slice) (now : ℕ) (k : KeyStore)
    → k.in_transaction ≡ true
    → (keys ≡ [] → callback ≡ true → due_keys now k.stored.rows ≡ [])
    → delete_unless_none callback keys now k
      ≡ ok (count_where (is_due now) k.stored.rows, expired now k)
delete_unless_none-eq true [] now k inside same =
    let zero_rows = no_keys-count now k.stored.rows (same refl refl) in
    ap (λ p. ok p)
      (ap (λ n. (n, k)) (sym zero_rows)
        ∙ ap (λ rows. (count_where (is_due now) k.stored.rows, with_rows rows k))
            (sym (delete_none (is_due now) k.stored.rows zero_rows)))
delete_unless_none-eq true (_ ∷ _) now k inside same = delete_due-eq now k inside
delete_unless_none-eq false keys now k inside same = delete_due-eq now k inside

called_back-keys :
    (callback : Bool) (now : ℕ) (k : KeyStore)
    → called_back callback now k ≡ []
    → callback ≡ true
    → due_keys now k.stored.rows ≡ []
called_back-keys true now k e on = e
called_back-keys false now k e on = cc

earlier_after :
    (now : ℕ) (a b : Option ℕ)
    → due now a ≡ false
    → (b ≡ none) ⊎ ((t : ℕ) × (b ≡ some t) × (now < t))
    → (earlier a b ≡ none) ⊎ ((t : ℕ) × (earlier a b ≡ some t) × (now < t))
earlier_after now none b e h = h
earlier_after now (some a) none e h = inr (a, refl, ground arith)
earlier_after now (some a) (some b) e (inl gone) = cc
earlier_after now (some a) (some b) e (inr (t, at, low)) =
    elim (Bool-cases (leb a b)) [
      | inl first ↦ inr (a, rw first refl, ground arith)
      | inr last ↦ inr (t, rw last at, low)
    ]

is_due-eq : (now : ℕ) (r : Row) → is_due now r ≡ due now r.expiration
unfolding is_due
is_due-eq now r = refl

earliest_after :
    (now : ℕ) (rows : List Row)
    → (earliest (delete_where (is_due now) rows) ≡ none)
      ⊎ ((t : ℕ) × (earliest (delete_where (is_due now) rows) ≡ some t) × (now < t))
unfolding earliest delete_where
earliest_after now [] = inl refl
earliest_after now (r ∷ rs) = elim (Bool-cases (is_due now r)) [
  | inl late ↦ rw late (earliest_after now rs)
  | inr early ↦
      rw (early, earliest)
        (earlier_after now r.expiration _ (sym (is_due-eq now r) ∙ early) (earliest_after now rs))
]

abbrev pub NextAfter : ℕ → ℕ → Type 0
NextAfter now next = (next ≡ 0) ⊎ (now < next)

int_after :
    (now : ℕ) (o : Option ℕ)
    → (o ≡ none) ⊎ ((t : ℕ) × (o ≡ some t) × (now < t))
    → NextAfter now (column_as_int o)
int_after now o (inl e) = inl (rw e refl)
int_after now o (inr (t, e, low)) = inr (rw e low)

keys-eq :
    (callback : Bool) (now : ℕ) (k : KeyStore)
    → called_back callback now k ≡ (if callback then due_keys now k.stored.rows else [])
keys-eq true now k = refl
keys-eq false now k = refl

-- In a transaction, and where the table has the column of expiration times, `expireRecords` returns, with
-- a callback or without. It deletes just the records whose time is not after the given one, and returns
-- their number; a callback gets all their keys. After that, `nextExpiration` is later than the given
-- time, or 0.
pub next_expiration-expire_records :
    (now : ℕ) (callback : Bool) (k : KeyStore)
    → k.in_transaction ≡ true
    → k.stored.has_column ≡ true
    → (l : KeyStore) × (next : ℕ)
      × (expire_records now callback k
        ≡ ok (
          if callback then due_keys now k.stored.rows else [],
          count_where (is_due now) k.stored.rows,
          l,
        ))
      × (l.stored.rows ≡ delete_where (is_due now) k.stored.rows)
      × (next_expiration l ≡ ok next)
      × NextAfter now next
unfolding expire_records with_column next_expiration
next_expiration-expire_records now callback k inside column =
    let l : KeyStore = expired now (notice k) in
    let next : ℕ = column_as_int (earliest l.stored.rows) in
    let keys : List Slice = called_back callback now k in
    let deleted =
      delete_unless_none-eq callback keys now (notice k) inside (called_back-keys callback now k) in
    (
      l,
      next,
      if_true (has_expiration? k) _ _ (known k column)
      ∙ ap (λ r. r >>= λ (n, k₁). ok (keys, n, k₁))
          (if_true k.stored.has_column _ _ column ∙ deleted)
      ∙ ap (λ ks. ok (ks, count_where (is_due now) k.stored.rows, l)) (keys-eq callback now k),
      refl,
      if_true (has_expiration? l) _ _ (known l column) ∙ if_true l.stored.has_column _ _ column,
      int_after now (earliest l.stored.rows) (earliest_after now k.stored.rows),
    )
