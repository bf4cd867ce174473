-- ===== src/KeyStore/Expiration.antt =====
-- SQLiteKeyStore.cc, expiration: the column `expiration`, its values, and `expireRecords`.
use cbl.Prelude.{
  ℕ, Bool, true, false, ◌||◌, Option, none, some, List, [], ◌∷◌, Slice, Result, ok, throws, ◌>>=◌,
  assertion_failed, sqlite_error, ltb, leb, ◌==◌, if◌then◌else◌,
}
use cbl.KeyStore.{
  Row, KeyStore, key_is, select, count_where, update_where, delete_where, column_as_int, with_rows,
}

-- `hasExpiration` keeps what it found in the schema.
unfoldable pub has_expiration? : KeyStore → Bool
has_expiration? k = k.has_expiration || k.stored.has_column

abbrev pub notice : KeyStore → KeyStore
notice k = record k { has_expiration = has_expiration? k }

unfoldable pub add_expiration : KeyStore → KeyStore
unfolding has_expiration?
add_expiration k =
    if has_expiration? k
    then notice k
    else record k { has_expiration = true; stored = record (k.stored) { has_column = true } }

-- A statement that names the column is an error in a table without it.
unfoldable pub with_column {ℓ} : {A : Type ℓ} → KeyStore → Result A → Result A
with_column k rest = if k.stored.has_column then rest else throws sqlite_error

-- The time that is bound: NULL for never.
unfoldable pub bound_time : ℕ → Option ℕ
bound_time t = if t == 0 then none else some t

-- `setExpiration`; a negative time is not a number here.
unfoldable pub set_expiration : Slice → ℕ → KeyStore → Result (Bool × KeyStore)
unfolding add_expiration with_column update_where count_where key_is bound_time
set_expiration key time k =
    let k₁ = add_expiration k in
    let expiring : Row → Row = λ r. record r { expiration = bound_time time } in
    with_column k₁ (ok (
      ltb 0 (count_where (key_is key) k₁.stored.rows),
      with_rows (update_where (key_is key) expiring k₁.stored.rows) k₁,
    ))

abbrev pub time_of : Option Row → ℕ
time_of none = 0
time_of (some r) = column_as_int r.expiration

unfoldable pub get_expiration : Slice → KeyStore → Result ℕ
unfolding has_expiration? with_column select key_is
get_expiration key k =
    let found = with_column k (ok (time_of (select (key_is key) k.stored.rows))) in
    if has_expiration? k then found else ok 0

-- `min(expiration)` over the rows where it is not NULL.
abbrev pub earlier : Option ℕ → Option ℕ → Option ℕ
earlier none o = o
earlier (some a) none = some a
earlier (some a) (some b) = if leb a b then some a else some b

unfoldable pub earliest : List Row → Option ℕ
earliest [] = none
earliest (r ∷ rs) = earlier r.expiration (earliest rs)

unfoldable pub next_expiration : KeyStore → Result ℕ
unfolding has_expiration? with_column earliest
next_expiration k =
    let found = with_column k (ok (column_as_int (earliest k.stored.rows))) in
    if has_expiration? k then found else ok 0

abbrev pub due : ℕ → Option ℕ → Bool
due now none = false
due now (some t) = leb t now

unfoldable pub is_due : ℕ → Row → Bool
is_due now r = due now r.expiration

unfoldable pub due_keys : ℕ → List Row → List Slice
unfolding is_due
due_keys now [] = []
due_keys now (r ∷ rs) = let rest = due_keys now rs in if is_due now r then r.key ∷ rest else rest

-- `expireRecords` at a given time: the keys that the callback gets, if there is one, and the count.
-- Where the callback got none, nothing is deleted.
unfoldable pub delete_due : ℕ → KeyStore → Result (ℕ × KeyStore)
unfolding count_where delete_where is_due
delete_due now k =
    let done : ℕ × KeyStore =
      (
        count_where (is_due now) k.stored.rows,
        with_rows (delete_where (is_due now) k.stored.rows) k,
      ) in
    if k.in_transaction then ok done else throws assertion_failed

abbrev pub called_back : Bool → ℕ → KeyStore → List Slice
called_back false now k = []
called_back true now k = due_keys now k.stored.rows

abbrev pub delete_unless_none :
    Bool → List Slice → ℕ → KeyStore → Result (ℕ × KeyStore)
delete_unless_none true [] now k = ok (0, k)
delete_unless_none true (_ ∷ _) now k = delete_due now k
delete_unless_none false keys now k = delete_due now k

unfoldable pub expire_records : ℕ → Bool → KeyStore → Result (List Slice × ℕ × KeyStore)
unfolding has_expiration? with_column due_keys delete_due
expire_records now callback k =
    let keys = called_back callback now k in
    let expired : Result (List Slice × ℕ × KeyStore) = (do
      (n, k₁) ← with_column k (delete_unless_none callback keys now (notice k))
      ok (keys, n, k₁)) in
    if has_expiration? k then expired else ok ([], 0, k)
