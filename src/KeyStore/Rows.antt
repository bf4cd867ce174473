-- ===== src/KeyStore/Rows.antt =====
-- The rows under a key: what the statements of SQLiteKeyStore.cc do to them.
pub mod Sequences
use cbl.Prelude.{
  ℕ, suc, ◌+◌, ◌<◌, ◌≤◌, ◌≡◌, refl, sym, ap, ◌∙◌, inl, inr, Bool, true, false, ◌&&◌, Option, none, some,
  List, [], ◌∷◌, Slice, slice_eq, slice_eq_iff, slice_eq_refl, arith, All, Bool-cases, ==_iff, ◌==◌,
  if◌then◌else◌, some_injective, subst,
}
use cbl.KeyStore.{
  Row, column_is, key_is, key_and_sequence, select, count_where, update_where, delete_where,
}

pub column_is-eq : (o : Option ℕ) (n : ℕ) → column_is o n ≡ true → some n ≡ o
column_is-eq none n e = cc
column_is-eq (some m) n e = ap some (sym ((==_iff m n).0 e))

-- No key stands in two rows.
abbrev pub OtherKeys : Slice → List Row → Type 0
OtherKeys key = All (λ r. key_is key r ≡ false)

abbrev pub UniqueKeys : List Row → Type 0
UniqueKeys [] = Unit
UniqueKeys (r ∷ rs) = OtherKeys r.key rs × UniqueKeys rs

abbrev pub lookup : Slice → List Row → Option Row
lookup key = select (key_is key)

pub key_is-sym : (a b : Row) → key_is a.key b ≡ key_is b.key a
unfolding key_is
key_is-sym a b = elim (Bool-cases (slice_eq b.key a.key)) [
  | inl e ↦ e ∙ sym (rw ((slice_eq_iff b.key a.key).0 e) (slice_eq_refl a.key))
  | inr e ↦ elim (Bool-cases (slice_eq a.key b.key)) [
    | inl d ↦ cc (slice_eq_refl a.key, (slice_eq_iff a.key b.key).0 d, d, e)
    | inr d ↦ e ∙ sym d
  ]
]

pub key_is-both : (key : Slice) (a b : Row) → key_is key a ≡ true → key_is key b ≡ key_is a.key b
unfolding key_is
key_is-both key a b e = rw ((slice_eq_iff a.key key).0 e) refl

-- Keys of rows, as a test by another key.
pub same-key : (key : Slice) (a b : Row) → a.key ≡ b.key → key_is key a ≡ key_is key b
unfolding key_is
same-key key a b e = rw e refl

pub OtherKeys-lookup : (key : Slice) (rows : List Row) → OtherKeys key rows → lookup key rows ≡ none
unfolding select
OtherKeys-lookup key [] h = refl
OtherKeys-lookup key (r ∷ rs) h = rw h.0 (OtherKeys-lookup key rs h.1)

pub lookup-OtherKeys : (key : Slice) (rows : List Row) → lookup key rows ≡ none → OtherKeys key rows
unfolding select
lookup-OtherKeys key [] h = tt
lookup-OtherKeys key (r ∷ rs) h = elim (Bool-cases (key_is key r)) [
  | inl e ↦ cc (rw e at h)
  | inr e ↦ (e, lookup-OtherKeys key rs (rw e at h))
]

pub lookup-key : (key : Slice) (rows : List Row) (r : Row) → lookup key rows ≡ some r → key_is key r ≡ true
unfolding select
lookup-key key [] r h = cc
lookup-key key (x ∷ rs) r h = elim (Bool-cases (key_is key x)) [
  | inl e ↦ cc (rw e at h, e)
  | inr e ↦ lookup-key key rs r (rw e at h)
]

pub OtherKeys-count :
    (key : Slice) (rows : List Row) → OtherKeys key rows → count_where (key_is key) rows ≡ 0
unfolding count_where
OtherKeys-count key [] h = refl
OtherKeys-count key (r ∷ rs) h = rw h.0 (omega (arith, OtherKeys-count key rs h.1))

pub lookup-count :
    (key : Slice) (rows : List Row) (r : Row)
    → lookup key rows ≡ some r
    → 0 < count_where (key_is key) rows
unfolding select count_where
lookup-count key [] r h = cc
lookup-count key (x ∷ rs) r h = elim (Bool-cases (key_is key x)) [
  | inl e ↦ rw e (omega arith)
  | inr e ↦ rw e (omega (arith, lookup-count key rs r (rw e at h)))
]

pub OtherKeys-delete :
    (key : Slice) (test : Row → Bool) (rows : List Row)
    → OtherKeys key rows
    → OtherKeys key (delete_where test rows)
unfolding delete_where
OtherKeys-delete key test [] h = tt
OtherKeys-delete key test (r ∷ rs) h = elim (Bool-cases (test r)) [
  | inl e ↦ rw e (OtherKeys-delete key test rs h.1)
  | inr e ↦ rw e (h.0, OtherKeys-delete key test rs h.1)
]

pub deleted-OtherKeys : (key : Slice) (rows : List Row) → OtherKeys key (delete_where (key_is key) rows)
unfolding delete_where
deleted-OtherKeys key [] = tt
deleted-OtherKeys key (r ∷ rs) = elim (Bool-cases (key_is key r)) [
  | inl e ↦ rw e (deleted-OtherKeys key rs)
  | inr e ↦ rw e (e, deleted-OtherKeys key rs)
]

pub UniqueKeys-delete :
    (test : Row → Bool) (rows : List Row) → UniqueKeys rows → UniqueKeys (delete_where test rows)
unfolding delete_where
UniqueKeys-delete test [] u = tt
UniqueKeys-delete test (r ∷ rs) u = elim (Bool-cases (test r)) [
  | inl e ↦ rw e (UniqueKeys-delete test rs u.1)
  | inr e ↦ rw e (OtherKeys-delete r.key test rs u.0, UniqueKeys-delete test rs u.1)
]

-- What is deleted under one key leaves the other keys.
pub lookup-delete_other :
    (key : Slice) (test : Row → Bool) (rows : List Row)
    → ((r : Row) → key_is key r ≡ true → test r ≡ false)
    → lookup key (delete_where test rows) ≡ lookup key rows
unfolding select delete_where
lookup-delete_other key test [] apart = refl
lookup-delete_other key test (r ∷ rs) apart = elim (Bool-cases (key_is key r)) [
  | inl e ↦ rw (apart r e, select, e) refl
  | inr e ↦ elim (Bool-cases (test r)) [
    | inl d ↦ rw (d, e) (lookup-delete_other key test rs apart)
    | inr d ↦ rw (d, select, e) (lookup-delete_other key test rs apart)
  ]
]

-- An update that keeps the keys.
module _ (test : Row → Bool) (f : Row → Row) where
  pub OtherKeys-update :
      (key : Slice) (rows : List Row)
      → ((r : Row) → test r ≡ true → (f r).key ≡ r.key)
      → OtherKeys key rows
      → OtherKeys key (update_where test f rows)
  unfolding update_where
  OtherKeys-update key [] keeps h = tt
  OtherKeys-update key (r ∷ rs) keeps h = elim (Bool-cases (test r)) [
    | inl e ↦
        rw e
          (same-key key (f r) r (keeps r e) ∙ h.0, OtherKeys-update key rs keeps h.1)
    | inr e ↦ rw e (h.0, OtherKeys-update key rs keeps h.1)
  ]

  pub UniqueKeys-update :
      (rows : List Row)
      → ((r : Row) → test r ≡ true → (f r).key ≡ r.key)
      → UniqueKeys rows
      → UniqueKeys (update_where test f rows)
  unfolding update_where
  UniqueKeys-update [] keeps u = tt
  UniqueKeys-update (r ∷ rs) keeps u = elim (Bool-cases (test r)) [
    | inl e ↦
        rw (e, keeps r e) (OtherKeys-update r.key rs keeps u.0, UniqueKeys-update rs keeps u.1)
    | inr e ↦ rw e (OtherKeys-update r.key rs keeps u.0, UniqueKeys-update rs keeps u.1)
  ]

  pub lookup-update :
      (key : Slice) (rows : List Row) (found : Option Row)
      → ((r : Row) → test r ≡ true → (f r).key ≡ r.key)
      → lookup key rows ≡ found
      → lookup key (update_where test f rows)
        ≡ elim found [ none ↦ none | some r ↦ some (if test r then f r else r) ]
  unfolding update_where select
  lookup-update key [] found keeps e = rw (← e) refl
  lookup-update key (r ∷ rs) found keeps e = elim (Bool-cases (key_is key r)) [
    | inl hit ↦
        let here : some r ≡ found = rw hit at e in
        let kept : key_is key (if test r then f r else r) ≡ true =
          elim (Bool-cases (test r)) [
            | inl d ↦ rw d (same-key key (f r) r (keeps r d) ∙ hit)
            | inr d ↦ rw d hit
          ] in
        rw (← here, select, kept) refl
    | inr miss ↦
        let kept : key_is key (if test r then f r else r) ≡ false =
          elim (Bool-cases (test r)) [
            | inl d ↦ rw d (same-key key (f r) r (keeps r d) ∙ miss)
            | inr d ↦ rw d miss
          ] in
        rw (select, kept) (lookup-update key rs found keeps (rw miss at e))
  ]

-- The test of a key and a sequence.
pub matches-count :
    (key : Slice) (n : ℕ) (rows : List Row) (r : Row)
    → lookup key rows ≡ some r
    → column_is r.sequence n ≡ true
    → 0 < count_where (key_and_sequence key n) rows
unfolding select count_where key_and_sequence
matches-count key n [] r h m = cc
matches-count key n (x ∷ rs) r h m = elim (Bool-cases (key_is key x)) [
  | inl e ↦
      let here : some x ≡ some r = rw e at h in
      let same : column_is x.sequence n ≡ true = rw (some_injective here) m in
      rw (e, same) (omega arith)
  | inr e ↦ rw e (omega (arith, matches-count key n rs r (rw e at h) m))
]

OtherKeys-count_both :
    (key : Slice) (n : ℕ) (rows : List Row)
    → OtherKeys key rows
    → count_where (key_and_sequence key n) rows ≡ 0
unfolding count_where key_and_sequence
OtherKeys-count_both key n [] h = refl
OtherKeys-count_both key n (r ∷ rs) h = rw h.0 (omega (arith, OtherKeys-count_both key n rs h.1))

pub OtherKeys-same : (a : Row) (key : Slice) (rows : List Row) → key_is key a ≡ true → OtherKeys a.key rows → OtherKeys key rows
OtherKeys-same a key [] e h = tt
OtherKeys-same a key (r ∷ rs) e h = (key_is-both key a r e ∙ h.0, OtherKeys-same a key rs e h.1)

pub unmatched-count :
    (key : Slice) (n : ℕ) (rows : List Row) (found : Option Row)
    → UniqueKeys rows
    → lookup key rows ≡ found
    → ((r : Row) → found ≡ some r → column_is r.sequence n ≡ false)
    → count_where (key_and_sequence key n) rows ≡ 0
unfolding select count_where key_and_sequence
unmatched-count key n [] found u h m = refl
unmatched-count key n (x ∷ rs) found u h m = elim (Bool-cases (key_is key x)) [
  | inl e ↦
      let here : some x ≡ found = rw e at h in
      let other : column_is x.sequence n ≡ false = m x (sym here) in
      rw (e, other)
        (omega (arith, OtherKeys-count_both key n rs (OtherKeys-same x key rs e u.0)))
  | inr e ↦ rw e (omega (arith, unmatched-count key n rs found u.1 (rw e at h) m))
]

pub delete_none :
    (test : Row → Bool) (rows : List Row)
    → count_where test rows ≡ 0
    → delete_where test rows ≡ rows
unfolding count_where delete_where
delete_none test [] e = refl
delete_none test (r ∷ rs) e = elim (Bool-cases (test r)) [
  | inl hit ↦ absurd (omega (arith, subst (λ b. (if b then 1 else 0) + count_where test rs ≡ 0) hit e))
  | inr miss ↦
      rw miss (ap (λ l. r ∷ l)
        (delete_none test rs
          (omega (arith, subst (λ b. (if b then 1 else 0) + count_where test rs ≡ 0) miss e))))
]

-- The row under a key is gone once it was deleted with its sequence.
pub lookup-delete_own :
    (key : Slice) (n : ℕ) (rows : List Row) (r : Row)
    → UniqueKeys rows
    → lookup key rows ≡ some r
    → column_is r.sequence n ≡ true
    → lookup key (delete_where (key_and_sequence key n) rows) ≡ none
unfolding select delete_where key_and_sequence
lookup-delete_own key n [] r u h m = cc
lookup-delete_own key n (x ∷ rs) r u h m = elim (Bool-cases (key_is key x)) [
  | inl e ↦
      let here : some x ≡ some r = rw e at h in
      let same : column_is x.sequence n ≡ true = rw (some_injective here) m in
      let others = OtherKeys-same x key rs e u.0 in
      rw (e, same)
        (OtherKeys-lookup key _ (OtherKeys-delete key (key_and_sequence key n) rs others))
  | inr e ↦ rw (e, select, e) (lookup-delete_own key n rs r u.1 (rw e at h) m)
]
