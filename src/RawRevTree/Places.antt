-- ===== src/RawRevTree/Places.antt =====
-- The places of revisions in the vector, which are stored for the pointers.
use cbl.Prelude.{
  ℕ, suc, ◌^◌, ◌<◌, ◌≤◌, ◌≡◌, refl, ap, true, false, Option, none, some, List, [], ◌∷◌, ok,
  ok-injective, arith, ◌==◌, ltb, length, has, Bool-cases, if-cases, inl, inr,
}
use cbl.RawRevTree.{parent_at, parent_index, index_of, index_in, or_assert, after_first, no_parent}

after_first-lt :
    (o : Option ℕ) (n i : ℕ) → ((j : ℕ) → o ≡ some j → j < n) → after_first o ≡ some i → i < suc n
after_first-lt none n i h e = cc
after_first-lt (some j) n i h e = ground (arith, h j refl)

pub index_in-lt : (xs : List ℕ) (a i : ℕ) → index_in xs a ≡ some i → i < length xs
unfolding index_in
index_in-lt [] a i e = cc
index_in-lt (x ∷ xs) a i e = elim (if-cases (x == a) _ _ e) [
  | inl (_, first) ↦ ground arith
  | inr (_, later) ↦ after_first-lt (index_in xs a) (length xs) i (index_in-lt xs a) later
]

index_in-has : (xs : List ℕ) (a : ℕ) → has a xs ≡ true → (i : ℕ) × (index_in xs a ≡ some i)
unfolding index_in
index_in-has [] a m = cc
index_in-has (x ∷ xs) a m = elim (Bool-cases (x == a)) [
  | inl here ↦ (0, rw here refl)
  | inr there ↦ let (i, e) = index_in-has xs a (ground arith) in (suc i, rw (there, e) refl)
]

-- The parent that is read back: the place of the parent in the vector.
abbrev pub parent_place : List ℕ → Option ℕ → Option ℕ
parent_place revs none = none
parent_place revs (some p) = index_in revs p

or_assert-ok : (o : Option ℕ) (i : ℕ) → or_assert o ≡ ok i → o ≡ some i
or_assert-ok none i e = cc
or_assert-ok (some j) i e = ap some (ok-injective e)

pub index_of-ok : (revs : List ℕ) (a i : ℕ) → index_of revs a ≡ ok i → index_in revs a ≡ some i
unfolding index_of
index_of-ok revs a i e = or_assert-ok (index_in revs a) i e

pub index_of_total :
    (revs : List ℕ) (a : ℕ) → has a revs ≡ true → (i : ℕ) × (index_of revs a ≡ ok i)
unfolding index_of
index_of_total revs a m = let (i, e) = index_in-has revs a m in (i, rw e refl)

-- The stored place of a parent, and what is made of it.
pub parent_index-at :
    (revs : List ℕ) (p : Option ℕ) (i : ℕ)
    → length revs ≤ 65535
    → parent_index revs p ≡ ok i
    → (i < 2 ^ 16) × (parent_at (length revs) i ≡ ok (parent_place revs p))
unfolding parent_index parent_at
parent_index-at revs none i small e =
    let is : no_parent ≡ i = ok-injective e in (omega arith, rw (← is) refl)
parent_index-at revs (some p) i small e =
    let at = index_of-ok revs p i e in
    let lt = index_in-lt revs p i at in
    let differs : (i == no_parent) ≡ false = ground arith in
    let within : ltb i (length revs) ≡ true = ground arith in
    (omega arith, rw (differs, within, at) refl)
