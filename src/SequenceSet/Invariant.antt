-- ===== src/SequenceSet/Invariant.antt =====
-- The members stay in ascending order below the maximum, and the calls are those of a set.
use cbl.Prelude.{
  ℕ, ◌≤◌, ◌<◌, ◌≡◌, refl, max, true, false, ◌||◌, ◌&&◌, not, List, [], ◌∷◌, arith, ◌==◌, has, All,
}
use cbl.SequenceSet.{
  SequenceSet, empty_set, clear, insert, erase, add, remove, set, seen, Call, clears, adds, removes,
  sees, assigns, step, run,
}

abbrev pub Above : ℕ → List ℕ → Type 0
Above n [] = Unit {0}
Above n (x ∷ xs) = (n < x) × Above x xs

abbrev pub Ascending : List ℕ → Type 0
Ascending [] = Unit {0}
Ascending (x ∷ xs) = Above x xs

pub record IsOrdered (s : SequenceSet) : Type 0 where
  pub ascending : Ascending s.sequences
  pub bounded : All (λ x. x ≤ s.max_seen) s.sequences

All-mono : (m n : ℕ) (xs : List ℕ) → m ≤ n → All (λ x. x ≤ m) xs → All (λ x. x ≤ n) xs
All-mono m n [] h a = tt
All-mono m n (x ∷ xs) h a = (omega arith, All-mono m n xs h a.1)

Above-mono : (m n : ℕ) (xs : List ℕ) → m ≤ n → Above n xs → Above m xs
Above-mono m n [] h a = tt
Above-mono m n (x ∷ xs) h a = (omega arith, a.1)

not_has-Above : (n x : ℕ) (xs : List ℕ) → x ≤ n → Above n xs → has x xs ≡ false
not_has-Above n x [] h a = refl
not_has-Above n x (y ∷ ys) h a = ground (arith, not_has-Above y x ys)

insert-Above : (n x : ℕ) (xs : List ℕ) → n < x → Above n xs → Above n (insert x xs)
unfolding insert
insert-Above n x [] h a = (h, tt)
insert-Above n x (y ∷ ys) h a = ground (arith, insert-Above y x ys)

insert-Ascending : (x : ℕ) (xs : List ℕ) → Ascending xs → Ascending (insert x xs)
unfolding insert
insert-Ascending x [] a = tt
insert-Ascending x (y ∷ ys) a = ground (arith, insert-Above y x ys)

erase-Above : (n x : ℕ) (xs : List ℕ) → Above n xs → Above n (erase x xs)
unfolding erase
erase-Above n x [] a = tt
erase-Above n x (y ∷ ys) a = ground (arith, erase-Above y x ys, Above-mono n y ys)

erase-Ascending : (x : ℕ) (xs : List ℕ) → Ascending xs → Ascending (erase x xs)
unfolding erase
erase-Ascending x [] a = tt
erase-Ascending x (y ∷ []) a = ground arith
erase-Ascending x (y ∷ z ∷ zs) a = ground (arith, erase-Above y x (z ∷ zs))

insert-bounded :
    (m x : ℕ) (xs : List ℕ) → x ≤ m → All (λ y. y ≤ m) xs → All (λ y. y ≤ m) (insert x xs)
unfolding insert
insert-bounded m x [] h a = (h, tt)
insert-bounded m x (y ∷ ys) h a = ground (arith, insert-bounded m x ys)

erase-bounded : (m x : ℕ) (xs : List ℕ) → All (λ y. y ≤ m) xs → All (λ y. y ≤ m) (erase x xs)
unfolding erase
erase-bounded m x [] a = tt
erase-bounded m x (y ∷ ys) a = ground (arith, erase-bounded m x ys)

pub has-insert : (x y : ℕ) (xs : List ℕ) → has y (insert x xs) ≡ ((y == x) || has y xs)
unfolding insert
has-insert x y [] = refl
has-insert x y (z ∷ zs) = ground (arith, has-insert x y zs)

pub has-erase :
    (x y : ℕ) (xs : List ℕ) → Ascending xs → has y (erase x xs) ≡ (not (y == x) && has y xs)
unfolding erase
has-erase x y [] a = ground arith
has-erase x y (z ∷ []) a = ground arith
has-erase x y (z ∷ w ∷ zs) a =
    ground
      (arith, has-erase x y (w ∷ zs) a.1, not_has-Above z x (w ∷ zs), not_has-Above z y (w ∷ zs))

add-IsOrdered : (x : ℕ) (s : SequenceSet) → IsOrdered s → IsOrdered (add x s)
unfolding add
add-IsOrdered x s v = record {
  ascending = insert-Ascending x s.sequences v.ascending;
  bounded =
      insert-bounded (max s.max_seen x) x s.sequences (omega arith)
        (All-mono s.max_seen (max s.max_seen x) s.sequences (omega arith) v.bounded);
}

remove-IsOrdered : (x : ℕ) (s : SequenceSet) → IsOrdered s → IsOrdered (remove x s)
unfolding remove
remove-IsOrdered x s v = record {
  ascending = erase-Ascending x s.sequences v.ascending;
  bounded = erase-bounded s.max_seen x s.sequences v.bounded;
}

pub step-IsOrdered : (s : SequenceSet) (c : Call) → IsOrdered s → IsOrdered (step s c)
unfolding step clear seen set
step-IsOrdered s (clears m) v = record { ascending = tt; bounded = tt }
step-IsOrdered s (adds x) v = add-IsOrdered x s v
step-IsOrdered s (removes x) v = remove-IsOrdered x s v
step-IsOrdered s (sees x) v = record {
  ascending = v.ascending;
  bounded = All-mono s.max_seen (max s.max_seen x) s.sequences (omega arith) v.bounded;
}
step-IsOrdered s (assigns x true) v = add-IsOrdered x s v
step-IsOrdered s (assigns x false) v = remove-IsOrdered x s v

pub run-IsOrdered : (s : SequenceSet) (cs : List Call) → IsOrdered s → IsOrdered (run s cs)
unfolding run
run-IsOrdered s [] v = v
run-IsOrdered s (c ∷ cs) v = run-IsOrdered (step s c) cs (step-IsOrdered s c v)

pub empty_set-IsOrdered : IsOrdered empty_set
unfolding empty_set
empty_set-IsOrdered = record { ascending = tt; bounded = tt }
