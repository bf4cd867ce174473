-- ===== src/SequenceSet/Contract.antt =====
-- What a client sees: a set given by its characteristic function, its least member and its bound.
use cbl.Prelude.{
  ℕ, ◌≤◌, ◌≡◌, refl, ◌∙◌, Bool, true, false, ◌||◌, ◌&&◌, not, List, [], ◌∷◌, arith, ◌==◌, has,
  All_has, if◌then◌else◌,
}
use cbl.SequenceSet.{
  SequenceSet, empty_set, clear, empty, first, max_ever, contains, add, remove, set, seen, Call,
  clears, adds, removes, sees, assigns, step, run,
}
use cbl.SequenceSet.Invariant.{
  Above, IsOrdered, has-insert, has-erase, step-IsOrdered, run-IsOrdered, empty_set-IsOrdered,
}

-- The set after a call, as a test of membership.
abbrev pub member_after : (ℕ → Bool) → Call → ℕ → Bool
member_after f (clears m) y = false
member_after f (adds x) y = (y == x) || f y
member_after f (removes x) y = not (y == x) && f y
member_after f (sees x) y = f y
member_after f (assigns x b) y = if y == x then b else f y

abbrev pub member_after_all : (ℕ → Bool) → List Call → ℕ → Bool
member_after_all f [] y = f y
member_after_all f (c ∷ cs) y = member_after_all (member_after f c) cs y

contains-step :
    (s : SequenceSet) (c : Call) (y : ℕ)
    → IsOrdered s
    → contains (step s c) y ≡ member_after (contains s) c y
unfolding contains step clear add remove set seen
contains-step s (clears m) y v = refl
contains-step s (adds x) y v = has-insert x y s.sequences
contains-step s (removes x) y v = has-erase x y s.sequences v.ascending
contains-step s (sees x) y v = refl
contains-step s (assigns x true) y v = has-insert x y s.sequences ∙ ground arith
contains-step s (assigns x false) y v = has-erase x y s.sequences v.ascending ∙ ground arith

member_after-cong :
    (f g : ℕ → Bool) (c : Call)
    → ((y : ℕ) → f y ≡ g y)
    → (y : ℕ) → member_after f c y ≡ member_after g c y
member_after-cong f g (clears m) h y = refl
member_after-cong f g (adds x) h y = rw (h y)
member_after-cong f g (removes x) h y = rw (h y)
member_after-cong f g (sees x) h y = h y
member_after-cong f g (assigns x b) h y = rw (h y)

member_after_all-cong :
    (f g : ℕ → Bool) (cs : List Call)
    → ((y : ℕ) → f y ≡ g y)
    → (y : ℕ) → member_after_all f cs y ≡ member_after_all g cs y
member_after_all-cong f g [] h y = h y
member_after_all-cong f g (c ∷ cs) h y =
    member_after_all-cong (member_after f c) (member_after g c) cs (member_after-cong f g c h) y

contains-run_from :
    (s : SequenceSet) (cs : List Call) (y : ℕ)
    → IsOrdered s
    → contains (run s cs) y ≡ member_after_all (contains s) cs y
unfolding run
contains-run_from s [] y v = refl
contains-run_from s (c ∷ cs) y v =
    contains-run_from (step s c) cs y (step-IsOrdered s c v)
    ∙ member_after_all-cong (contains (step s c)) (member_after (contains s) c) cs
        (λ z. contains-step s c z v) y

-- After any calls on an empty set, `contains` answers as the set of the calls does: a sequence is
-- in it exactly if it was added (or assigned true) and not removed, assigned false or cleared since.
pub contains-run :
    (cs : List Call) (y : ℕ) → contains (run empty_set cs) y ≡ member_after_all (λ _. false) cs y
unfolding empty_set contains
contains-run cs y = contains-run_from empty_set cs y empty_set-IsOrdered

first-le : (x : ℕ) (xs : List ℕ) (y : ℕ) → Above x xs → has y xs ≡ true → x ≤ y
first-le x [] y a m = cc
first-le x (z ∷ zs) y a m = ground (arith, first-le z zs y)

abbrev pub IsLeast : SequenceSet → Type 0
IsLeast s =
    (contains s (first s) ≡ true)
    × ((y : ℕ) → contains s y ≡ true → (first s ≤ y) × (y ≤ max_ever s))

abbrev of_members : ℕ → List ℕ → SequenceSet
of_members m xs = record { sequences = xs; max_seen = m }

first-IsLeast :
    (m : ℕ) (xs : List ℕ)
    → IsOrdered (of_members m xs)
    → empty (of_members m xs) ≡ false
    → IsLeast (of_members m xs)
unfolding first contains empty max_ever
first-IsLeast m [] v e = cc
first-IsLeast m (x ∷ xs) v e = (
  ground arith,
  λ y h. (ground (arith, first-le x xs y v.ascending), All_has (λ z. z ≤ m) y (x ∷ xs) v.bounded h),
)

-- After any calls on an empty set, unless it is empty again, `first` is its least member, and no
-- member is above `max_ever`.
pub first-run : (cs : List Call) → empty (run empty_set cs) ≡ false → IsLeast (run empty_set cs)
first-run cs e = first-IsLeast _ _ (run-IsOrdered empty_set cs empty_set-IsOrdered) e
