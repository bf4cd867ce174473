-- ===== src/RevTree/Children.antt =====
-- `has_child`, the test behind the leaf flag.
use cbl.Prelude.{
  ℕ, ◌≡◌, ◌≢◌, refl, inl, inr, true, false, ◌||◌, Option, none, some, List, [], ◌∷◌, ◌++◌, arith,
  has, ◌==◌, ==_iff, Bool-cases,
}
use cbl.RevTree.{Rev, points_to, has_child}

pub points_to_iff : (a : ℕ) (p : Option ℕ) → points_to a p ≡ true → p ≡ some a
points_to_iff a none e = cc
points_to_iff a (some p) e = ground arith

pub points_to_self : (a : ℕ) → points_to a (some a) ≡ true
points_to_self a = ground arith

pub has_child-cong :
    (h g : ℕ → Rev) (a : ℕ) (xs : List ℕ)
    → ((b : ℕ) → has b xs ≡ true → (h b).parent ≡ (g b).parent)
    → has_child h a xs ≡ has_child g a xs
unfolding has_child
has_child-cong h g a [] e = refl
has_child-cong h g a (x ∷ xs) e =
    rw (e x (ground arith), has_child-cong h g a xs (λ b m. e b (ground arith)))

pub has_child-append :
    (h : ℕ → Rev) (a : ℕ) (xs ys : List ℕ)
    → has_child h a (xs ++ ys) ≡ (has_child h a xs || has_child h a ys)
unfolding has_child
has_child-append h a [] ys = refl
has_child-append h a (x ∷ xs) ys = ground (arith, has_child-append h a xs ys)

-- A revision that no member of the list has for its parent.
pub childless :
    (h : ℕ → Rev) (a : ℕ) (xs : List ℕ)
    → ((b : ℕ) → has b xs ≡ true → (h b).parent ≢ some a)
    → has_child h a xs ≡ false
unfolding has_child
childless h a [] n = refl
childless h a (x ∷ xs) n = elim (Bool-cases (points_to a (h x).parent)) [
  | inl e ↦ absurd (n x (ground arith) (points_to_iff a _ e))
  | inr e ↦ rw (e, childless h a xs (λ b m. n b (ground arith)))
]

pub has_child_of :
    (h : ℕ → Rev) (a b : ℕ) (xs : List ℕ)
    → has b xs ≡ true
    → (h b).parent ≡ some a
    → has_child h a xs ≡ true
unfolding has_child
has_child_of h a b [] m e = cc
has_child_of h a b (x ∷ xs) m e = elim (Bool-cases (b == x)) [
  | inl hit ↦ rw (← (==_iff b x).0 hit, e) (ground arith)
  | inr other ↦ ground (arith, has_child_of h a b xs)
]

pub child_of :
    (h : ℕ → Rev) (a : ℕ) (xs : List ℕ)
    → has_child h a xs ≡ true
    → (b : ℕ) × (has b xs ≡ true) × ((h b).parent ≡ some a)
unfolding has_child
child_of h a [] e = cc
child_of h a (x ∷ xs) e = elim (Bool-cases (points_to a (h x).parent)) [
  | inl here ↦ (x, ground arith, points_to_iff a _ here)
  | inr there ↦ let (b, m, p) = child_of h a xs (ground arith) in (b, ground arith, p)
]
