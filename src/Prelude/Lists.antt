-- ===== src/Prelude/Lists.antt =====
-- Lists measured and searched by native numbers, and a predicate of all members.
use Prim.Native.Nat.{ℕ, suc, ◌+◌}
use mathlib.Core.Path.{◌≡◌, refl, sym, subst}
use mathlib.Core.Logic.{inl, inr}
use mathlib.Core.Bool.{Bool, true, false, ◌||◌}
use mathlib.Core.List.{List, [], ◌∷◌, ◌++◌}
use native.Mathlib.Omega.{arith}
use cbl.Prelude.Tests.{◌==◌, ==_iff, Bool-cases}

module _ {ℓ} {A : Type ℓ} where
  abbrev pub length : List A → ℕ
  length [] = 0
  length (x ∷ xs) = suc (length xs)

  pub length-append : (xs ys : List A) → length (xs ++ ys) ≡ length xs + length ys
  length-append [] ys = omega arith
  length-append (x ∷ xs) ys = omega (arith, length-append xs ys)

module _ {ℓ κ} {A : Type ℓ} where
  abbrev pub All : (A → Type κ) → List A → Type κ
  All P [] = Unit
  All P (x ∷ xs) = P x × All P xs

-- Membership as a test, which the tactics compute.
abbrev pub has : ℕ → List ℕ → Bool
has key [] = false
has key (y ∷ rest) = (key == y) || has key rest

pub has-append :
    (key : ℕ) (front back : List ℕ) → has key (front ++ back) ≡ (has key front || has key back)
has-append key [] back = refl
has-append key (y ∷ rest) back = ground (arith, has-append key rest back)

-- No member stands twice.
abbrev pub Distinct : List ℕ → Type 0
Distinct [] = Unit
Distinct (x ∷ xs) = (has x xs ≡ false) × Distinct xs

pub All_has : (P : ℕ → Type 0) (a : ℕ) (xs : List ℕ) → All P xs → has a xs ≡ true → P a
All_has P a [] h m = cc
All_has P a (x ∷ xs) h m = elim (Bool-cases (a == x)) [
  | inl e ↦ subst P (sym ((==_iff a x).0 e)) h.0
  | inr e ↦ All_has P a xs h.1 (rw e at m)
]
