-- ===== src/Prelude/Slices.antt =====
-- A `slice` of bytes, and the comparison that `==` on slices makes.
use Prim.Native.Nat.{ℕ}
use mathlib.Core.Path.{◌≡◌, refl}
use mathlib.Core.Logic.{◌↔◌}
use mathlib.Core.Bool.{Bool, true, false, ◌&&◌}
use mathlib.Core.List.{List, [], ◌∷◌}
use native.Mathlib.Omega.{arith}
use cbl.Prelude.Tests.{◌==◌}

abbrev pub Slice : Type 0
Slice = List ℕ

unfoldable pub slice_eq : Slice → Slice → Bool
slice_eq [] [] = true
slice_eq [] (b ∷ s) = false
slice_eq (a ∷ r) [] = false
slice_eq (a ∷ r) (b ∷ s) = a == b && slice_eq r s

pub slice_eq_iff : (a b : Slice) → (slice_eq a b ≡ true) ↔ (a ≡ b)
unfolding slice_eq
slice_eq_iff [] [] = (λ _. refl, λ _. refl)
slice_eq_iff [] (b ∷ s) = ground arith
slice_eq_iff (a ∷ r) [] = ground arith
slice_eq_iff (a ∷ r) (b ∷ s) = ground (arith, slice_eq_iff r s)

pub slice_eq_refl : (a : Slice) → slice_eq a a ≡ true
slice_eq_refl a = (slice_eq_iff a a).1 refl
