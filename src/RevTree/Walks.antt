-- ===== src/RevTree/Walks.antt =====
-- The loops up the tree end: fuel above the generation where they start is enough.
use cbl.Prelude.{
  ℕ, zero, suc, ◌<◌, ◌≡◌, refl, sym, ◌∙◌, Bool, true, false, not, ◌&&◌, Option, none, some, List,
  [], ◌∷◌, arith, has, Bool-cases, inl, inr, ok, if_total,
}
use cbl.Fleece.{Fleece}
use cbl.RevTree.{Rev, RevTree, modify, set_keep, set_conflict}
use cbl.RevTree.Insert.{clear_keep, keep_body}
use cbl.RevTree.Order.{mark_branch, first_conflict, check_for_resolved_conflict, same}
use cbl.RevTree.WellFormed.{gen_of, IsTree}

-- The parents from here on end within so many steps.
abbrev pub Ends : ℕ → (ℕ → Rev) → Option ℕ → Type 0
Ends fuel h none = Unit {0}
Ends zero h (some a) = ⊥
Ends (suc fuel) h (some a) = Ends fuel h (h a).parent

-- A walk from a member of a tree, over a heap with the same parents.
pub IsTree-Ends :
    (F : Fleece) (t : RevTree) (h : ℕ → Rev) (fuel : ℕ) (p : Option ℕ)
    → IsTree F t
    → ((b : ℕ) → has b t.revs ≡ true → (h b).parent ≡ (t.heap b).parent)
    → ((q : ℕ) → p ≡ some q → (has q t.revs ≡ true) × (gen_of F (t.heap q).rev_id < fuel))
    → Ends fuel h p
IsTree-Ends F t h zero none v same below = tt
IsTree-Ends F t h zero (some a) v same below = absurd (omega (arith, (below a refl).1))
IsTree-Ends F t h (suc fuel) none v same below = tt
IsTree-Ends F t h (suc fuel) (some a) v same below =
    let (m, low) = below a refl in
    IsTree-Ends F t h fuel (h a).parent v same
      λ q e. let (n, lower) = v.parents a q m (sym (same a m) ∙ e) in (n, omega arith)

pub Ends-cong :
    (fuel : ℕ) (h g : ℕ → Rev) (p : Option ℕ)
    → ((b : ℕ) → (h b).parent ≡ (g b).parent)
    → Ends fuel h p
    → Ends fuel g p
Ends-cong zero h g none same e = tt
Ends-cong zero h g (some a) same e = elim e [ ]
Ends-cong (suc fuel) h g none same e = tt
Ends-cong (suc fuel) h g (some a) same e = rw (← same a) (Ends-cong fuel h g (h a).parent same e)

modify-parent :
    (t : RevTree) (a : ℕ) (f : Rev → Rev)
    → (f (t.heap a)).parent ≡ (t.heap a).parent
    → (b : ℕ) → (t.heap b).parent ≡ ((modify a f t).heap b).parent
unfolding modify
modify-parent t a f e b = ground arith

pub clear_keep_total :
    (fuel : ℕ) (c : Bool) (p : Option ℕ) (t : RevTree)
    → Ends fuel t.heap p
    → (u : RevTree) × (clear_keep fuel c p t ≡ ok u)
unfolding clear_keep
clear_keep_total zero c none t e = (t, refl)
clear_keep_total zero c (some a) t e = elim e [ ]
clear_keep_total (suc fuel) c none t e = (t, refl)
clear_keep_total (suc fuel) c (some a) t e = elim (Bool-cases (c && not (t.heap a).is_conflict)) [
  | inl stop ↦ (t, rw stop)
  | inr go ↦
      let t₁ : RevTree = modify a (set_keep false) t in
      rw go (
        clear_keep_total fuel c (t.heap a).parent t₁
          (Ends-cong fuel t.heap t₁.heap _ (modify-parent t a (set_keep false) refl) e))
]

pub keep_body_total :
    (fuel a : ℕ) (t : RevTree)
    → Ends fuel t.heap (t.heap a).parent
    → (u : RevTree) × (keep_body fuel a t ≡ ok u)
unfolding keep_body
keep_body_total fuel a t e =
    let t₁ : RevTree = modify a (set_keep true) t in
    let same = modify-parent t a (set_keep true) refl in
    let (u, kept) =
      clear_keep_total fuel (t₁.heap a).is_conflict (t₁.heap a).parent t₁
        (rw (← same a) (Ends-cong fuel t.heap t₁.heap _ same e)) in
    (record u { changed = true }, rw kept refl)

pub mark_branch_total :
    (fuel : ℕ) (c : Bool) (p : Option ℕ) (t : RevTree)
    → Ends fuel t.heap p
    → (u : RevTree) × (mark_branch fuel c p t ≡ ok u)
unfolding mark_branch
mark_branch_total zero c none t e = (t, refl)
mark_branch_total zero c (some a) t e = elim e [ ]
mark_branch_total (suc fuel) c none t e = (t, refl)
mark_branch_total (suc fuel) c (some a) t e = elim (Bool-cases (same (t.heap a).is_conflict c)) [
  | inl stop ↦ (t, rw stop)
  | inr go ↦
      let t₁ : RevTree = modify a (set_conflict c) t in
      rw go (
        mark_branch_total fuel c (t.heap a).parent (record t₁ { changed = true })
          (Ends-cong fuel t.heap t₁.heap _ (modify-parent t a (set_conflict c) refl) e))
]

-- Fuel above every generation of the tree.
abbrev pub Enough : Fleece → ℕ → RevTree → Type 0
Enough F fuel t = (a : ℕ) → has a t.revs ≡ true → gen_of F (t.heap a).rev_id < fuel

pub member-Ends :
    (F : Fleece) (fuel : ℕ) (t : RevTree) (a : ℕ)
    → IsTree F t
    → Enough F fuel t
    → has a t.revs ≡ true
    → Ends fuel t.heap (some a)
member-Ends F fuel t a v enough m =
    IsTree-Ends F t t.heap fuel (some a) v (λ b _. refl)
      λ q e. let same : a ≡ q = cc in rw (← same) (m, enough a m)

first_conflict_total :
    (F : Fleece) (fuel : ℕ) (xs : List ℕ) (t : RevTree)
    → ((a : ℕ) → has a xs ≡ true → Ends fuel t.heap (some a))
    → (u : RevTree) × (first_conflict xs fuel t ≡ ok u)
unfolding first_conflict
first_conflict_total F fuel [] t e = (t, refl)
first_conflict_total F fuel (a ∷ xs) t e = elim (Bool-cases (t.heap a).is_conflict) [
  | inl marked ↦ rw marked (mark_branch_total fuel false (some a) t (e a (ground arith)))
  | inr plain ↦ (t, rw plain)
]

pub check_for_resolved_conflict_total :
    (F : Fleece) (fuel : ℕ) (t : RevTree)
    → IsTree F t
    → Enough F fuel t
    → (u : RevTree) × (check_for_resolved_conflict fuel t ≡ ok u)
unfolding check_for_resolved_conflict
check_for_resolved_conflict_total F fuel t v enough =
    if_total t.sorted (first_conflict t.revs fuel t) (ok t)
      (first_conflict_total F fuel t.revs t (λ a m. member-Ends F fuel t a v enough m)) (t, refl)
