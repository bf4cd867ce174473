-- ===== src/RevTree/Shape.antt =====
-- The loops that only set flags: `keepBody` and `markBranchAsConflict` leave the shape of the tree.
use cbl.Prelude.{
  List, [], ◌∷◌, ℕ, zero, suc, ◌≡◌, refl, Bool, true, false, not, ◌&&◌, Option, none, some, ok,
  Bool-cases, inl, inr, ◌==◌, ==_iff, ok-injective, subst, if-cases, >>=-eq-ok,
}
use cbl.RevTree.{Rev, RevTree, update, modify, set_keep, set_conflict}
use cbl.RevTree.Insert.{clear_keep, keep_body}
use cbl.RevTree.Order.{mark_branch, check_for_resolved_conflict, first_conflict, same}
use cbl.RevTree.WellFormed.{SameShape, SameTree, SameTree-refl, SameTree-trans}

abbrev same_shape : (r : Rev) → SameShape r r
same_shape r = record { rev_id = refl; parent = refl; leaf = refl; purge = refl }

abbrev keep_shape : (b : Bool) (r : Rev) → SameShape r (set_keep b r)
keep_shape b r = record { rev_id = refl; parent = refl; leaf = refl; purge = refl }

abbrev conflict_shape : (b : Bool) (r : Rev) → SameShape r (set_conflict b r)
conflict_shape b r = record { rev_id = refl; parent = refl; leaf = refl; purge = refl }

pub modify-SameTree :
    (a : ℕ) (f : Rev → Rev) (t : RevTree)
    → SameShape (t.heap a) (f (t.heap a))
    → SameTree t (modify a f t)
unfolding modify
modify-SameTree a f t e = record {
  revs = refl;
  allocated = refl;
  remote_revs = refl;
  shapes = λ b. elim (Bool-cases (b == a)) [
    | inl hit ↦ rw (hit, update) (rw ((==_iff b a).0 hit) e)
    | inr other ↦ rw (other, update) (same_shape (t.heap b))
  ];
}

changed_SameTree : (t : RevTree) → SameTree t (record t { changed = true })
changed_SameTree t = record {
  revs = refl;
  allocated = refl;
  remote_revs = refl;
  shapes = λ a. same_shape (t.heap a);
}

pub eq-SameTree : (t u : RevTree) → ok t ≡ ok u → SameTree t u
eq-SameTree t u e = subst (SameTree t) (ok-injective e) (SameTree-refl t)

clear_keep-SameTree :
    (fuel : ℕ) (c : Bool) (p : Option ℕ) (t u : RevTree)
    → clear_keep fuel c p t ≡ ok u
    → SameTree t u
unfolding clear_keep
clear_keep-SameTree zero c none t u e = eq-SameTree t u e
clear_keep-SameTree zero c (some a) t u e = cc
clear_keep-SameTree (suc fuel) c none t u e = eq-SameTree t u e
clear_keep-SameTree (suc fuel) c (some a) t u e =
    elim (Bool-cases (c && not (t.heap a).is_conflict)) [
      | inl stop ↦ eq-SameTree t u (rw stop at e)
      | inr go ↦
          SameTree-trans t (modify a (set_keep false) t) u
            (modify-SameTree a (set_keep false) t (keep_shape false (t.heap a)))
            (clear_keep-SameTree fuel c (t.heap a).parent (modify a (set_keep false) t) u
              (rw go at e))
    ]

pub keep_body-SameTree : (fuel a : ℕ) (t u : RevTree) → keep_body fuel a t ≡ ok u → SameTree t u
unfolding keep_body
keep_body-SameTree fuel a t u e =
    let t₁ : RevTree = modify a (set_keep true) t in
    let (t₂, c, last) =
      >>=-eq-ok (clear_keep fuel (t₁.heap a).is_conflict (t₁.heap a).parent t₁) _ e in
    SameTree-trans t t₁ u (modify-SameTree a (set_keep true) t (keep_shape true (t.heap a))) (
      SameTree-trans t₁ t₂ u (clear_keep-SameTree fuel _ _ t₁ t₂ c)
        (SameTree-trans t₂ _ u (changed_SameTree t₂) (eq-SameTree _ u last)))

mark_branch-SameTree :
    (fuel : ℕ) (c : Bool) (p : Option ℕ) (t u : RevTree)
    → mark_branch fuel c p t ≡ ok u
    → SameTree t u
unfolding mark_branch
mark_branch-SameTree zero c none t u e = eq-SameTree t u e
mark_branch-SameTree zero c (some a) t u e = cc
mark_branch-SameTree (suc fuel) c none t u e = eq-SameTree t u e
mark_branch-SameTree (suc fuel) c (some a) t u e =
    let t₁ : RevTree = modify a (set_conflict c) t in
    elim (Bool-cases (same (t.heap a).is_conflict c)) [
      | inl stop ↦ eq-SameTree t u (rw stop at e)
      | inr go ↦
          SameTree-trans t t₁ u (modify-SameTree a (set_conflict c) t (conflict_shape c (t.heap a)))
            (SameTree-trans t₁ _ u (changed_SameTree t₁)
              (mark_branch-SameTree fuel c (t.heap a).parent _ u (rw go at e)))
    ]

first_conflict-SameTree :
    (xs : List ℕ) (fuel : ℕ) (t u : RevTree) → first_conflict xs fuel t ≡ ok u → SameTree t u
unfolding first_conflict
first_conflict-SameTree [] fuel t u e = eq-SameTree t u e
first_conflict-SameTree (a ∷ _) fuel t u e = elim (Bool-cases (t.heap a).is_conflict) [
  | inl marked ↦ mark_branch-SameTree fuel false (some a) t u (rw marked at e)
  | inr plain ↦ eq-SameTree t u (rw plain at e)
]

pub check_for_resolved_conflict-SameTree :
    (fuel : ℕ) (t u : RevTree) → check_for_resolved_conflict fuel t ≡ ok u → SameTree t u
unfolding check_for_resolved_conflict
check_for_resolved_conflict-SameTree fuel t u e = elim (if-cases t.sorted _ _ e) [
  | inl (_, now) ↦ first_conflict-SameTree t.revs fuel t u now
  | inr (_, later) ↦ eq-SameTree t u later
]
