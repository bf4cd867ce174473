-- ===== src/RevTree/Inserted.antt =====
-- `_insert`, `insert` and `insertHistory` keep a tree well formed.
use cbl.Prelude.{
  ℕ, ◌<◌, ◌≡◌, ◌≢◌, refl, sym, ap, subst, inl, inr, Bool, true, false, not, ◌||◌, ◌&&◌, Option,
  none, some, [], ◌∷◌, ◌++◌, Slice, has, ok, >>=-eq-ok, ok-injective, if-cases,
}
use cbl.Fleece.{Fleece}
use cbl.RevTree.{Flags, Rev, RevTree}
use cbl.RevTree.Added.{added, added-IsTree}
use cbl.RevTree.Insert.{push_back, keep_new, insertable, makes_conflict, new_rev, insert_rev}
use cbl.RevTree.Shape.{keep_body-SameTree, eq-SameTree}
use cbl.RevTree.WellFormed.{
  gen_of, IsTree, SameTree, SameTree-IsTree, SameTree-refl, SameTree-trans,
}

push_back-SameTree :
    (a : ℕ) (t u : RevTree) → SameTree t u → SameTree (push_back a t) (push_back a u)
unfolding push_back
push_back-SameTree a t u e = record {
  revs = ap (λ xs. xs ++ a ∷ []) e.revs;
  allocated = e.allocated;
  remote_revs = e.remote_revs;
  shapes = e.shapes;
}

keep_new-SameTree :
    (fuel : ℕ) (b : Bool) (p : Option ℕ) (a : ℕ) (t u : RevTree)
    → keep_new fuel b p a t ≡ ok u
    → SameTree t u
unfolding keep_new
keep_new-SameTree fuel true (some _) a t u e = keep_body-SameTree fuel a t u e
keep_new-SameTree fuel true none a t u e = eq-SameTree t u e
keep_new-SameTree fuel false _ a t u e = eq-SameTree t u e

-- The revision that `_insert` makes.
abbrev pub made : Slice → Option Slice → Option ℕ → Flags → Bool → RevTree → Rev
made id body p flags mark t = new_rev id body p (insertable flags) (makes_conflict mark p t)

-- What `_insert` does, but for the flags that mark a kept body.
pub insert_rev-added :
    (fuel : ℕ) (id : Slice) (body : Option Slice) (p : Option ℕ) (flags : Flags) (mark : Bool)
    (t u : RevTree) (a : ℕ)
    → insert_rev fuel id body p flags mark t ≡ ok (a, u)
    → (a ≡ t.allocated) × SameTree (added p (made id body p flags mark t) t) u
unfolding insert_rev
insert_rev-added fuel id body p flags mark t u a e =
    elim (if-cases (((insertable flags).closed && not (insertable flags).deleted) || t.unknown) _ _
      e) [
        | inl (_, bad) ↦ cc
        | inr (_, rest) ↦
            let (t₁, kept, last) =
              >>=-eq-ok (keep_new fuel (insertable flags).keep_body p t.allocated _) _ rest in
            let parts = ok-injective last in
            (
              sym (ap (λ x. x.0) parts),
              SameTree-trans _ _ u
                  (push_back-SameTree t.allocated _ t₁
                    (keep_new-SameTree fuel _ p t.allocated _ t₁ kept))
                  (subst (SameTree _) (ap (λ x. x.1) parts) (SameTree-refl _)),
            )
      ]

-- Where a revision may hang: under a member of a lower generation, or nowhere.
abbrev pub Under : Fleece → Slice → Option ℕ → RevTree → Type 0
Under F id p t =
    (q : ℕ) → p ≡ some q → (has q t.revs ≡ true) × (gen_of F (t.heap q).rev_id < gen_of F id)

abbrev pub Fresh : Slice → RevTree → Type 0
Fresh id t = (b : ℕ) → has b t.revs ≡ true → (t.heap b).rev_id ≢ id

module _ (F : Fleece) where
  pub insert_rev-IsTree :
      (fuel : ℕ) (id : Slice) (body : Option Slice) (p : Option ℕ) (flags : Flags) (mark : Bool)
      (t u : RevTree) (a : ℕ)
      → IsTree F t
      → Under F id p t
      → Fresh id t
      → insert_rev fuel id body p flags mark t ≡ ok (a, u)
      → IsTree F u
  unfolding new_rev insertable
  insert_rev-IsTree fuel id body p flags mark t u a v under fresh e =
      SameTree-IsTree F _ u (insert_rev-added fuel id body p flags mark t u a e).1
        (added-IsTree F p (made id body p flags mark t) t v refl under fresh refl refl)
