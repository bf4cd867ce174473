-- ===== src/RevTree/InsertMembers.antt =====
-- The members of a tree after `_insert`.
use cbl.Prelude.{
  ℕ, ◌≡◌, refl, sym, ap, ◌∙◌, subst, ◌⊎◌, inl, inr, Bool, true, Option, some, [], ◌∷◌, ◌++◌, Slice,
  arith, has, has-append, Bool-cases, ok,
}
use cbl.Fleece.{Fleece}
use cbl.RevTree.{Flags, RevTree, get}
use cbl.RevTree.Added.{added, old_id, new}
use cbl.RevTree.Insert.{insert_rev, push_back, unleaf, allocate, new_rev, insertable}
use cbl.RevTree.Inserted.{insert_rev-added, insert_rev-IsTree, made, Under, Fresh}
use cbl.RevTree.Lookup.{get_member}
use cbl.RevTree.WellFormed.{IsTree, SameTree}

module _ (F : Fleece) (fuel : ℕ) (id : Slice) (body : Option Slice) (p : Option ℕ) (flags : Flags)
    (mark : Bool) (t u : RevTree) (a : ℕ) (v : IsTree F t) (under : Under F id p t)
    (fresh : Fresh id t) (e : insert_rev fuel id body p flags mark t ≡ ok (a, u)) where
  same : SameTree (added p (made id body p flags mark t) t) u
  same = (insert_rev-added fuel id body p flags mark t u a e).1

  at_end : a ≡ t.allocated
  at_end = (insert_rev-added fuel id body p flags mark t u a e).0

  pub insert_rev-revs : u.revs ≡ t.revs ++ a ∷ []
  unfolding push_back unleaf allocate
  insert_rev-revs = sym same.revs ∙ ap (λ b. t.revs ++ b ∷ []) (sym at_end)

  pub insert_rev-has : has a u.revs ≡ true
  insert_rev-has = rw insert_rev-revs (ground (arith, has-append a t.revs (a ∷ [])))

  pub insert_rev-new : ((u.heap a).rev_id ≡ id) × ((u.heap a).parent ≡ p) × ((u.heap a).leaf ≡ true)
  unfolding new_rev insertable
  insert_rev-new =
      let r = made id body p flags mark t in
      let n = new F p r t v refl under fresh refl refl in
      rw at_end (
        sym (same.shapes t.allocated).rev_id ∙ ap (λ x. x.rev_id) n,
        sym (same.shapes t.allocated).parent ∙ ap (λ x. x.parent) n,
        sym (same.shapes t.allocated).leaf ∙ ap (λ x. x.leaf) n,
      )

  pub insert_rev-old : (b : ℕ) → has b t.revs ≡ true → (u.heap b).rev_id ≡ (t.heap b).rev_id
  unfolding new_rev insertable
  insert_rev-old b m =
      let r = made id body p flags mark t in
      sym (same.shapes b).rev_id ∙ old_id F p r t v refl under fresh refl refl b m

  pub insert_rev-cases :
      (b : ℕ)
      → has b u.revs ≡ true
      → ((has b t.revs ≡ true) × ((u.heap b).rev_id ≡ (t.heap b).rev_id)) ⊎ ((u.heap b).rev_id ≡ id)
  insert_rev-cases b m = elim (Bool-cases (has b t.revs)) [
    | inl h ↦ inl (h, insert_rev-old b h)
    | inr h ↦
        let m' = subst (λ xs. has b xs ≡ true) insert_rev-revs m in
        let is_a : b ≡ a = ground (arith, has-append b t.revs (a ∷ [])) in
        inr (rw is_a insert_rev-new.0)
  ]

  -- A lookup of the new ID finds the new revision.
  pub insert_rev-get : get id u ≡ ok (some a)
  insert_rev-get =
      let w = insert_rev-IsTree F fuel id body p flags mark t u a v under fresh e in
      rw (← insert_rev-new.0) (get_member F u a w insert_rev-has)
