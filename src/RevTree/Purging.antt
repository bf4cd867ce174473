-- ===== src/RevTree/Purging.antt =====
-- The loop of `purge`: what holds of the tree while revisions are marked, and that it ends.
use cbl.Prelude.{
  ℕ, ◌<◌, ◌≡◌, ◌≢◌, refl, sym, ap, ◌∙◌, subst, inl, inr, true, false, not, ◌||◌, none, some, List,
  [], ◌∷◌, arith, has, ◌==◌, ==_iff, Bool-cases, if◌then◌else◌,
}
use cbl.Fleece.{Fleece}
use cbl.RevTree.{
  Rev, RevTree, update, modify, points_to, has_child, set_parent, set_purge, set_leaf,
}
use cbl.RevTree.Children.{has_child_of, has_child-cong}
use cbl.RevTree.WellFormed.{gen_of, IsTree}

-- A member that is not marked.
abbrev pub Live : RevTree → ℕ → Type 0
Live t a = (has a t.revs ≡ true) × ((t.heap a).purge ≡ false)

pub record Purging (F : Fleece) (t : RevTree) : Type 0 where
  pub parents :
      (a p : ℕ)
      → Live t a
      → (t.heap a).parent ≡ some p
      → Live t p × (gen_of F (t.heap p).rev_id < gen_of F (t.heap a).rev_id)
  -- What is marked is unlinked.
  pub unlinked : (a : ℕ) → has a t.revs ≡ true → (t.heap a).purge ≡ true → (t.heap a).parent ≡ none
  pub leaves : (a : ℕ) → Live t a → (t.heap a).leaf ≡ not (has_child t.heap a t.revs)

pub IsTree-Purging : (F : Fleece) (t : RevTree) → IsTree F t → Purging F t
IsTree-Purging F t v = record {
  parents = λ a p m e. let (n, low) = v.parents a p m.0 e in ((n, v.unmarked p n), low);
  unlinked = λ a m marked. cc (v.unmarked a m, marked);
  leaves = λ a m. v.leaves a m.0;
}

abbrev pub unlink : Rev → Rev
unlink r = set_parent none (set_purge true r)

has_child-ext :
    (h g : ℕ → Rev) (b : ℕ) (xs : List ℕ)
    → ((c : ℕ) → has c xs ≡ true → points_to b (h c).parent ≡ points_to b (g c).parent)
    → has_child h b xs ≡ has_child g b xs
unfolding has_child
has_child-ext h g b [] e = refl
has_child-ext h g b (x ∷ xs) e =
    rw (e x (ground arith), has_child-ext h g b xs (λ c m. e c (ground arith)))

-- To unlink a revision changes the children of its parent alone.
has_child-unlink :
    (h : ℕ → Rev) (a b : ℕ) (xs : List ℕ)
    → points_to b (h a).parent ≡ false
    → has_child (update h a unlink) b xs ≡ has_child h b xs
unfolding update
has_child-unlink h a b xs miss = has_child-ext (update h a unlink) h b xs λ c _. ground arith

-- The tree after one round of the loop, and after the parent became a leaf.
abbrev pub unlinked_tree : ℕ → RevTree → RevTree
unlinked_tree a t = modify a unlink t

module _ (F : Fleece) (a : ℕ) (t : RevTree) (w : Purging F t) (m : Live t a)
    (is_leaf : (t.heap a).leaf ≡ true) where
  no_children : has_child t.heap a t.revs ≡ false
  no_children = ground (arith, w.leaves a m)

  not_parent : (b : ℕ) → has b t.revs ≡ true → (t.heap b).parent ≢ some a
  not_parent b n e = cc (has_child_of t.heap a b t.revs n e, no_children)

  -- The heap after the round.
  abbrev pub after : ℕ → Rev
  after = update t.heap a unlink

  pub other : (b : ℕ) → (b == a) ≡ false → after b ≡ t.heap b
  unfolding update
  other b e = rw e refl

  pub own : after a ≡ unlink (t.heap a)
  unfolding update
  own = ground arith

  not_own : (b : ℕ) → (after b).purge ≡ false → (b == a) ≡ false
  not_own b live = elim (Bool-cases (b == a)) [
    | inl hit ↦
        cc (subst (λ c. (after c).purge ≡ false) ((==_iff b a).0 hit) live, ap (λ r. r.purge) own)
    | inr miss ↦ miss
  ]

  pub not_own_child :
      (b q : ℕ) → has b t.revs ≡ true → (t.heap b).parent ≡ some q → (q == a) ≡ false
  not_own_child b q n e = elim (Bool-cases (q == a)) [
    | inl hit ↦ absurd (not_parent b n (e ∙ ap some ((==_iff q a).0 hit)))
    | inr miss ↦ miss
  ]

  was-Live : (b : ℕ) → has b t.revs ≡ true → (after b).purge ≡ false → Live t b
  was-Live b n live = (n, sym (ap (λ r. r.purge) (other b (not_own b live))) ∙ live)

  -- The parents are as they have to be; so are the leaf flags, but for that of the parent.
  round_parents :
      (b q : ℕ)
      → has b t.revs ≡ true
      → (after b).purge ≡ false
      → (after b).parent ≡ some q
      → ((has q t.revs ≡ true) × ((after q).purge ≡ false))
        × (gen_of F (after q).rev_id < gen_of F (after b).rev_id)
  round_parents b q n live e =
      let same = other b (not_own b live) in
      let was : (t.heap b).parent ≡ some q = sym (ap (λ r. r.parent) same) ∙ e in
      let (up, low) = w.parents b q (was-Live b n live) was in
      let same_q = other q (not_own_child b q n was) in rw (same, same_q) (up, low)

  round_unlinked : (b : ℕ) → has b t.revs ≡ true → (after b).purge ≡ true → (after b).parent ≡ none
  round_unlinked b n marked = elim (Bool-cases (b == a)) [
    | inl hit ↦ rw ((==_iff b a).0 hit, own) refl
    | inr miss ↦
        ap (λ r. r.parent) (other b miss)
        ∙ w.unlinked b n (sym (ap (λ r. r.purge) (other b miss)) ∙ marked)
  ]

  round_leaves :
      (b : ℕ)
      → has b t.revs ≡ true
      → (after b).purge ≡ false
      → points_to b (t.heap a).parent ≡ false
      → (after b).leaf ≡ not (has_child after b t.revs)
  round_leaves b n live miss =
      ap (λ r. r.leaf) (other b (not_own b live))
      ∙ w.leaves b (was-Live b n live)
      ∙ ap not (sym (has_child-unlink t.heap a b t.revs miss))

  pub parent_same : (p : ℕ) → (t.heap a).parent ≡ some p → after p ≡ t.heap p
  parent_same p e = other p (not_own_child a p m.0 e)

  pub parent_inner : (p : ℕ) → (t.heap a).parent ≡ some p → (after p).leaf ≡ false
  parent_inner p e =
      ap (λ r. r.leaf) (parent_same p e)
      ∙ w.leaves p (w.parents a p m e).0
      ∙ ap not (has_child_of t.heap p a t.revs m.0 e)

  -- The last round: the leaf was a root.
  pub root-Purging : (t.heap a).parent ≡ none → Purging F (unlinked_tree a t)
  unfolding modify
  root-Purging e = record {
    parents = λ b q m'. round_parents b q m'.0 m'.1;
    unlinked = round_unlinked;
    leaves = λ b m'. round_leaves b m'.0 m'.1 (rw e refl);
  }

  -- The last round, or any other: the parent has another child.
  pub shared-Purging :
      (p : ℕ)
      → (t.heap a).parent ≡ some p
      → has_child after p t.revs ≡ true
      → Purging F (unlinked_tree a t)
  unfolding modify
  shared-Purging p e more = record {
    parents = λ b q m'. round_parents b q m'.0 m'.1;
    unlinked = round_unlinked;
    leaves = λ b m'. elim (Bool-cases (b == p)) [
      | inl hit ↦ rw ((==_iff b p).0 hit, more) (parent_inner p e)
      | inr miss ↦ round_leaves b m'.0 m'.1 (rw e (ground arith))
    ];
  }

  -- Another round follows: the parent is left without a child, and marked a leaf.
  abbrev pub leafed : ℕ → RevTree
  leafed p = modify p (set_leaf true) (unlinked_tree a t)

  pub leafed-at :
      (p b : ℕ) → (leafed p).heap b ≡ (if b == p then set_leaf true (after p) else after b)
  unfolding modify update
  leafed-at p b = refl

  pub leafed-parts :
      (p b : ℕ)
      → (((leafed p).heap b).parent ≡ (after b).parent)
        × (((leafed p).heap b).purge ≡ (after b).purge)
        × (((leafed p).heap b).rev_id ≡ (after b).rev_id)
        × (((leafed p).heap b).leaf ≡ ((b == p) || (after b).leaf))
  unfolding modify update
  leafed-parts p b = ground arith

  alone_leaves :
      (p : ℕ)
      → (t.heap a).parent ≡ some p
      → has_child after p t.revs ≡ false
      → (b : ℕ) → has b t.revs ≡ true
      → (after b).purge ≡ false
      → ((b == p) || (after b).leaf) ≡ not (has_child after b t.revs)
  alone_leaves p e alone b n live = elim (Bool-cases (b == p)) [
    | inl hit ↦ rw (hit, (==_iff b p).0 hit, alone) refl
    | inr miss ↦ rw miss (round_leaves b n live (rw e (ground arith)))
  ]

  pub alone-Purging :
      (p : ℕ) → (t.heap a).parent ≡ some p → has_child after p t.revs ≡ false → Purging F (leafed p)
  unfolding modify
  alone-Purging p e alone = record {
    parents = λ b q m' up.
        let (par, pur, ids, _) = leafed-parts p b in
        let (parq, purq, idq, _) = leafed-parts p q in
        let (l, low) = round_parents b q m'.0 (sym pur ∙ m'.1) (sym par ∙ up) in
        ((l.0, purq ∙ l.1), rw (ids, idq) low);
    unlinked =
        λ b n marked. (leafed-parts p b).0 ∙ round_unlinked b n (sym (leafed-parts p b).1 ∙ marked);
    leaves = λ b m'.
        (leafed-parts p b).3
        ∙ alone_leaves p e alone b m'.0 (sym (leafed-parts p b).1 ∙ m'.1)
        ∙ ap not (has_child-cong after (leafed p).heap b t.revs (λ c _. sym (leafed-parts p c).0));
  }
