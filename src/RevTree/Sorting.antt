-- ===== src/RevTree/Sorting.antt =====
-- What `RevTree::sort` leaves of a tree: the same revisions, in another order and with other conflict
-- marks.
use cbl.Prelude.{
  ℕ, zero, suc, ◌+◌, ◌<◌, ◌≤◌, ◌≡◌, refl, sym, ap, ◌∙◌, subst, inl, inr, Bool, true, false, not, ◌&&◌, ◌||◌,
  Option, none, some, List, [], ◌∷◌, Result, ok, throws, arith, ◌==◌, ==_iff, Bool-cases, if-cases,
  if◌then◌else◌, ok-injective, length, has, All, All_has, Distinct,
}
use cbl.Fleece.{Fleece}
use cbl.RevTree.{Rev, RevTree, update, modify, has_child, points_to, set_conflict}
use cbl.RevTree.Order.{
  mark_branch, first_conflict, check_for_resolved_conflict, same, insert_sorted, sort_revs, sort, compare_revs,
}
use cbl.RevTree.Shape.{check_for_resolved_conflict-SameTree}
use cbl.RevTree.Walks.{Enough, check_for_resolved_conflict_total}
use cbl.RevTree.WellFormed.{IsTree, SameTree-IsTree}

-- Trees that differ in the conflict marks and in `changed`.
pub record Remarked (t u : RevTree) : Type 0 where
  pub heap : (a : ℕ) → (c : Bool) × (u.heap a ≡ set_conflict c (t.heap a))
  pub revs : u.revs ≡ t.revs
  pub remotes : u.remote_revs ≡ t.remote_revs
  pub unknown : u.unknown ≡ t.unknown
  pub sorted : u.sorted ≡ t.sorted

Remarked-refl : (t : RevTree) → Remarked t t
Remarked-refl t = record {
  heap = λ a. ((t.heap a).is_conflict, refl);
  revs = refl;
  remotes = refl;
  unknown = refl;
  sorted = refl;
}

Remarked-eq : (t u : RevTree) → ok t ≡ ok u → Remarked t u
Remarked-eq t u e = subst (Remarked t) (ok-injective e) (Remarked-refl t)

Remarked-trans : (t u w : RevTree) → Remarked t u → Remarked u w → Remarked t w
Remarked-trans t u w p q = record {
  heap = λ a.
      let (c, e) = p.heap a in
      let (d, f) = q.heap a in (d, f ∙ ap (set_conflict d) e);
  revs = q.revs ∙ p.revs;
  remotes = q.remotes ∙ p.remotes;
  unknown = q.unknown ∙ p.unknown;
  sorted = q.sorted ∙ p.sorted;
}

Remarked-one :
    (a : ℕ) (c : Bool) (t : RevTree)
    → Remarked t (record (modify a (set_conflict c) t) { changed = true })
unfolding modify update
Remarked-one a c t = record {
  heap = λ b. elim (Bool-cases (b == a)) [
    | inl hit ↦
        (
          c,
          rw hit (ap (λ x. set_conflict c (t.heap x)) (sym ((==_iff b a).0 hit))),
        )
    | inr miss ↦ ((t.heap b).is_conflict, rw miss refl)
  ];
  revs = refl;
  remotes = refl;
  unknown = refl;
  sorted = refl;
}

mark_branch-Remarked :
    (fuel : ℕ) (c : Bool) (p : Option ℕ) (t u : RevTree)
    → mark_branch fuel c p t ≡ ok u
    → Remarked t u
unfolding mark_branch
mark_branch-Remarked zero c none t u e = Remarked-eq t u e
mark_branch-Remarked zero c (some a) t u e = cc
mark_branch-Remarked (suc fuel) c none t u e = Remarked-eq t u e
mark_branch-Remarked (suc fuel) c (some a) t u e =
    elim (Bool-cases (same (t.heap a).is_conflict c)) [
      | inl stop ↦ Remarked-eq t u (rw stop at e)
      | inr go ↦
          Remarked-trans t _ u (Remarked-one a c t)
            (mark_branch-Remarked fuel c (t.heap a).parent _ u (rw go at e))
    ]

first_conflict-Remarked :
    (xs : List ℕ) (fuel : ℕ) (t u : RevTree) → first_conflict xs fuel t ≡ ok u → Remarked t u
unfolding first_conflict
first_conflict-Remarked [] fuel t u e = Remarked-eq t u e
first_conflict-Remarked (a ∷ _) fuel t u e = elim (Bool-cases (t.heap a).is_conflict) [
  | inl marked ↦ mark_branch-Remarked fuel false (some a) t u (rw marked at e)
  | inr plain ↦ Remarked-eq t u (rw plain at e)
]

pub check-Remarked :
    (fuel : ℕ) (t u : RevTree) → check_for_resolved_conflict fuel t ≡ ok u → Remarked t u
unfolding check_for_resolved_conflict
check-Remarked fuel t u e = elim (if-cases t.sorted _ _ e) [
  | inl (_, now) ↦ first_conflict-Remarked t.revs fuel t u now
  | inr (_, later) ↦ Remarked-eq t u later
]

-- Lists with the same members, each as often.
pub record Rearranged (xs ys : List ℕ) : Type 0 where
  pub members : (a : ℕ) → has a ys ≡ has a xs
  pub children : (h : ℕ → Rev) (a : ℕ) → has_child h a ys ≡ has_child h a xs
  pub distinct : Distinct xs → Distinct ys
  pub size : length ys ≡ length xs

pub Rearranged-refl : (xs : List ℕ) → Rearranged xs xs
Rearranged-refl xs = record {
  members = λ a. refl;
  children = λ h a. refl;
  distinct = λ d. d;
  size = refl;
}

pub All_intro : (P : ℕ → Type 0) (xs : List ℕ) → ((a : ℕ) → has a xs ≡ true → P a) → All P xs
All_intro P [] f = tt
All_intro P (x ∷ xs) f = (f x (ground arith), All_intro P xs λ a m. f a (ground arith))

module _ (F : Fleece) (h : ℕ → Rev) where
  has-insert_sorted :
      (b a : ℕ) (xs : List ℕ) → has b (insert_sorted F h a xs) ≡ (b == a || has b xs)
  unfolding insert_sorted
  has-insert_sorted b a [] = refl
  has-insert_sorted b a (x ∷ xs) = elim (Bool-cases (compare_revs F (h x) (h a))) [
    | inl before ↦ rw before (ground (arith, has-insert_sorted b a xs))
    | inr after ↦ rw after refl
  ]

  has_child-insert_sorted :
      (g : ℕ → Rev) (b a : ℕ) (xs : List ℕ)
      → has_child g b (insert_sorted F h a xs) ≡ (points_to b (g a).parent || has_child g b xs)
  unfolding insert_sorted has_child
  has_child-insert_sorted g b a [] = refl
  has_child-insert_sorted g b a (x ∷ xs) = elim (Bool-cases (compare_revs F (h x) (h a))) [
    | inl before ↦ rw (before, has_child) (ground (arith, has_child-insert_sorted g b a xs))
    | inr after ↦ rw (after, has_child) refl
  ]

  Distinct-insert_sorted :
      (a : ℕ) (xs : List ℕ)
      → has a xs ≡ false
      → Distinct xs
      → Distinct (insert_sorted F h a xs)
  unfolding insert_sorted
  Distinct-insert_sorted a [] n d = (refl, tt)
  Distinct-insert_sorted a (x ∷ xs) n d = elim (Bool-cases (compare_revs F (h x) (h a))) [
    | inl before ↦
        rw before (
          has-insert_sorted x a xs ∙ ground arith,
          Distinct-insert_sorted a xs (ground arith) d.1,
        )
    | inr after ↦ rw after (n, d)
  ]

  length-insert_sorted :
      (a : ℕ) (xs : List ℕ) → length (insert_sorted F h a xs) ≡ suc (length xs)
  unfolding insert_sorted
  length-insert_sorted a [] = refl
  length-insert_sorted a (x ∷ xs) = elim (Bool-cases (compare_revs F (h x) (h a))) [
    | inl before ↦ rw before (ap suc (length-insert_sorted a xs))
    | inr after ↦ rw after refl
  ]

  pub sort_revs-Rearranged : (xs : List ℕ) → Rearranged xs (sort_revs F h xs)
  unfolding sort_revs has_child
  sort_revs-Rearranged [] = Rearranged-refl []
  sort_revs-Rearranged (x ∷ xs) =
      let r = sort_revs-Rearranged xs in
      record {
        members = λ a. has-insert_sorted a x (sort_revs F h xs) ∙ ap (λ b. a == x || b) (r.members a);
        children = λ g a.
            has_child-insert_sorted g a x (sort_revs F h xs)
            ∙ ap (λ b. points_to a (g x).parent || b) (r.children g a);
        distinct = λ d.
            Distinct-insert_sorted x (sort_revs F h xs) (r.members x ∙ d.0) (r.distinct d.1);
        size = length-insert_sorted x (sort_revs F h xs) ∙ ap suc r.size;
      }
