-- ===== src/RevTree/Sorted.antt =====
-- `RevTree::sort` of a well-formed tree returns, and `currentRevision` does.
use cbl.Prelude.{
  ℕ, ◌<◌, ◌≡◌, refl, sym, ap, ◌∙◌, subst, inl, inr, Bool, true, false, not, Option, none, some, List, [], ◌∷◌, Result,
  ok, throws, ◌>>=◌, if◌then◌else◌, length, has, All, All_has, Distinct, Bool-cases, if_true, if_false, >>=_total,
}
use cbl.Fleece.{Fleece}
use cbl.RevTree.{Rev, RevTree, has_child, set_conflict}
use cbl.RevTree.Order.{check_for_resolved_conflict, sort_revs, sort, head?, current_revision}
use cbl.RevTree.Shape.{check_for_resolved_conflict-SameTree}
use cbl.RevTree.Walks.{Enough, check_for_resolved_conflict_total}
use cbl.RevTree.WellFormed.{IsTree, SameTree-IsTree, gen_of}
use cbl.RevTree.Sorting.{
  Remarked, check-Remarked, Rearranged, Rearranged-refl, All_intro, sort_revs-Rearranged,
}

-- The same revisions in another order, but for the conflict marks.
pub record Resorted (t u : RevTree) : Type 0 where
  pub heap : (a : ℕ) → (c : Bool) × (u.heap a ≡ set_conflict c (t.heap a))
  pub revs : Rearranged t.revs u.revs
  pub remotes : u.remote_revs ≡ t.remote_revs
  pub unknown : u.unknown ≡ t.unknown
  pub sorted : u.sorted ≡ true

module _ (F : Fleece) where
  rearranged-IsTree :
      (t : RevTree) (ys : List ℕ)
      → Rearranged t.revs ys
      → IsTree F t
      → IsTree F (record t { revs = ys; sorted = true })
  rearranged-IsTree t ys r v = record {
    stored = All_intro (λ a. a < t.allocated) ys
        λ a m. All_has (λ b. b < t.allocated) a t.revs v.stored (sym (r.members a) ∙ m);
    distinct = r.distinct v.distinct;
    parents = λ a p m e.
        let (n, low) = v.parents a p (sym (r.members a) ∙ m) e in (r.members p ∙ n, low);
    unique = λ a b m n e. v.unique a b (sym (r.members a) ∙ m) (sym (r.members b) ∙ n) e;
    leaves = λ a m.
        v.leaves a (sym (r.members a) ∙ m) ∙ ap not (sym (r.children t.heap a));
    unmarked = λ a m. v.unmarked a (sym (r.members a) ∙ m);
    remotes = remotes_within t.remote_revs v.remotes;
  } where
    remotes_within :
        (m : List (ℕ × ℕ))
        → All (λ e. has e.1 t.revs ≡ true) m
        → All (λ e. has e.1 ys ≡ true) m
    remotes_within [] h = tt
    remotes_within ((k, a) ∷ m) h = (r.members a ∙ h.0, remotes_within m h.1)

  Resorted-Enough :
      (fuel : ℕ) (t u : RevTree) → Resorted t u → Enough F fuel t → Enough F fuel u
  Resorted-Enough fuel t u r enough a m =
      let (c, e) = r.heap a in
      let id : (u.heap a).rev_id ≡ (t.heap a).rev_id = ap (λ x. x.rev_id) e in
      subst (λ i. gen_of F i < fuel) (sym id) (enough a (sym (r.revs.members a) ∙ m))

  pub record IsSorted (fuel : ℕ) (t u : RevTree) : Type 0 where
    pub eq : sort F fuel t ≡ ok u
    pub same : Resorted t u
    pub tree : IsTree F u
    pub enough : Enough F fuel u

  -- A tree that is sorted already is left as it is.
  sort_sorted :
      (fuel : ℕ) (t : RevTree)
      → t.sorted ≡ true
      → IsTree F t
      → Enough F fuel t
      → IsSorted fuel t t
  unfolding sort
  sort_sorted fuel t s v enough = record {
    eq = if_true t.sorted _ _ s;
    same = record {
      heap = λ a. ((t.heap a).is_conflict, refl);
      revs = Rearranged-refl t.revs;
      remotes = refl;
      unknown = refl;
      sorted = s;
    };
    tree = v;
    enough = enough;
  }

  sort_unsorted :
      (fuel : ℕ) (t : RevTree)
      → t.sorted ≡ false
      → IsTree F t
      → Enough F fuel t
      → (u : RevTree) × IsSorted fuel t u
  unfolding sort
  sort_unsorted fuel t s v enough =
      let ys : List ℕ = sort_revs F t.heap t.revs in
      let r = sort_revs-Rearranged F t.heap t.revs in
      let t₁ : RevTree = record t { revs = ys; sorted = true } in
      let v₁ = rearranged-IsTree t ys r v in
      let (u, e) =
        check_for_resolved_conflict_total F fuel t₁ v₁ (λ a m. enough a (sym (r.members a) ∙ m)) in
      let marks = check-Remarked fuel t₁ u e in
      let same : Resorted t u = record {
        heap = marks.heap;
        revs = subst (λ xs. Rearranged t.revs xs) (sym marks.revs) r;
        remotes = marks.remotes;
        unknown = marks.unknown;
        sorted = marks.sorted;
      } in
      (u, record {
        eq = if_false t.sorted _ _ s ∙ e;
        same = same;
        tree = SameTree-IsTree F t₁ u (check_for_resolved_conflict-SameTree fuel t₁ u e) v₁;
        enough = Resorted-Enough fuel t u same enough;
      })

  pub sort_total :
      (fuel : ℕ) (t : RevTree) → IsTree F t → Enough F fuel t → (u : RevTree) × IsSorted fuel t u
  sort_total fuel t v enough = elim (Bool-cases t.sorted) [
    | inl s ↦ (t, sort_sorted fuel t s v enough)
    | inr s ↦ sort_unsorted fuel t s v enough
  ]

  -- Enough fuel for the longest branch (more than every generation): `currentRevision` returns the
  -- first revision of the sorted tree.
  pub current_revision_total :
      (fuel : ℕ) (t : RevTree)
      → t.unknown ≡ false
      → IsTree F t
      → Enough F fuel t
      → (u : RevTree) × (current_revision F fuel t ≡ ok (head? F u.revs, u)) × IsSorted fuel t u
  unfolding current_revision
  current_revision_total fuel t known v enough =
      let (u, s) = sort_total fuel t v enough in
      (u, if_false t.unknown _ _ known ∙ rw s.eq refl, s)
