-- ===== src/RevTree/PurgeResult.antt =====
-- `purge` as a whole: the loop, `compact` and the check for a resolved conflict.
use cbl.Prelude.{
  ℕ, ◌+◌, ◌<◌, ◌≡◌, ◌≢◌, refl, sym, ap, ◌∙◌, subst, inl, inr, true, false, not, ◌&&◌, none, List,
  [], ◌∷◌, arith, has, All, Distinct, Bool-cases, ok, length,
}
use cbl.Fleece.{Fleece}
use cbl.RevTree.{Rev, RevTree, has_child}
use cbl.RevTree.Lookup.{get_member}
use cbl.RevTree.PurgeLoop.{Purged, purge_up-Purged}
use cbl.RevTree.Purging.{Live, Purging, IsTree-Purging}
use cbl.RevTree.Remove.{unpurged, unpurged_remotes, compact, purge_found, purge}
use cbl.RevTree.Shape.{check_for_resolved_conflict-SameTree}
use cbl.RevTree.Walks.{Enough, check_for_resolved_conflict_total}
use cbl.RevTree.WellFormed.{IsTree, SameTree, SameTree-IsTree}

has-unpurged :
    (h : ℕ → Rev) (b : ℕ) (xs : List ℕ) → has b (unpurged h xs) ≡ (has b xs && not (h b).purge)
unfolding unpurged
has-unpurged h b [] = refl
has-unpurged h b (x ∷ xs) = ground (arith, has-unpurged h b xs)

unpurged-All : (P : ℕ → Type 0) (h : ℕ → Rev) (xs : List ℕ) → All P xs → All P (unpurged h xs)
unfolding unpurged
unpurged-All P h [] a = tt
unpurged-All P h (x ∷ xs) a = elim (Bool-cases (h x).purge) [
  | inl marked ↦ rw marked (unpurged-All P h xs a.1)
  | inr live ↦ rw live (a.0, unpurged-All P h xs a.1)
]

unpurged-Distinct : (h : ℕ → Rev) (xs : List ℕ) → Distinct xs → Distinct (unpurged h xs)
unfolding unpurged
unpurged-Distinct h [] d = tt
unpurged-Distinct h (x ∷ xs) d = elim (Bool-cases (h x).purge) [
  | inl marked ↦ rw marked (unpurged-Distinct h xs d.1)
  | inr live ↦ rw live (rw (has-unpurged h x xs, d.0) refl, unpurged-Distinct h xs d.1)
]

unpurged_remotes-has :
    (h : ℕ → Rev) (xs : List ℕ) (es : List (ℕ × ℕ))
    → All (λ e. has e.1 xs ≡ true) es
    → All (λ e. has e.1 (unpurged h xs) ≡ true) (unpurged_remotes h es)
unfolding unpurged_remotes
unpurged_remotes-has h xs [] a = tt
unpurged_remotes-has h xs ((k, b) ∷ es) a = elim (Bool-cases (h b).purge) [
  | inl marked ↦ rw marked (unpurged_remotes-has h xs es a.1)
  | inr live ↦ rw live (rw (has-unpurged h b xs, a.0, live) refl, unpurged_remotes-has h xs es a.1)
]

-- What is marked has no parent, so it counts as no child.
has_child-unpurged :
    (h : ℕ → Rev) (a : ℕ) (xs : List ℕ)
    → ((b : ℕ) → has b xs ≡ true → (h b).purge ≡ true → (h b).parent ≡ none)
    → has_child h a (unpurged h xs) ≡ has_child h a xs
unfolding unpurged has_child
has_child-unpurged h a [] gone = refl
has_child-unpurged h a (x ∷ xs) gone =
    let rest = has_child-unpurged h a xs (λ b m. gone b (ground arith)) in
    elim (Bool-cases (h x).purge) [
      | inl marked ↦ rw (marked, gone x (ground arith) marked) rest
      | inr live ↦ rw (live, has_child) (rw rest refl)
    ]

module _ (F : Fleece) where
  -- `compact` makes a well-formed tree of what the loop leaves.
  compact-IsTree :
      (t : RevTree)
      → Purging F t
      → All (λ a. a < t.allocated) t.revs
      → Distinct t.revs
      → ((a b : ℕ)
          → has a t.revs ≡ true
          → has b t.revs ≡ true
          → (t.heap a).rev_id ≡ (t.heap b).rev_id
          → a ≡ b)
      → All (λ e. has e.1 t.revs ≡ true) t.remote_revs
      → IsTree F (compact t)
  unfolding compact
  compact-IsTree t w stored distinct unique remotes = record {
    stored = unpurged-All (λ a. a < t.allocated) t.heap t.revs stored;
    distinct = unpurged-Distinct t.heap t.revs distinct;
    parents = λ a p m e. let (l, low) = w.parents a p (live a m) e in (member p l, low);
    unique = λ a b m n e. unique a b (live a m).0 (live b n).0 e;
    leaves =
        λ a m. w.leaves a (live a m) ∙ ap not (sym (has_child-unpurged t.heap a t.revs w.unlinked));
    unmarked = λ a m. (live a m).1;
    remotes = unpurged_remotes-has t.heap t.revs t.remote_revs remotes;
  }
    where
      live : (a : ℕ) → has a (unpurged t.heap t.revs) ≡ true → Live t a
      live a m = ground (arith, has-unpurged t.heap a t.revs)

      member : (a : ℕ) → Live t a → has a (unpurged t.heap t.revs) ≡ true
      member a l = ground (arith, has-unpurged t.heap a t.revs)

  -- The contract of `purge`, for the ID of a leaf.
  pub record PurgeOf (a : ℕ) (t : RevTree) (m : ℕ) (u : RevTree) : Type 0 where
    pub well_formed : IsTree F u
    pub removed : length u.revs + m ≡ length t.revs
    pub gone : has a u.revs ≡ false
    pub leaves_stay :
        (b : ℕ) → b ≢ a → has b t.revs ≡ true → (t.heap b).leaf ≡ true → has b u.revs ≡ true

  unpurged_all :
      (h : ℕ → Rev) (xs : List ℕ)
      → ((b : ℕ) → has b xs ≡ true → (h b).purge ≡ false)
      → unpurged h xs ≡ xs
  unfolding unpurged
  unpurged_all h [] live = refl
  unpurged_all h (x ∷ xs) live =
      rw (live x (ground arith), unpurged_all h xs (λ b m. live b (ground arith))) refl

  Purged-IsTree :
      (a n : ℕ) (t u : RevTree) (m : ℕ) → IsTree F t → Purged F a t u 0 m → IsTree F (compact u)
  Purged-IsTree a n t u m v q =
      compact-IsTree u q.invariant (rw (q.revs, q.allocated) v.stored) (rw q.revs v.distinct)
        (λ b c k l e. v.unique b c (was b k) (was c l) (sym (q.ids b) ∙ e ∙ q.ids c))
        (rw (q.remote_revs, q.revs) v.remotes)
    where
      was : (b : ℕ) → has b u.revs ≡ true → has b t.revs ≡ true
      was b k = subst (λ xs. has b xs ≡ true) q.revs k

  Purged-Enough :
      (fuel a : ℕ) (t u : RevTree) (m : ℕ)
      → Enough F fuel t
      → Purged F a t u 0 m
      → Enough F fuel (compact u)
  unfolding compact
  Purged-Enough fuel a t u m enough q b k =
      let k' : has b u.revs ≡ true = ground (arith, has-unpurged u.heap b u.revs) in
      rw (q.ids b) (enough b (subst (λ xs. has b xs ≡ true) q.revs k'))

  Purged-result :
      (a m : ℕ) (t t₁ u : RevTree)
      → IsTree F t
      → Purged F a t t₁ 0 m
      → IsTree F (compact t₁)
      → SameTree (compact t₁) u
      → PurgeOf a t m u
  unfolding compact
  Purged-result a m t t₁ u v q w same = record {
    well_formed = SameTree-IsTree F (compact t₁) u same w;
    removed =
        omega
          (arith, q.count, ap length same.revs, ap length (unpurged_all t.heap t.revs v.unmarked));
    gone = rw (← same.revs, has-unpurged t₁.heap a t₁.revs, q.gone) (ground arith);
    leaves_stay = λ b ne k leaf.
        let r = q.kept b ne (k, v.unmarked b k) leaf in
        rw (← same.revs, has-unpurged t₁.heap b t₁.revs, r, v.unmarked b k, q.revs, k) refl;
  }

  -- In a well-formed tree, with fuel above its generations, `purge` of a leaf's ID returns; the tree
  -- stays well formed, the number returned is that of the revisions removed, the leaf is gone and
  -- every other leaf is there.
  pub purge_lem :
      (fuel : ℕ) (t : RevTree) (a : ℕ)
      → IsTree F t
      → Enough F fuel t
      → has a t.revs ≡ true
      → (t.heap a).leaf ≡ true
      → (m : ℕ) × (u : RevTree) × (purge fuel (t.heap a).rev_id t ≡ ok (m, u)) × PurgeOf a t m u
  unfolding purge purge_found
  purge_lem fuel t a v enough n leaf =
      let (m, t₁, is, q) =
        purge_up-Purged F fuel 0 a t (IsTree-Purging F t v) v.distinct (n, v.unmarked a n) leaf
          (enough a n) in
      let w = Purged-IsTree a 0 t t₁ m v q in
      let (u, checked) =
        check_for_resolved_conflict_total F fuel (compact t₁) w
          (Purged-Enough fuel a t t₁ m enough q) in
      let same = check_for_resolved_conflict-SameTree fuel (compact t₁) u checked in
      (m, u, rw (get_member F t a v n, leaf, is, checked) refl, Purged-result a m t t₁ u v q w same)
