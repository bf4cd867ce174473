-- ===== src/RevTree/History.antt =====
-- `Rev::history` and `Rev::isAncestorOf`.
use cbl.Prelude.{
  ℕ, zero, suc, ◌<◌, ◌≡◌, refl, ap, true, Option, none, some, List, [], ◌∷◌, arith, has, ok,
  >>=-eq-ok, ok-injective, subst,
}
use cbl.Fleece.{Fleece}
use cbl.RevTree.{Rev, RevTree, history, is_ancestor_of}
use cbl.RevTree.Walks.{Ends, Enough, member-Ends}
use cbl.RevTree.WellFormed.{gen_of, IsTree}

-- The list that the parents make from `p` on, down to a root.
abbrev pub Lineage : (ℕ → Rev) → Option ℕ → List ℕ → Type 0
Lineage h p [] = p ≡ none
Lineage h p (a ∷ xs) = (p ≡ some a) × Lineage h (h a).parent xs

pub history-Lineage :
    (fuel : ℕ) (h : ℕ → Rev) (p : Option ℕ)
    → Ends fuel h p
    → (xs : List ℕ) × (history fuel h p ≡ ok xs) × Lineage h p xs
unfolding history
history-Lineage zero h none e = ([], refl, refl)
history-Lineage zero h (some a) e = elim e [ ]
history-Lineage (suc fuel) h none e = ([], refl, refl)
history-Lineage (suc fuel) h (some a) e =
    let (xs, is, l) = history-Lineage fuel h (h a).parent e in (a ∷ xs, rw is refl, (refl, l))

-- `isAncestorOf` looks for the revision in the history of the other.
pub is_ancestor_of-has :
    (fuel : ℕ) (h : ℕ → Rev) (a : ℕ) (p : Option ℕ) (xs : List ℕ)
    → history fuel h p ≡ ok xs
    → is_ancestor_of fuel h a p ≡ ok (has a xs)
unfolding history is_ancestor_of
is_ancestor_of-has zero h a none xs e = ap (λ ys. ok (has a ys)) (ok-injective e)
is_ancestor_of-has zero h a (some b) xs e = cc
is_ancestor_of-has (suc fuel) h a none xs e = ap (λ ys. ok (has a ys)) (ok-injective e)
is_ancestor_of-has (suc fuel) h a (some b) xs e =
    let (ys, is, last) = >>=-eq-ok (history fuel h (h b).parent) _ e in
    subst (λ zs. is_ancestor_of (suc fuel) h a (some b) ≡ ok (has a zs)) (ok-injective last)
      (rw (is_ancestor_of-has fuel h a (h b).parent ys is) (ground arith))

-- The generations fall along a lineage, and its revisions are members.
abbrev pub Falls : Fleece → RevTree → ℕ → List ℕ → Type 0
Falls F t g [] = Unit {0}
Falls F t g (a ∷ xs) =
    (has a t.revs ≡ true)
    × (gen_of F (t.heap a).rev_id < g)
    × Falls F t (gen_of F (t.heap a).rev_id) xs

Lineage-Falls :
    (F : Fleece) (t : RevTree) (g : ℕ) (p : Option ℕ) (xs : List ℕ)
    → IsTree F t
    → ((q : ℕ) → p ≡ some q → (has q t.revs ≡ true) × (gen_of F (t.heap q).rev_id < g))
    → Lineage t.heap p xs
    → Falls F t g xs
Lineage-Falls F t g p [] v below l = tt
Lineage-Falls F t g p (a ∷ xs) v below (is_a, l) =
    let (m, low) = below a is_a in
    (
      m,
      low,
      Lineage-Falls F t (gen_of F (t.heap a).rev_id) (t.heap a).parent xs v
          (λ q e. v.parents a q m e) l,
    )

-- In a well-formed tree, with fuel above its generations, the history of a member is the list of it,
-- its parent and so on to a root, all of them members and of ever lower generations; and
-- `isAncestorOf` tells of any revision whether it is in that list.
pub history_lem :
    (F : Fleece) (fuel : ℕ) (t : RevTree) (a : ℕ)
    → IsTree F t
    → Enough F fuel t
    → has a t.revs ≡ true
    → (xs : List ℕ) × (history fuel t.heap (some a) ≡ ok xs)
      × Lineage t.heap (some a) xs
      × Falls F t fuel xs
      × ((b : ℕ) → is_ancestor_of fuel t.heap b (some a) ≡ ok (has b xs))
history_lem F fuel t a v enough m =
    let (xs, is, l) = history-Lineage fuel t.heap (some a) (member-Ends F fuel t a v enough m) in
    (
      xs,
      is,
      l,
      Lineage-Falls F t fuel (some a) xs v
          (λ q e. let same : a ≡ q = cc in rw (← same) (m, enough a m)) l,
      λ b. is_ancestor_of-has fuel t.heap b (some a) xs is,
    )
