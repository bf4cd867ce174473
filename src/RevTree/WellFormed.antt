-- ===== src/RevTree/WellFormed.antt =====
-- The well-formed revision trees, and what the invariant depends on.
use mathlib.Core.Path.{transport}
use cbl.Prelude.{
  ℕ, ◌<◌, ◌≡◌, refl, sym, ◌∙◌, ap, true, false, not, some, Slice, has, All, Distinct, Result, ok,
  throws,
}
use cbl.Fleece.{Fleece}
use cbl.RevId.{generation}
use cbl.RevTree.{Rev, RevTree, has_child, empty_tree}
use cbl.RevTree.Children.{has_child-cong}

abbrev gen_or_zero : Result ℕ → ℕ
gen_or_zero (ok g) = g
gen_or_zero (throws _) = 0

-- The generation of an ID; 0 for bytes that are no ID.
unfoldable pub gen_of : Fleece → Slice → ℕ
gen_of F id = gen_or_zero (generation F id)

pub record IsTree (F : Fleece) (t : RevTree) : Type 0 where
  -- The vector points into the storage, at each revision once.
  pub stored : All (λ a. a < t.allocated) t.revs
  pub distinct : Distinct t.revs
  -- A parent is in the vector, with a lower generation: there is no cycle.
  pub parents :
      (a p : ℕ)
      → has a t.revs ≡ true
      → (t.heap a).parent ≡ some p
      → (has p t.revs ≡ true) × (gen_of F (t.heap p).rev_id < gen_of F (t.heap a).rev_id)
  -- No two revisions share an ID.
  pub unique :
      (a b : ℕ)
      → has a t.revs ≡ true
      → has b t.revs ≡ true
      → (t.heap a).rev_id ≡ (t.heap b).rev_id
      → a ≡ b
  -- The leaf flag is set where no revision has this one for its parent.
  pub leaves : (a : ℕ) → has a t.revs ≡ true → (t.heap a).leaf ≡ not (has_child t.heap a t.revs)
  -- No mark of an unfinished removal is left.
  pub unmarked : (a : ℕ) → has a t.revs ≡ true → (t.heap a).purge ≡ false
  -- The remotes' revisions are in the vector.
  pub remotes : All (λ e. has e.1 t.revs ≡ true) t.remote_revs

-- The fields of a revision on which the invariant depends.
pub record SameShape (r s : Rev) : Type 0 where
  pub rev_id : r.rev_id ≡ s.rev_id
  pub parent : r.parent ≡ s.parent
  pub leaf : r.leaf ≡ s.leaf
  pub purge : r.purge ≡ s.purge

-- Trees with the same vector and remotes, and revisions of the same shape.
pub record SameTree (t u : RevTree) : Type 0 where
  pub revs : t.revs ≡ u.revs
  pub allocated : t.allocated ≡ u.allocated
  pub remote_revs : t.remote_revs ≡ u.remote_revs
  pub shapes : (a : ℕ) → SameShape (t.heap a) (u.heap a)

module _ (F : Fleece) where
  heap-IsTree :
      (t u : RevTree)
      → ((a : ℕ) → SameShape (t.heap a) (u.heap a))
      → IsTree F t
      → IsTree F (record u { revs = t.revs; allocated = t.allocated; remote_revs = t.remote_revs })
  heap-IsTree t u e v = record {
    stored = v.stored;
    distinct = v.distinct;
    parents = λ a p m q.
        let r = v.parents a p m ((e a).parent ∙ q) in
        (r.0, rw (← (e p).rev_id, ← (e a).rev_id) r.1);
    unique = λ a b m n q. v.unique a b m n ((e a).rev_id ∙ q ∙ sym (e b).rev_id);
    leaves = λ a m.
        sym (e a).leaf
        ∙ v.leaves a m
        ∙ ap not (has_child-cong t.heap u.heap a t.revs (λ b _. (e b).parent));
    unmarked = λ a m. sym (e a).purge ∙ v.unmarked a m;
    remotes = v.remotes;
  }

  -- The invariant holds of a tree as soon as it holds of one with the same shape.
  pub SameTree-IsTree : (t u : RevTree) → SameTree t u → IsTree F t → IsTree F u
  SameTree-IsTree t u e v =
      transport
        (λ i.
          IsTree F (record u {
            revs = e.revs i;
            allocated = e.allocated i;
            remote_revs = e.remote_revs i;
          }))
        (heap-IsTree t u e.shapes v)

module _ (t : RevTree) where
  pub SameTree-refl : SameTree t t
  SameTree-refl = record {
    revs = refl;
    allocated = refl;
    remote_revs = refl;
    shapes = λ a. record { rev_id = refl; parent = refl; leaf = refl; purge = refl };
  }

  pub SameTree-trans : (u w : RevTree) → SameTree t u → SameTree u w → SameTree t w
  SameTree-trans u w p q = record {
    revs = p.revs ∙ q.revs;
    allocated = p.allocated ∙ q.allocated;
    remote_revs = p.remote_revs ∙ q.remote_revs;
    shapes = λ a. record {
      rev_id = (p.shapes a).rev_id ∙ (q.shapes a).rev_id;
      parent = (p.shapes a).parent ∙ (q.shapes a).parent;
      leaf = (p.shapes a).leaf ∙ (q.shapes a).leaf;
      purge = (p.shapes a).purge ∙ (q.shapes a).purge;
    };
  }

pub empty_tree-IsTree : (F : Fleece) → IsTree F empty_tree
unfolding empty_tree
empty_tree-IsTree F = record {
  stored = tt;
  distinct = tt;
  parents = λ a p m. cc;
  unique = λ a b m. cc;
  leaves = λ a m. cc;
  unmarked = λ a m. cc;
  remotes = tt;
}
