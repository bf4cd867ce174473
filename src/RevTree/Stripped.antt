-- ===== src/RevTree/Stripped.antt =====
-- `removeNonLeafBodies`: which bodies go.
use cbl.Prelude.{
  ℕ, ◌≡◌, ◌⊎◌, refl, sym, ap, ◌∙◌, subst, inl, inr, Bool, true, false, ◌&&◌, ◌||◌, not, Option, none, some, List, [],
  ◌∷◌, ◌==◌, ==_iff, Bool-cases, if◌then◌else◌, if_both, has, Slice,
}
use cbl.Fleece.{Fleece}
use cbl.RevTree.{Rev, RevTree, update, modify}
use cbl.RevTree.Remove.{drop_body, has_bytes, is_stale, remove_stale, remove_non_leaf_bodies}
use cbl.RevTree.WellFormed.{IsTree, SameTree-IsTree, SameShape}

-- A revision is as it was, or was stale and lost its body.
abbrev pub Lost : Rev → Rev → Type 0
Lost r s = (s ≡ r) ⊎ ((is_stale r ≡ true) × (s ≡ drop_body r))

pub record Stripped (t u : RevTree) : Type 0 where
  pub heap : (a : ℕ) → Lost (t.heap a) (u.heap a)
  pub revs : u.revs ≡ t.revs
  pub allocated : u.allocated ≡ t.allocated
  pub remotes : u.remote_revs ≡ t.remote_revs
  pub unknown : u.unknown ≡ t.unknown
  pub sorted : u.sorted ≡ t.sorted

drop_body-stale : (r : Rev) → is_stale (drop_body r) ≡ false
unfolding is_stale has_bytes
drop_body-stale r = refl

Lost-trans : (r s q : Rev) → Lost r s → Lost s q → Lost r q
Lost-trans r s q (inl e) (inl f) = inl (f ∙ e)
Lost-trans r s q (inl e) (inr (stale, f)) =
    inr (subst (λ x. is_stale x ≡ true) e stale, f ∙ ap drop_body e)
Lost-trans r s q (inr h) (inl f) = inr (h.0, f ∙ h.1)
Lost-trans r s q (inr h) (inr (stale, f)) =
    cc (subst (λ x. is_stale x ≡ true) h.1 stale, drop_body-stale r)

Stripped-refl : (t : RevTree) → Stripped t t
Stripped-refl t = record {
  heap = λ a. inl refl;
  revs = refl;
  allocated = refl;
  remotes = refl;
  unknown = refl;
  sorted = refl;
}

Stripped-trans : (t u w : RevTree) → Stripped t u → Stripped u w → Stripped t w
Stripped-trans t u w p q = record {
  heap = λ a. Lost-trans (t.heap a) (u.heap a) (w.heap a) (p.heap a) (q.heap a);
  revs = q.revs ∙ p.revs;
  allocated = q.allocated ∙ p.allocated;
  remotes = q.remotes ∙ p.remotes;
  unknown = q.unknown ∙ p.unknown;
  sorted = q.sorted ∙ p.sorted;
}

abbrev strip_one : ℕ → RevTree → RevTree
strip_one a t = if is_stale (t.heap a) then record (modify a drop_body t) { changed = true } else t

strip_one-Stripped : (a : ℕ) (t : RevTree) → Stripped t (strip_one a t)
unfolding modify update
strip_one-Stripped a t =
    if_both (Stripped t) (is_stale (t.heap a)) _ _
      (λ stale. record {
        heap = λ b. elim (Bool-cases (b == a)) [
          | inl hit ↦
              inr (
                subst (λ x. is_stale (t.heap x) ≡ true) (sym ((==_iff b a).0 hit)) stale,
                rw hit (ap (λ x. drop_body (t.heap x)) (sym ((==_iff b a).0 hit))),
              )
          | inr miss ↦ inl (rw miss refl)
        ];
        revs = refl;
        allocated = refl;
        remotes = refl;
        unknown = refl;
        sorted = refl;
      })
      (λ _. Stripped-refl t)

strip_one-own : (a : ℕ) (t : RevTree) → is_stale ((strip_one a t).heap a) ≡ false
unfolding modify update
strip_one-own a t =
    if_both (λ (u : RevTree). is_stale (u.heap a) ≡ false) (is_stale (t.heap a)) _ _
      (λ stale. rw ((==_iff a a).1 refl) (drop_body-stale (t.heap a))) (λ kept. kept)

remove_stale-Stripped : (xs : List ℕ) (t : RevTree) → Stripped t (remove_stale xs t)
unfolding remove_stale
remove_stale-Stripped [] t = Stripped-refl t
remove_stale-Stripped (a ∷ xs) t =
    Stripped-trans t (strip_one a t) _ (strip_one-Stripped a t)
      (remove_stale-Stripped xs (strip_one a t))

still_kept : (r s : Rev) → Lost r s → is_stale r ≡ false → is_stale s ≡ false
still_kept r s (inl e) k = subst (λ x. is_stale x ≡ false) (sym e) k
still_kept r s (inr h) k = cc

remove_stale-kept :
    (xs : List ℕ) (t : RevTree) (a : ℕ)
    → has a xs ≡ true
    → is_stale ((remove_stale xs t).heap a) ≡ false
unfolding remove_stale
remove_stale-kept [] t a m = cc
remove_stale-kept (x ∷ xs) t a m = elim (Bool-cases (a == x)) [
  | inl e ↦
      still_kept _ _ ((remove_stale-Stripped xs (strip_one x t)).heap a)
        (subst (λ y. is_stale ((strip_one x t).heap y) ≡ false) (sym ((==_iff a x).0 e))
          (strip_one-own x t))
  | inr e ↦ remove_stale-kept xs (strip_one x t) a (rw e at m)
]

-- `removeNonLeafBodies` touches no revision that is a leaf, new, or kept: every other revision of the tree
-- loses its body, with its flags of a kept body and of attachments, and nothing else; IDs, parents,
-- sequences, the order and the remotes stay.
pub remove_non_leaf_bodies-Stripped :
    (t : RevTree)
    → Stripped t (remove_non_leaf_bodies t)
      × ((a : ℕ) → has a t.revs ≡ true → is_stale ((remove_non_leaf_bodies t).heap a) ≡ false)
unfolding remove_non_leaf_bodies
remove_non_leaf_bodies-Stripped t =
    (remove_stale-Stripped t.revs t, λ a m. remove_stale-kept t.revs t a m)

Lost-SameShape : (r s : Rev) → Lost r s → SameShape r s
Lost-SameShape r s (inl e) = subst (SameShape r) (sym e) (record {
  rev_id = refl;
  parent = refl;
  leaf = refl;
  purge = refl;
})
Lost-SameShape r s (inr (_, e)) = subst (SameShape r) (sym e) (record {
  rev_id = refl;
  parent = refl;
  leaf = refl;
  purge = refl;
})

pub Stripped-IsTree : (F : Fleece) (t u : RevTree) → Stripped t u → IsTree F t → IsTree F u
Stripped-IsTree F t u s v = SameTree-IsTree F t u (record {
  revs = sym s.revs;
  allocated = sym s.allocated;
  remote_revs = sym s.remotes;
  shapes = λ a. Lost-SameShape (t.heap a) (u.heap a) (s.heap a);
}) v
