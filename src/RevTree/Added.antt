-- ===== src/RevTree/Added.antt =====
-- `_insert` keeps a tree well formed.
use cbl.Prelude.{
  ℕ, ◌+◌, ◌<◌, ◌≤◌, ◌≤◌, ◌≡◌, ◌≢◌, refl, sym, ◌∙◌, subst, ◌⊎◌, inl, inr, true, false, not, ◌||◌,
  ◌&&◌, Option, none, some, List, [], ◌∷◌, ◌++◌, arith, has, has-append, All, Distinct, ◌==◌,
  ==_iff, Bool-cases, if◌then◌else◌,
}
use cbl.Fleece.{Fleece}
use cbl.RevTree.{Rev, RevTree, update, points_to, has_child, set_leaf}
use cbl.RevTree.Children.{has_child-cong, has_child-append, childless}
use cbl.RevTree.Insert.{unleaf, allocate, push_back}
use cbl.RevTree.WellFormed.{gen_of, IsTree}

All-lt-append :
    (n a : ℕ) (xs : List ℕ) → n ≤ a → All (λ b. b < n) xs → All (λ b. b < a + 1) (xs ++ a ∷ [])
All-lt-append n a [] le h = (omega arith, tt)
All-lt-append n a (x ∷ xs) le h = (omega arith, All-lt-append n a xs le h.1)

Distinct-append : (a : ℕ) (xs : List ℕ) → has a xs ≡ false → Distinct xs → Distinct (xs ++ a ∷ [])
Distinct-append a [] n d = (refl, tt)
Distinct-append a (x ∷ xs) n d =
    (rw (has-append x xs (a ∷ [])) (ground arith), Distinct-append a xs (ground arith) d.1)

pub not_has-stored : (n : ℕ) (xs : List ℕ) → All (λ b. b < n) xs → has n xs ≡ false
not_has-stored n [] h = refl
not_has-stored n (x ∷ xs) h = ground (arith, not_has-stored n xs)

-- The tree with the new revision `r` under the parent `p`.
abbrev pub added : Option ℕ → Rev → RevTree → RevTree
added p r t = push_back t.allocated (unleaf p (allocate r t))

-- What the insertion does to the new revision and to each old one.
added_new :
    (p : Option ℕ) (r : Rev) (t : RevTree)
    → points_to t.allocated p ≡ false
    → (added p r t).heap t.allocated ≡ r
unfolding push_back unleaf allocate
added_new none r t n = ground arith
added_new (some p) r t n = ground arith

added_old :
    (p : Option ℕ) (r : Rev) (t : RevTree) (b : ℕ)
    → (b == t.allocated) ≡ false
    → (added p r t).heap b ≡ (if points_to b p then set_leaf false (t.heap b) else t.heap b)
unfolding push_back unleaf allocate
added_old none r t b n = rw (n, update) refl
added_old (some p) r t b n = ground arith

last-cases : (b a : ℕ) (xs : List ℕ) → has b (xs ++ a ∷ []) ≡ true → (has b xs ≡ true) ⊎ (b ≡ a)
last-cases b a xs m = ground (arith, has-append b xs (a ∷ []))

module _ (F : Fleece) (p : Option ℕ) (r : Rev) (t : RevTree) (v : IsTree F t)
    (of_parent : r.parent ≡ p)
    (under : (q : ℕ)
      → p ≡ some q
      → (has q t.revs ≡ true) × (gen_of F (t.heap q).rev_id < gen_of F r.rev_id))
    (fresh : (b : ℕ) → has b t.revs ≡ true → (t.heap b).rev_id ≢ r.rev_id) (is_leaf : r.leaf ≡ true)
    (is_unmarked : r.purge ≡ false) where
  not_stored : has t.allocated t.revs ≡ false
  not_stored = not_has-stored t.allocated t.revs v.stored

  not_new : (b : ℕ) → has b t.revs ≡ true → (b == t.allocated) ≡ false
  not_new b m = elim (Bool-cases (b == t.allocated)) [
    | inl e ↦ cc (subst (λ x. has x t.revs ≡ true) ((==_iff b t.allocated).0 e) m, not_stored)
    | inr e ↦ e
  ]

  not_own_parent : (q : Option ℕ) → p ≡ q → points_to t.allocated q ≡ false
  not_own_parent none e = refl
  not_own_parent (some q) e = ground (arith, not_new q (under q e).0)

  pub new : (added p r t).heap t.allocated ≡ r
  new = added_new p r t (not_own_parent p refl)

  old :
      (b : ℕ)
      → has b t.revs ≡ true
      → (added p r t).heap b ≡ (if points_to b p then set_leaf false (t.heap b) else t.heap b)
  old b m = added_old p r t b (not_new b m)

  pub old_id : (b : ℕ) → has b t.revs ≡ true → ((added p r t).heap b).rev_id ≡ (t.heap b).rev_id
  old_id b m = rw (old b m) (ground arith)

  pub old_parent : (b : ℕ) → has b t.revs ≡ true → ((added p r t).heap b).parent ≡ (t.heap b).parent
  old_parent b m = rw (old b m) (ground arith)

  old_purge : (b : ℕ) → has b t.revs ≡ true → ((added p r t).heap b).purge ≡ (t.heap b).purge
  old_purge b m = rw (old b m) (ground arith)

  pub old_leaf :
      (b : ℕ)
      → has b t.revs ≡ true
      → ((added p r t).heap b).leaf ≡ (not (points_to b p) && (t.heap b).leaf)
  old_leaf b m = rw (old b m) (ground arith)

  abbrev grown : ℕ → Rev
  grown = (added p r t).heap

  abbrev members : List ℕ
  members = t.revs ++ t.allocated ∷ []

  abbrev Member : ℕ → Type 0
  Member b = (has b t.revs ≡ true) ⊎ (b ≡ t.allocated)

  still_member : (b : ℕ) → has b t.revs ≡ true → has b members ≡ true
  still_member b m = ground (arith, has-append b t.revs (t.allocated ∷ []))

  parents_case :
      (b q : ℕ)
      → Member b
      → (grown b).parent ≡ some q
      → (has q members ≡ true) × (gen_of F (grown q).rev_id < gen_of F (grown b).rev_id)
  parents_case b q (inl m) e =
      let up = v.parents b q m (sym (old_parent b m) ∙ e) in
      (still_member q up.0, rw (old_id q up.0, old_id b m) up.1)
  parents_case b q (inr b_new) e =
      let own : r.parent ≡ some q = rw (b_new, new) at e in
      let up = under q (sym of_parent ∙ own) in
      (still_member q up.0, rw (b_new, new, old_id q up.0) up.1)

  unique_case : (b c : ℕ) → Member b → Member c → (grown b).rev_id ≡ (grown c).rev_id → b ≡ c
  unique_case b c (inl m) (inl n) e = v.unique b c m n (sym (old_id b m) ∙ e ∙ old_id c n)
  unique_case b c (inl m) (inr c_new) e =
      absurd (fresh b m (sym (old_id b m) ∙ e ∙ rw (c_new, new) refl))
  unique_case b c (inr b_new) (inl n) e =
      absurd (fresh c n (sym (old_id c n) ∙ sym e ∙ rw (b_new, new) refl))
  unique_case b c (inr b_new) (inr c_new) e = b_new ∙ sym c_new

  grown_child : (b : ℕ) → has_child grown b members ≡ (has_child t.heap b t.revs || points_to b p)
  unfolding has_child
  grown_child b =
      has_child-append grown b t.revs (t.allocated ∷ [])
      ∙ rw (has_child-cong grown t.heap b t.revs old_parent, new, of_parent) (ground arith)

  leaves_case : (b : ℕ) → Member b → (grown b).leaf ≡ not (has_child grown b members)
  leaves_case b (inl m) = rw (grown_child b, old_leaf b m, v.leaves b m) (ground arith)
  leaves_case b (inr b_new) =
      rw (b_new, grown_child t.allocated, new, is_leaf, no_child, not_own_parent p refl) refl
    where
      no_child : has_child t.heap t.allocated t.revs ≡ false
      no_child =
          childless t.heap t.allocated t.revs
            λ c m e. cc ((v.parents c t.allocated m e).0, not_stored)

  unmarked_case : (b : ℕ) → Member b → (grown b).purge ≡ false
  unmarked_case b (inl m) = old_purge b m ∙ v.unmarked b m
  unmarked_case b (inr b_new) = rw (b_new, new) is_unmarked

  remotes_case :
      (es : List (ℕ × ℕ))
      → All (λ e. has e.1 t.revs ≡ true) es
      → All (λ e. has e.1 members ≡ true) es
  remotes_case [] h = tt
  remotes_case (e ∷ es) h = (still_member e.1 h.0, remotes_case es h.1)

  member : (b : ℕ) → has b members ≡ true → Member b
  member b m = last-cases b t.allocated t.revs m

  pub added-IsTree : IsTree F (added p r t)
  unfolding push_back unleaf allocate
  added-IsTree = record {
    stored = All-lt-append t.allocated t.allocated t.revs (omega arith) v.stored;
    distinct = Distinct-append t.allocated t.revs not_stored v.distinct;
    parents = λ b q m. parents_case b q (member b m);
    unique = λ b c m n. unique_case b c (member b m) (member c n);
    leaves = λ b m. leaves_case b (member b m);
    unmarked = λ b m. unmarked_case b (member b m);
    remotes = remotes_case t.remote_revs v.remotes;
  }
