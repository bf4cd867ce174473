-- ===== src/RevTree/InsertHistory.antt =====
-- `insertHistory` keeps a tree well formed, and adds what the history has above the common ancestor.
use cbl.Prelude.{
  ℕ, suc, ◌+◌, ◌-◌, ◌<◌, ◌≤◌, ◌≡◌, ◌≢◌, refl, sym, ap, ◌∙◌, subst, ◌⊎◌, inl, inr, Bool, true, not,
  ◌&&◌, Option, none, some, List, [], ◌∷◌, Slice, arith, has, All, Result, ok, >>=-eq-ok,
  ok-injective, if-cases, ltb, ◌==◌, length, length-append,
}
use cbl.Fleece.{Fleece}
use cbl.RevId.{generation}
use cbl.RevTree.{Flags, no_flags, RevTree, get}
use cbl.RevTree.Insert.{
  insert_rev, common_ancestor, insert_ancestors, insert_new, prepend, search_on,
}
use cbl.RevTree.InsertChecked.{generation-gen_of}
use cbl.RevTree.InsertMembers.{
  insert_rev-revs, insert_rev-has, insert_rev-new, insert_rev-cases, insert_rev-get,
}
use cbl.RevTree.Inserted.{insert_rev-IsTree, Fresh}
use cbl.RevTree.Lookup.{get-some, get-none}
use cbl.RevTree.WellFormed.{gen_of, IsTree}

-- What the search of `insertHistory` returns.
abbrev pub Found : Type 0
Found = Option (List Slice × Option ℕ)

-- The tree has a revision with the newest ID, if there is one to insert.
abbrev pub HasHead : List Slice → RevTree → Type 0
HasHead [] u = Unit {0}
HasHead (id ∷ _) u = (a : ℕ) × (get id u ≡ ok (some a))

module _ (F : Fleece) where
  -- New IDs, newest first, whose generations fall from below `g` down to the parent's.
  abbrev pub Chain : ℕ → List Slice → Option ℕ → RevTree → Type 0
  Chain g [] p t = (q : ℕ) → p ≡ some q → (has q t.revs ≡ true) × (gen_of F (t.heap q).rev_id < g)
  Chain g (id ∷ ids) p t = (gen_of F id < g) × Fresh id t × Chain (gen_of F id) ids p t

  abbrev pub ChainOf : ℕ → Option (List Slice × Option ℕ) → RevTree → Type 0
  ChainOf g none t = Unit {0}
  ChainOf g (some (new, p)) t = Chain g new p t

  -- IDs that the insertion of a chain below `g` leaves unused.
  abbrev Spares : ℕ → RevTree → RevTree → Type 0
  Spares g t u = (id : Slice) → g ≤ gen_of F id → Fresh id t → Fresh id u

  record Grown (g : ℕ) (n : ℕ) (p : Option ℕ) (t u : RevTree) : Type 0 where
    well_formed : IsTree F u
    hook : Chain g [] p u
    spares : Spares g t u
    count : length u.revs ≡ length t.revs + n

  one_more :
      (g n fuel : ℕ) (id : Slice) (body : Option Slice) (p : Option ℕ) (flags : Flags) (mark : Bool)
      (t t₁ u : RevTree) (a : ℕ)
      → Grown (gen_of F id) n p t t₁
      → gen_of F id < g
      → Fresh id t
      → insert_rev fuel id body p flags mark t₁ ≡ ok (a, u)
      → Grown g (suc n) (some a) t u
  one_more g n fuel id body p flags mark t t₁ u a w below fresh e =
      let fresh₁ = w.spares id (omega arith) fresh in
      let it = insert_rev-new F fuel id body p flags mark t₁ u a w.well_formed w.hook fresh₁ e in
      let revs = insert_rev-revs F fuel id body p flags mark t₁ u a w.well_formed w.hook fresh₁ e in
      record {
        well_formed =
            insert_rev-IsTree F fuel id body p flags mark t₁ u a w.well_formed w.hook fresh₁ e;
        hook = λ q is_q.
            let same : a ≡ q = cc in
            rw (← same) (
              insert_rev-has F fuel id body p flags mark t₁ u a w.well_formed w.hook fresh₁ e,
              rw (it.0) below,
            );
        spares = λ id' above new b m x.
            elim (insert_rev-cases F fuel id body p flags mark t₁ u a w.well_formed w.hook fresh₁ e
              b m) [
                | inl (h, old) ↦ w.spares id' (omega arith) new b h (sym old ∙ x)
                | inr own ↦ absurd (omega (arith, ap (gen_of F) (sym own ∙ x)))
              ];
        count = omega (arith, ap length revs, length-append t₁.revs (a ∷ []), w.count);
      }

  insert_ancestors-Grown :
      (fuel g : ℕ) (ids : List Slice) (p p' : Option ℕ) (mark : Bool) (t u : RevTree)
      → IsTree F t
      → Chain g ids p t
      → insert_ancestors fuel ids p mark t ≡ ok (p', u)
      → Grown g (length ids) p' t u
  unfolding insert_ancestors
  insert_ancestors-Grown fuel g [] p p' mark t u v c e =
      let same = ok-injective e in
      subst (λ (s : Option ℕ × RevTree). Grown g 0 s.0 t s.1) same
        (record { well_formed = v; hook = c; spares = λ id above new. new; count = omega arith })
  insert_ancestors-Grown fuel g (id ∷ ids) p p' mark t u v c e =
      let ((p₁, t₁), first, rest) = >>=-eq-ok (insert_ancestors fuel ids p mark t) _ e in
      let ((a, t₂), second, last) =
        >>=-eq-ok (insert_rev fuel id none p₁ no_flags mark t₁) _ rest in
      let same = ok-injective last in
      subst (λ (s : Option ℕ × RevTree). Grown g (suc (length ids)) s.0 t s.1) same
        (one_more g (length ids) fuel id none p₁ no_flags mark t t₁ t₂ a
          (insert_ancestors-Grown fuel (gen_of F id) ids p p₁ mark t t₁ v c.2 first) c.0 c.1 second)

  pub record NewAdded (n : ℕ) (ids : List Slice) (t u : RevTree) : Type 0 where
    pub added_tree : IsTree F u
    pub added_count : length u.revs ≡ length t.revs + n
    pub added_head : HasHead ids u

  pub insert_new-NewAdded :
      (fuel g : ℕ) (ids : List Slice) (body : Option Slice) (flags : Flags) (p : Option ℕ)
      (mark : Bool) (t u : RevTree)
      → IsTree F t
      → Chain g ids p t
      → insert_new fuel ids body flags p mark t ≡ ok u
      → NewAdded (length ids) ids t u
  unfolding insert_new
  insert_new-NewAdded fuel g [] body flags p mark t u v c e =
      subst (NewAdded 0 [] t) (ok-injective e)
        (record { added_tree = v; added_count = omega arith; added_head = tt })
  insert_new-NewAdded fuel g (id ∷ ids) body flags p mark t u v c e =
      let ((p₁, t₁), first, rest) = >>=-eq-ok (insert_ancestors fuel ids p mark t) _ e in
      let ((a, t₂), second, last) = >>=-eq-ok (insert_rev fuel id body p₁ flags mark t₁) _ rest in
      let w = insert_ancestors-Grown fuel (gen_of F id) ids p p₁ mark t t₁ v c.2 first in
      let w' = one_more g (length ids) fuel id body p₁ flags mark t t₁ t₂ a w c.0 c.1 second in
      subst (NewAdded (suc (length ids)) (id ∷ ids) t) (ok-injective last) (record {
        added_tree = w'.well_formed;
        added_count = w'.count;
        added_head = (
          a,
          insert_rev-get F fuel id body p₁ flags mark t₁ t₂ a w.well_formed w.hook
              (w.spares id (omega arith) c.1) second,
        );
      })

  -- What the search finds is a chain on the common ancestor.
  Chain-none : (g : ℕ) (t : RevTree) → Chain g [] none t
  Chain-none g t q e = cc

  on_found :
      (gen last : ℕ) (id : Slice) (t : RevTree) (a : ℕ)
      → gen_of F id ≡ gen
      → gen < last
      → get id t ≡ ok (some a)
      → Chain last [] (some a) t
  on_found gen last id t a is_gen low found q e =
      let (m, same) = get-some id t found in
      let is_q : a ≡ q = cc in rw (← is_q) (m, rw same (omega arith))

  prepend-ChainOf :
      (gen last : ℕ) (id : Slice) (t : RevTree) (r : Found)
      → gen_of F id ≡ gen
      → gen < last
      → Fresh id t
      → ChainOf gen r t
      → ChainOf last (prepend id r) t
  prepend-ChainOf gen last id t none is_gen low fresh c = tt
  prepend-ChainOf gen last id t (some (new, p)) is_gen low fresh c =
      (omega arith, fresh, rw is_gen c)

  search_on-ChainOf :
      (gen last : ℕ) (id : Slice) (t : RevTree) (old : Option ℕ) (more : Result Found) (r : Found)
      → gen_of F id ≡ gen
      → gen < last
      → get id t ≡ ok old
      → ((s : Found) → more ≡ ok s → ChainOf gen s t)
      → search_on old id more ≡ ok r
      → ChainOf last r t
  unfolding search_on
  search_on-ChainOf gen last id t (some a) more r is_gen low found ih e =
      subst (λ s. ChainOf last s t) (ok-injective e) (on_found gen last id t a is_gen low found)
  search_on-ChainOf gen last id t none more r is_gen low found ih e =
      let (s, is_s, last_step) = >>=-eq-ok more _ e in
      subst (λ x. ChainOf last x t) (ok-injective last_step)
        (prepend-ChainOf gen last id t s is_gen low (λ b. get-none id t b found) (ih s is_s))

  -- `last` is the generation before, or any greater one at the start of the search.
  pub common_ancestor-ChainOf :
      (last g : ℕ) (ids : List Slice) (r : Found) (t : RevTree)
      → (0 < last) × (last ≡ g) ⊎ (last ≡ 0) × All (λ id. gen_of F id < g) ids
      → All (λ id. gen_of F id ≢ 0) ids
      → common_ancestor F last ids t ≡ ok r
      → ChainOf g r t
  unfolding common_ancestor
  common_ancestor-ChainOf last g [] r t bound valid e =
      subst (λ s. ChainOf g s t) (ok-injective e) (Chain-none g t)
  common_ancestor-ChainOf last g (id ∷ ids) r t bound valid e =
      let (gen, is_gen, rest) = >>=-eq-ok (generation F id) _ e in
      let is_gen' : gen_of F id ≡ gen = generation-gen_of F id is_gen in
      elim (if-cases (ltb 0 last && not (gen == last - 1)) _ _ rest) [
        | inl (_, bad) ↦ subst (λ s. ChainOf g s t) (ok-injective bad) tt
        | inr (in_sequence, more) ↦
            let (old, found, next) = >>=-eq-ok (get id t) _ more in
            let low : gen < g = ground arith in
            search_on-ChainOf gen g id t old (common_ancestor F gen ids t) r is_gen' low found
              (λ s is_s.
                common_ancestor-ChainOf gen gen ids s t (inl (ground arith, refl)) valid.1 is_s)
              next
      ]
