-- ===== src/RevTree/HistoryResult.antt =====
-- The contract of `insertHistory`.
use cbl.Prelude.{
  ℕ, ◌+◌, ◌<◌, ◌≡◌, ◌≢◌, refl, sym, subst, inr, Bool, ◌^◌, Option, none, some, List, [], ◌∷◌, Slice,
  arith, All, Result, ok, throws, >>=-eq-ok, ok-injective, length,
}
use cbl.Fleece.{Fleece}
use cbl.RevId.{generation}
use cbl.RevTree.{Flags, RevTree, get}
use cbl.RevTree.Insert.{
  common_ancestor, insert_new, insert_found, insert_history, search_on, prepend,
}
use cbl.RevTree.InsertChecked.{generation-lt}
use cbl.RevTree.InsertHistory.{
  Found, ChainOf, NewAdded, insert_new-NewAdded, common_ancestor-ChainOf,
}
use cbl.RevTree.WellFormed.{gen_of, IsTree}

module _ (F : Fleece) where
  gen_of-lt : (id : Slice) → gen_of F id < 2 ^ 32
  unfolding gen_of
  gen_of-lt id = go (generation F id) refl
    where
      go : (r : Result ℕ) → generation F id ≡ r → gen_of F id < 2 ^ 32
      go (ok g) e = rw e (generation-lt F id e)
      go (throws x) e = rw e (omega arith)

  All-lt : (ids : List Slice) → All (λ id. gen_of F id < 2 ^ 32) ids
  All-lt [] = tt
  All-lt (id ∷ ids) = (gen_of-lt id, All-lt ids)

  -- The first ID is the first to insert, unless the tree has it.
  Heads : Slice → RevTree → Found → Type 0
  Heads id t none = Unit {0}
  Heads id t (some ([], p)) = (a : ℕ) × (get id t ≡ ok (some a))
  Heads id t (some (x ∷ _, p)) = x ≡ id

  search_on-Heads :
      (id : Slice) (t : RevTree) (old : Option ℕ) (more : Result Found) (r : Found)
      → get id t ≡ ok old
      → search_on old id more ≡ ok r
      → Heads id t r
  unfolding search_on Heads
  search_on-Heads id t (some a) more r found e = subst (Heads id t) (ok-injective e) (a, found)
  search_on-Heads id t none more r found e =
      let (s, is_s, last) = >>=-eq-ok more _ e in subst (Heads id t) (ok-injective last) (heads s)
    where
      heads : (s : Found) → Heads id t (prepend id s)
      heads none = tt
      heads (some (new, p)) = refl

  common_ancestor-Heads :
      (id : Slice) (ids : List Slice) (t : RevTree) (r : Found)
      → common_ancestor F 0 (id ∷ ids) t ≡ ok r
      → Heads id t r
  unfolding common_ancestor
  common_ancestor-Heads id ids t r e =
      let (gen, _, rest) = >>=-eq-ok (generation F id) _ e in
      let (old, found, next) = >>=-eq-ok (get id t) _ rest in
      search_on-Heads id t old (common_ancestor F gen ids t) r found next

  -- What `insertHistory` returned: -1 with the tree as it was, or the number of new revisions.
  abbrev pub Recorded : Slice → RevTree → Option ℕ × RevTree → Type 0
  Recorded id t (none, u) = u ≡ t
  Recorded id t (some n, u) =
      IsTree F u × (length u.revs ≡ length t.revs + n) × ((a : ℕ) × (get id u ≡ ok (some a)))

  recorded :
      (id : Slice) (new : List Slice) (p : Option ℕ) (t u : RevTree)
      → Heads id t (some (new, p))
      → (new ≡ [] → u ≡ t)
      → NewAdded F (length new) new t u
      → Recorded id t (some (length new), u)
  unfolding Heads
  recorded id [] p t u (a, found) same w = (w.added_tree, w.added_count, (a, rw (same refl) found))
  recorded id (x ∷ new) p t u is_id same w =
      (w.added_tree, w.added_count, rw (← is_id) w.added_head)

  insert_new-nil :
      (fuel : ℕ) (body : Option Slice) (flags : Flags) (p : Option ℕ) (mark : Bool)
      (new : List Slice) (t u : RevTree)
      → insert_new fuel new body flags p mark t ≡ ok u
      → new ≡ []
      → u ≡ t
  unfolding insert_new
  insert_new-nil fuel body flags p mark [] t u e nil = sym (ok-injective e)
  insert_new-nil fuel body flags p mark (x ∷ new) t u e nil = cc

  insert_found-Recorded :
      (fuel g : ℕ) (id : Slice) (r : Found) (body : Option Slice) (flags : Flags) (mark : Bool)
      (t : RevTree) (out : Option ℕ × RevTree)
      → IsTree F t
      → Heads id t r
      → ChainOf F g r t
      → insert_found fuel r body flags mark t ≡ ok out
      → Recorded id t out
  unfolding insert_found
  insert_found-Recorded fuel g id none body flags mark t out v h c e =
      subst (Recorded id t) (ok-injective e) refl
  insert_found-Recorded fuel g id (some (new, p)) body flags mark t out v h c e =
      let (u, inserted, last) = >>=-eq-ok (insert_new fuel new body flags p mark t) _ e in
      subst (Recorded id t) (ok-injective last) (
        recorded id new p t u h (insert_new-nil fuel body flags p mark new t u inserted)
          (insert_new-NewAdded F fuel g new body flags p mark t u v c inserted))

  -- If `insertHistory` returns, and every ID of the history has a generation other than 0, then
  -- either it returned -1 and the tree is as it was, or it returned the number of revisions by which
  -- the tree has grown, the tree is well formed and has the history's first ID.
  pub insert_history-Recorded :
      (fuel : ℕ) (id : Slice) (ids : List Slice) (body : Option Slice) (flags : Flags) (mark : Bool)
      (t : RevTree) (out : Option ℕ × RevTree)
      → IsTree F t
      → All (λ x. gen_of F x ≢ 0) (id ∷ ids)
      → insert_history F fuel (id ∷ ids) body flags mark t ≡ ok out
      → Recorded id t out
  unfolding insert_history
  insert_history-Recorded fuel id ids body flags mark t out v valid e =
      let (r, found, rest) = >>=-eq-ok (common_ancestor F 0 (id ∷ ids) t) _ e in
      insert_found-Recorded fuel (2 ^ 32) id r body flags mark t out v
        (common_ancestor-Heads id ids t r found)
        (common_ancestor-ChainOf F 0 (2 ^ 32) (id ∷ ids) r t (inr (refl, All-lt (id ∷ ids))) valid
          found)
        rest
