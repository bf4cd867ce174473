-- ===== src/RevTree/Remove.antt =====
-- RevTree.cc, removal: bodies, `compact`, `purge`, `purgeAll` and `prune`.
use cbl.Prelude.{
  ℕ, zero, suc, ◌+◌, ◌-◌, Bool, true, false, not, ◌&&◌, ◌||◌, Option, none, some, List, [], ◌∷◌,
  Slice, Result, ok, throws, ◌>>=◌, assertion_failed, out_of_fuel, ltb, leb, ◌==◌, if◌then◌else◌,
  length,
}
use cbl.RevTree.{Rev, RevTree, modify, set_purge, set_parent, get, confirm_leaf}
use cbl.RevTree.Order.{check_for_resolved_conflict}

abbrev pub drop_body : Rev → Rev
drop_body r = record r {
  flags = record (r.flags) { keep_body = false; has_attachments = false };
  body = none;
}

-- `RevTree::removeBody`.
pub remove_body : ℕ → RevTree → RevTree
unfolding modify
remove_body a t = elim (t.heap a).body [
  | none ↦ t
  | some _ ↦ record (modify a drop_body t) { changed = true }
]

unfoldable pub has_bytes : Option Slice → Bool
has_bytes none = false
has_bytes (some []) = false
has_bytes (some (_ ∷ _)) = true

-- A saved revision that is no leaf and whose body nobody asked to keep.
unfoldable pub is_stale : Rev → Bool
unfolding has_bytes
is_stale r = has_bytes r.body && not (r.leaf || (r.is_new || r.keep_body))

unfoldable pub remove_stale : List ℕ → RevTree → RevTree
unfolding is_stale modify
remove_stale [] t = t
remove_stale (a ∷ rest) t =
    remove_stale rest
      (if is_stale (t.heap a) then record (modify a drop_body t) { changed = true } else t)

unfoldable pub remove_non_leaf_bodies : RevTree → RevTree
unfolding remove_stale
remove_non_leaf_bodies t = remove_stale t.revs t

unfoldable pub unpurged : (ℕ → Rev) → List ℕ → List ℕ
unpurged h [] = []
unpurged h (a ∷ rest) = if (h a).purge then unpurged h rest else a ∷ unpurged h rest

unfoldable pub unpurged_remotes : (ℕ → Rev) → List (ℕ × ℕ) → List (ℕ × ℕ)
unpurged_remotes h [] = []
unpurged_remotes h ((k, a) ∷ rest) =
    if (h a).purge then unpurged_remotes h rest else (k, a) ∷ unpurged_remotes h rest

unfoldable pub compact : RevTree → RevTree
unfolding unpurged unpurged_remotes
compact t = record t {
  revs = unpurged t.heap t.revs;
  remote_revs = unpurged_remotes t.heap t.remote_revs;
  changed = true;
}

-- The loop of `purge`: from the leaf up, as long as the parent is left without a child.
unfoldable pub purge_up : ℕ → ℕ → ℕ → RevTree → Result (ℕ × RevTree)
unfolding modify confirm_leaf
purge_up zero n a t = throws out_of_fuel
purge_up (suc fuel) n a t =
    let t₁ = modify a (λ r. set_parent none (set_purge true r)) t in
    elim (t.heap a).parent [
      | none ↦ ok (n + 1, t₁)
      | some p ↦
          let (alone, t₂) = confirm_leaf p t₁ in
          let rest = purge_up fuel (n + 1) p t₂ in if alone then rest else ok (n + 1, t₂)
    ]

unfoldable pub purge_found : ℕ → Option ℕ → RevTree → Result (ℕ × RevTree)
unfolding purge_up compact check_for_resolved_conflict
purge_found fuel none t = ok (0, t)
purge_found fuel (some a) t =
    let rest : Result (ℕ × RevTree) = (do
      (n, t₁) ← purge_up fuel 0 a t
      t₂ ← check_for_resolved_conflict fuel (compact t₁)
      ok (n, t₂)) in
    if (t.heap a).leaf then rest else ok (0, t)

unfoldable pub purge : ℕ → Slice → RevTree → Result (ℕ × RevTree)
unfolding purge_found
purge fuel id t = do a ← get id t; purge_found fuel a t

pub purge_all : RevTree → ℕ × RevTree
purge_all t = (length t.revs, record t { revs = []; changed = true; sorted = true })

-- `prune`, the walk from a leaf: it marks what is more than `max_depth` revisions away.
unfoldable pub mark_deep : ℕ → ℕ → ℕ → Option ℕ → ℕ × RevTree → Result (ℕ × RevTree)
unfolding modify
mark_deep fuel max_depth depth none s = ok s
mark_deep zero max_depth depth (some a) s = throws out_of_fuel
mark_deep (suc fuel) max_depth depth (some a) (n, t) =
    mark_deep fuel max_depth (depth + 1) (t.heap a).parent
      (if ltb max_depth (depth + 1) then (n + 1, modify a (set_purge true) t) else (n, t))

-- `prune`, the loop over the revisions; in a sorted tree it ends at the first that is no leaf.
unfoldable pub mark_from_leaves : ℕ → ℕ → List ℕ → ℕ × RevTree → Result (ℕ × RevTree)
unfolding mark_deep
mark_from_leaves fuel max_depth [] s = ok s
mark_from_leaves fuel max_depth (a ∷ rest) (n, t) =
    let here : Result (ℕ × RevTree) = (do
      s ← mark_deep fuel max_depth 0 (some a) (n, t)
      mark_from_leaves fuel max_depth rest s) in
    let skip = mark_from_leaves fuel max_depth rest (n, t) in
    if (t.heap a).leaf then here else if t.sorted then ok (n, t) else skip

-- The current revision of a remote is not pruned.
unfoldable pub unmark_remotes : List (ℕ × ℕ) → ℕ × RevTree → ℕ × RevTree
unfolding modify
unmark_remotes [] s = s
unmark_remotes ((_, a) ∷ rest) (n, t) =
    unmark_remotes rest (if (t.heap a).purge then (n - 1, modify a (set_purge false) t) else (n, t))

-- The nearest ancestor that stays.
unfoldable pub skip_marked : ℕ → (ℕ → Rev) → Option ℕ → Result (Option ℕ)
skip_marked fuel h none = ok none
skip_marked zero h (some p) = throws out_of_fuel
skip_marked (suc fuel) h (some p) =
    let rest = skip_marked fuel h (h p).parent in if (h p).purge then rest else ok (some p)

unfoldable pub relink : ℕ → List ℕ → RevTree → Result RevTree
unfolding skip_marked modify
relink fuel [] t = ok t
relink fuel (a ∷ rest) t =
    let later = relink fuel rest t in
    let here : Result RevTree = (do
      p ← skip_marked fuel t.heap (t.heap a).parent
      relink fuel rest (modify a (set_parent p) t)) in
    if (t.heap a).purge then later else here

unfoldable pub prune : ℕ → ℕ → RevTree → Result (ℕ × RevTree)
unfolding mark_from_leaves unmark_remotes relink compact
prune fuel max_depth t =
    let rest : Result (ℕ × RevTree) = (do
      (n, t₁) ← mark_from_leaves fuel max_depth t.revs (0, t)
      let (m, t₂) = unmark_remotes t₁.remote_revs (n, t₁)
      let last : Result (ℕ × RevTree) = (do t₃ ← relink fuel t₂.revs t₂; ok (m, compact t₃))
      if n == 0 then ok (0, t₁) else if m == 0 then ok (0, t₂) else last) in
    if max_depth == 0
    then throws assertion_failed
    else if leb (length t.revs) max_depth
    then ok (0, t)
    else rest
