-- ===== src/RevTree/Order.antt =====
-- RevTree.cc: conflict marks, the order of the revisions, `sort`, `currentRevision`, `hasConflict`,
-- `saved` and the remotes.
use cbl.Prelude.{
  ℕ, zero, suc, ◌+◌, Bool, true, false, not, Option, none, some, List, [], ◌∷◌, Slice, Result, ok,
  throws, ◌>>=◌, assertion_failed, out_of_fuel, ltb, ◌==◌, if◌then◌else◌,
}
use cbl.Fleece.{Fleece}
use cbl.RevId.{less}
use cbl.RevTree.{Rev, RevTree, is_active, modify, set_conflict, set_new}

abbrev pub same : Bool → Bool → Bool
same true b = b
same false b = not b

-- `markBranchAsConflict`: up the branch, as long as the mark differs.
unfoldable pub mark_branch : ℕ → Bool → Option ℕ → RevTree → Result RevTree
unfolding modify
mark_branch fuel c none t = ok t
mark_branch zero c (some a) t = throws out_of_fuel
mark_branch (suc fuel) c (some a) t =
    let rest =
      mark_branch fuel c (t.heap a).parent
        (record (modify a (set_conflict c) t) { changed = true }) in
    if same (t.heap a).is_conflict c then ok t else rest

unfoldable pub first_conflict : List ℕ → ℕ → RevTree → Result RevTree
unfolding mark_branch
first_conflict [] fuel t = ok t
first_conflict (a ∷ _) fuel t =
    let marked = mark_branch fuel false (some a) t in
    if (t.heap a).is_conflict then marked else ok t

unfoldable pub check_for_resolved_conflict : ℕ → RevTree → Result RevTree
unfolding first_conflict
check_for_resolved_conflict fuel t =
    let marked = first_conflict t.revs fuel t in if t.sorted then marked else ok t

-- One criterion of `compareRevs`: the revision where the test fails goes first.
abbrev pub fails_first : Bool → Bool → Bool → Bool
fails_first false true rest = true
fails_first true false rest = false
fails_first false false rest = rest
fails_first true true rest = rest

-- An ID that `less` rejects by an exception compares as not less.
abbrev holds : Result Bool → Bool
holds (ok b) = b
holds (throws _) = false

module _ (F : Fleece) where
  unfoldable pub id_less : Slice → Slice → Bool
  unfolding less
  id_less a b = holds (less F a b)

  -- Does the first go before the second?
  unfoldable pub compare_revs : Rev → Rev → Bool
  unfolding id_less
  compare_revs r s = fails_first (not r.leaf) (not s.leaf) (
      fails_first r.is_conflict s.is_conflict (
        fails_first r.deleted s.deleted
          (fails_first r.closed s.closed (id_less s.rev_id r.rev_id))))

  -- `std::sort` by that order.
  unfoldable pub insert_sorted : (ℕ → Rev) → ℕ → List ℕ → List ℕ
  unfolding compare_revs
  insert_sorted h a [] = a ∷ []
  insert_sorted h a (b ∷ rest) =
      if compare_revs (h b) (h a) then b ∷ insert_sorted h a rest else a ∷ b ∷ rest

  unfoldable pub sort_revs : (ℕ → Rev) → List ℕ → List ℕ
  unfolding insert_sorted
  sort_revs h [] = []
  sort_revs h (a ∷ rest) = insert_sorted h a (sort_revs h rest)

  unfoldable pub sort : ℕ → RevTree → Result RevTree
  unfolding sort_revs check_for_resolved_conflict
  sort fuel t =
      let rest =
        check_for_resolved_conflict fuel
          (record t { revs = sort_revs t.heap t.revs; sorted = true }) in
      if t.sorted then ok t else rest

  unfoldable pub head? : List ℕ → Option ℕ
  head? [] = none
  head? (a ∷ _) = some a

  unfoldable pub current_revision : ℕ → RevTree → Result (Option ℕ × RevTree)
  unfolding sort head?
  current_revision fuel t =
      let rest : Result (Option ℕ × RevTree) = (do t₁ ← sort fuel t; ok (head? t₁.revs, t₁)) in
      if t.unknown then throws assertion_failed else rest

-- The count of active revisions that the loop of `hasConflict` makes, cut off at the second.
unfoldable pub count_active : (ℕ → Rev) → List ℕ → ℕ
count_active h [] = 0
count_active h (a ∷ rest) = (if is_active (h a) then 1 else 0) + count_active h rest

unfoldable pub conflict_among : RevTree → List ℕ → Result Bool
unfolding count_active
conflict_among t [] = if t.unknown then throws assertion_failed else ok false
conflict_among t (_ ∷ []) = if t.unknown then throws assertion_failed else ok false
conflict_among t (a ∷ b ∷ rest) =
    ok (if t.sorted then is_active (t.heap b) else ltb 1 (count_active t.heap (a ∷ b ∷ rest)))

unfoldable pub has_conflict : RevTree → Result Bool
unfolding conflict_among
has_conflict t = conflict_among t t.revs

-- `saved`: nothing is new any more, and what had no sequence gets this one.
unfoldable pub saved_rev : ℕ → Rev → Rev
saved_rev seq r = record (set_new false r) {
  sequence = if r.sequence == 0 then seq else r.sequence;
}

save_all : ℕ → List ℕ → RevTree → RevTree
unfolding saved_rev modify
save_all seq [] t = t
save_all seq (a ∷ rest) t = save_all seq rest (modify a (saved_rev seq) t)

unfoldable pub saved : ℕ → RevTree → RevTree
unfolding save_all
saved seq t = save_all seq t.revs t

find_remote : ℕ → List (ℕ × ℕ) → Option ℕ
find_remote k [] = none
find_remote k ((j, a) ∷ rest) = if j == k then some a else find_remote k rest

erase_remote : ℕ → List (ℕ × ℕ) → List (ℕ × ℕ)
erase_remote k [] = []
erase_remote k ((j, a) ∷ rest) = if j == k then rest else (j, a) ∷ erase_remote k rest

-- Remote 0 is no remote.
unfoldable pub latest_revision_on_remote : ℕ → RevTree → Result (Option ℕ)
unfolding find_remote
latest_revision_on_remote k t =
    if k == 0 then throws assertion_failed else ok (find_remote k t.remote_revs)

with_remote : ℕ → Option ℕ → List (ℕ × ℕ) → List (ℕ × ℕ)
unfolding erase_remote
with_remote k none m = erase_remote k m
with_remote k (some a) m = (k, a) ∷ erase_remote k m

unfoldable pub set_latest_revision_on_remote : ℕ → Option ℕ → RevTree → Result RevTree
unfolding with_remote
set_latest_revision_on_remote k rev t =
    if k == 0
    then throws assertion_failed
    else ok (record t { remote_revs = with_remote k rev t.remote_revs; changed = true })
