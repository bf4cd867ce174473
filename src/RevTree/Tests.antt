-- ===== src/RevTree/Tests.antt =====
-- Trees built by the operations, and the theorems at them. An ID is a generation and one more byte.
use cbl.Prelude.{
  ℕ, ◌≡◌, refl, true, false, Option, none, some, List, [], ◌∷◌, slice_eq, arith, ◌<◌, has, ok,
  value_or,
}
use cbl.Fleece.Sample.{sample, read_one}
use cbl.RevId.{generation}
use cbl.RevTree.{no_flags, RevTree, empty_tree, get, history, is_ancestor_of}
use cbl.RevTree.Insert.{insert, insert_history, Outcome, refuse}
use cbl.RevTree.InsertChecked.{insert-IsTree, Outcomes}
use cbl.RevTree.InsertTotal.{insert_total}
use cbl.RevTree.HistoryResult.{insert_history-Recorded, Recorded}
use cbl.RevTree.History.{history_lem, Lineage, Falls}
use cbl.RevTree.PurgeResult.{purge_lem, PurgeOf}
use cbl.RevTree.Order.{current_revision, head?}
use cbl.RevTree.Remove.{purge, is_stale, remove_non_leaf_bodies}
use cbl.RevTree.Sorted.{IsSorted, current_revision_total}
use cbl.RevTree.Stripped.{Stripped, remove_non_leaf_bodies-Stripped}
use cbl.RevTree.WellFormed.{IsTree, empty_tree-IsTree, gen_of}

-- 1-a, 2-b under it, and a branch 2-c.
abbrev pub root : Outcome
root =
    value_or (refuse 0 empty_tree)
      (insert sample 9 (1 ∷ 10 ∷ []) (some (7 ∷ [])) no_flags none false true empty_tree)

abbrev pub child : Outcome
child =
    value_or (refuse 0 empty_tree)
      (insert sample 9 (2 ∷ 11 ∷ []) (some (8 ∷ [])) no_flags (some 0) false true root.tree)

abbrev branch : Outcome
branch =
    value_or (refuse 0 empty_tree)
      (insert sample 9 (2 ∷ 12 ∷ []) none no_flags (some 0) true true child.tree)

branch_is_conflict : (branch.tree.heap 2).is_conflict ≡ true
unfolding insert generation get slice_eq read_one empty_tree
branch_is_conflict = refl

insert-IsTree_example : IsTree sample root.tree
unfolding insert generation get slice_eq read_one empty_tree
insert-IsTree_example =
    insert-IsTree sample 9 (1 ∷ 10 ∷ []) (some (7 ∷ [])) no_flags none false true empty_tree root
      (empty_tree-IsTree sample) (λ q e. cc) refl

only_root : (q : ℕ) → some 0 ≡ some q → has q (0 ∷ []) ≡ true
only_root q e = let same : 0 ≡ q = cc in rw (← same) refl

only_second : (q : ℕ) → some 1 ≡ some q → has q child.tree.revs ≡ true
unfolding insert generation get slice_eq read_one empty_tree
only_second q e = let same : 1 ≡ q = cc in rw (← same) refl

pub child-IsTree : IsTree sample child.tree
unfolding insert generation get slice_eq read_one empty_tree
child-IsTree =
    insert-IsTree sample 9 (2 ∷ 11 ∷ []) (some (8 ∷ [])) no_flags (some 0) false true root.tree
      child insert-IsTree_example (only_root) refl

pub child-enough : (a : ℕ) → has a child.tree.revs ≡ true → gen_of sample (child.tree.heap a).rev_id < 9
unfolding insert generation get slice_eq read_one empty_tree gen_of
child-enough a m = ground arith

history_lem_example :
    (xs : List ℕ) × (history 9 child.tree.heap (some 1) ≡ ok xs)
    × Lineage child.tree.heap (some 1) xs
    × Falls sample child.tree 9 xs
    × ((b : ℕ) → is_ancestor_of 9 child.tree.heap b (some 1) ≡ ok (has b xs))
unfolding insert generation get slice_eq read_one empty_tree
history_lem_example = history_lem sample 9 child.tree 1 child-IsTree child-enough refl

purge_lem_example :
    (m : ℕ) × (u : RevTree) × (purge 9 (2 ∷ 11 ∷ []) child.tree ≡ ok (m, u))
    × PurgeOf sample 1 child.tree m u
unfolding insert generation get slice_eq read_one empty_tree
purge_lem_example = purge_lem sample 9 child.tree 1 child-IsTree child-enough refl refl

-- A history of three, of which the tree has the last.
abbrev recorded : Option ℕ × RevTree
recorded =
    value_or (none, empty_tree)
      (insert_history sample 9 ((3 ∷ 13 ∷ []) ∷ (2 ∷ 12 ∷ []) ∷ (1 ∷ 10 ∷ []) ∷ []) (some (9 ∷ []))
        no_flags true child.tree)

insert_history-Recorded_example : Recorded sample (3 ∷ 13 ∷ []) child.tree recorded
unfolding insert insert_history generation get slice_eq read_one empty_tree gen_of
insert_history-Recorded_example =
    insert_history-Recorded sample 9 (3 ∷ 13 ∷ []) ((2 ∷ 12 ∷ []) ∷ (1 ∷ 10 ∷ []) ∷ [])
      (some (9 ∷ [])) no_flags true child.tree recorded child-IsTree (omega arith) refl

-- A third generation under the second.
insert_total_example :
    (o : Outcome) × (insert sample 9 (3 ∷ 13 ∷ []) none no_flags (some 1) false true child.tree
      ≡ ok o)
    × Outcomes sample 9 (3 ∷ 13 ∷ []) none no_flags (some 1) false true child.tree o
    × IsTree sample o.tree
unfolding insert generation get slice_eq read_one empty_tree
insert_total_example =
    insert_total sample 9 (3 ∷ 13 ∷ []) none no_flags (some 1) false true 3 2 child.tree
      child-IsTree child-enough only_second refl refl refl refl

remove_non_leaf_bodies-Stripped_example :
    Stripped child.tree (remove_non_leaf_bodies child.tree)
    × ((a : ℕ)
      → has a child.tree.revs ≡ true
      → is_stale ((remove_non_leaf_bodies child.tree).heap a) ≡ false)
remove_non_leaf_bodies-Stripped_example = remove_non_leaf_bodies-Stripped child.tree

current_revision_total_example :
    (u : RevTree) × (current_revision sample 9 child.tree ≡ ok (head? sample u.revs, u))
    × IsSorted sample 9 child.tree u
unfolding insert generation get slice_eq read_one empty_tree
current_revision_total_example = current_revision_total sample 9 child.tree refl child-IsTree child-enough
