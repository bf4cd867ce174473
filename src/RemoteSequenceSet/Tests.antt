-- ===== src/RemoteSequenceSet/Tests.antt =====
-- Runs of a set of remote sequences, each sequence one byte.
use cbl.Prelude.{◌≡◌, refl, true, List, [], ◌∷◌, slice_eq, arith}
use cbl.Fleece.Sample.{sample, bytes_less}
use cbl.RemoteSequenceSet.{
  new_set, clear, empty, find, since, insert, erase, add, scan, find_first, remove, remove_found,
}
use cbl.RemoteSequenceSet.Queue.{Call, adds, removes, push, take}
use cbl.RemoteSequenceSet.Runs.{since-run, remove-earliest, set_after}

-- 5, 9 and 3 are added after 1, and 5, the earliest, is removed.
abbrev calls : List Call
calls = adds (5 ∷ []) 100 ∷ adds (9 ∷ []) 200 ∷ adds (3 ∷ []) 300 ∷ removes (5 ∷ []) ∷ []

since-run_example : since (set_after sample (1 ∷ []) calls) ≡ 5 ∷ []
unfolding push take find erase slice_eq
since-run_example = since-run sample (1 ∷ []) calls (omega arith)

since_runs : since (set_after sample (1 ∷ []) calls) ≡ 5 ∷ []
unfolding new_set clear empty find since insert erase add scan find_first remove remove_found
    slice_eq bytes_less
since_runs = refl

remove-earliest_example : (remove (9 ∷ []) (set_after sample (1 ∷ []) calls)).was_earliest ≡ true
unfolding push take find erase slice_eq
remove-earliest_example = remove-earliest sample (1 ∷ []) calls (9 ∷ []) (omega arith)
