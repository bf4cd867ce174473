-- ===== src/SequenceSet/Tests.antt =====
-- Runs of a sequence set.
use cbl.Prelude.{◌≡◌, refl, true, List, [], ◌∷◌}
use cbl.SequenceSet.{
  Call, adds, removes, sees, assigns, run, empty_set, contains, insert, erase, step, add, remove,
  seen, set, empty,
}
use cbl.SequenceSet.Contract.{contains-run, first-run, IsLeast}

abbrev calls : List Call
calls = adds 7 ∷ adds 3 ∷ sees 12 ∷ assigns 5 true ∷ removes 3 ∷ []

runs : (run empty_set calls).sequences ≡ 5 ∷ 7 ∷ []
unfolding run step add remove seen set empty_set insert erase
runs = refl

contains-run_example : contains (run empty_set calls) 5 ≡ true
contains-run_example = contains-run calls 5

first-run_example : IsLeast (run empty_set calls)
unfolding run step add remove seen set empty_set insert erase empty
first-run_example = first-run calls refl
