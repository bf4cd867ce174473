-- ===== src/Checkpoint/Tests.antt =====
-- Runs of a checkpoint with autosave.
use cbl.Prelude.{◌≡◌, refl, true, false, none, some, List, [], ◌∷◌, ◌++◌, Slice}
use cbl.Checkpoint.{Json, Checkpoint, new_checkpoint, set, enable_autosave, save, schedule, encode}
use cbl.Checkpoint.Autosave.{System, run_save, run_finish}

texts : List (Slice × Slice) → Slice
texts [] = []
texts ((key, text) ∷ rest) = key ++ text ++ texts rest

-- A simple text form: keys and texts one after another.
abbrev sample : Json
sample = record { uint = λ n. n ∷ []; dict = texts; get_int = λ _ _. 0; get_json = λ _ _. none }

-- Autosave is enabled, the local sequence is set to 7 and the timer has fired.
abbrev enabled : System
enabled = record {
  checkpoint = enable_autosave new_checkpoint;
  pending = 0;
  in_flight = 0;
  latest = [];
}

abbrev changed : System
changed = record enabled { checkpoint = set (some 7) none enabled.checkpoint }

abbrev fired : System
fired = record changed {
  checkpoint = record (changed.checkpoint) { timer = some false };
  pending = 1;
}

abbrev saving : System
saving = run_save 0 (save sample fired.checkpoint) fired

saving_json : saving.latest ≡ 108 ∷ 111 ∷ 99 ∷ 97 ∷ 108 ∷ 7 ∷ []
unfolding set enable_autosave schedule new_checkpoint encode texts save run_save
saving_json = refl

-- A change, and a `save` before the first one is finished; then it is finished.
abbrev again : System
again = record saving { checkpoint = set (some 8) none saving.checkpoint; pending = 1 }

abbrev late : System
late = run_save 0 (save sample again.checkpoint) again

abbrev done : System
done = run_finish 0 true (record (late.checkpoint) { saving = false }) late
