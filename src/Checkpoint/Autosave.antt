-- ===== src/Checkpoint/Autosave.antt =====
-- The checkpoint among its threads: the locked parts of its operations in any order.
use cbl.Prelude.{ℕ, suc, ◌+◌, ◌≡◌, Bool, true, false, Option, none, some, Slice, ok, if◌then◌else◌}
use cbl.Checkpoint.{
  Json, Checkpoint, new_checkpoint, Save, set, encode, enable_autosave, stop_autosave, save, finish,
  is_some, assign,
}

-- `pending` counts the calls of `save` that have not locked yet, `in_flight` the callbacks for which
-- `saved` has not been called, and `latest` is the JSON of the last callback, or of the state at
-- which autosave was enabled.
pub record System : Type 0 where
  pub checkpoint : Checkpoint
  pub pending : ℕ
  pub in_flight : ℕ
  pub latest : Slice

abbrev pub new_system : Slice → System
new_system json = record { checkpoint = new_checkpoint; pending = 0; in_flight = 0; latest = json }

-- One of the pending calls of `save` runs.
unfoldable pub run_save : ℕ → Save → System → System
run_save n v s = record {
  checkpoint = v.after;
  pending = n;
  in_flight = if is_some v.json then s.in_flight + 1 else s.in_flight;
  latest = assign v.json s.latest;
}

unfoldable pub run_finish : ℕ → Bool → Checkpoint → System → System
run_finish n now c s = record s {
  checkpoint = c;
  pending = if now then s.pending + 1 else s.pending;
  in_flight = n;
}

-- A step of some thread. A scheduled timer calls `save` and is then not scheduled; the client may
-- call `save` at any time, `saved` once for each callback, and enables autosave when it is off.
pub data Step (J : Json) (s : System) : System → Type 0 where
  sets :
      (new_local : Option ℕ) (new_remote : Option (Option Slice))
      → Step J s (record s { checkpoint = set new_local new_remote s.checkpoint })
  enables :
      s.checkpoint.timer ≡ none
      → Step J s
          (record s { checkpoint = enable_autosave s.checkpoint; latest = encode J s.checkpoint })
  stops : Step J s (record s { checkpoint = stop_autosave s.checkpoint })
  fires :
      s.checkpoint.timer ≡ some true
      → Step J s (record s {
        checkpoint = record (s.checkpoint) { timer = some false };
        pending = s.pending + 1;
      })
  calls : Step J s (record s { pending = s.pending + 1 })
  saves : (n : ℕ) → s.pending ≡ suc n → Step J s (run_save n (save J s.checkpoint) s)
  finishes :
      (n : ℕ) (now : Bool) (c : Checkpoint)
      → s.in_flight ≡ suc n
      → finish s.checkpoint ≡ ok (now, c)
      → Step J s (run_finish n now c s)

pub data Reach (J : Json) (s : System) : System → Type 0 where
  here : Reach J s s
  next : {t u : System} → Reach J s t → Step J t u → Reach J s u
