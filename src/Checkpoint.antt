-- ===== src/Checkpoint.antt =====
-- Replicator/Checkpoint.cc and .hh: the replicator's checkpoint and its autosave.
pub mod Autosave
pub mod AutosaveSafe
pub mod AutosaveReach
pub mod Tests
use cbl.Prelude.{
  ℕ, Bool, true, false, not, ◌&&◌, ◌||◌, Option, none, some, List, [], ◌∷◌, ◌++◌, Slice, slice_eq,
  Result, ok, throws, ◌>>=◌, null_pointer, ltb, ◌==◌, if◌then◌else◌,
}

-- The calls of Fleece's JSON encoder and decoder, which are in vendor/fleece.
pub record Json : Type 0 where
  -- The text of a number (`writeUInt`), and of a dictionary of keys and texts.
  pub uint : ℕ → Slice
  pub dict : List (Slice × Slice) → Slice
  -- `Doc::fromJSON(json)[key]` as a number, cast to an unsigned one, and as a text.
  pub get_int : Slice → Slice → ℕ
  pub get_json : Slice → Slice → Option Slice

-- The keys "local" and "remote".
abbrev pub local_key : Slice
local_key = 108 ∷ 111 ∷ 99 ∷ 97 ∷ 108 ∷ []

abbrev pub remote_key : Slice
remote_key = 114 ∷ 101 ∷ 109 ∷ 111 ∷ 116 ∷ 101 ∷ []

-- `timer` is the autosave's timer, if there is one: whether it is scheduled.
pub record Checkpoint : Type 0 where
  pub local : ℕ
  pub remote : Option Slice
  pub changed : Bool
  pub saving : Bool
  pub overdue : Bool
  pub timer : Option Bool

pub new_checkpoint : Checkpoint
new_checkpoint = record {
  local = 0;
  remote = none;
  changed = false;
  saving = false;
  overdue = false;
  timer = none;
}

pub sequences : Checkpoint → ℕ × Option Slice
sequences c = (c.local, c.remote)

abbrev pub assign {ℓ} : {A : Type ℓ} → Option A → A → A
assign none old = old
assign (some new) old = new

-- `fireAfter`, unless a save is in progress or the timer is scheduled.
unfoldable pub schedule : Bool → Option Bool → Option Bool
schedule saving none = none
schedule saving (some on) = if not saving && not on then some true else some on

abbrev pub is_some {ℓ} : {A : Type ℓ} → Option A → Bool
is_some none = false
is_some (some _) = true

-- A null pointer for a sequence leaves it as it is; the remote one may be set to null.
unfoldable pub set : Option ℕ → Option (Option Slice) → Checkpoint → Checkpoint
unfolding schedule
set new_local new_remote c = record c {
  local = assign new_local c.local;
  remote = assign new_remote c.remote;
  changed = is_some c.timer || c.changed;
  timer = schedule c.saving c.timer;
}

abbrev bytes : Option Slice → Slice
bytes none = []
bytes (some s) = s

-- Slices are compared by their bytes, so that a null one is equal to an empty one.
pub validate_with : Checkpoint → Checkpoint → Bool × Checkpoint
unfolding sequences
validate_with its c =
    let (its_local, its_remote) = sequences its in
    let wrong_local = ltb 0 c.local && not (c.local == its_local) in
    let wrong_remote = is_some c.remote && not (slice_eq (bytes c.remote) (bytes its_remote)) in
    (
      not wrong_local && not wrong_remote,
      record c {
        local = if wrong_local then 0 else c.local;
        remote = if wrong_remote then none else c.remote;
      },
    )

module _ (J : Json) where
  pub decode_from : Option Slice → Checkpoint → Checkpoint
  decode_from none c = record c { local = 0; remote = none }
  decode_from (some json) c = record c {
    local = J.get_int json local_key;
    remote = J.get_json json remote_key;
  }

  abbrev remote_entry : Option Slice → List (Slice × Slice)
  remote_entry none = []
  remote_entry (some json) = (remote_key, json) ∷ []

  pub encode : Checkpoint → Slice
  encode c =
      J.dict
        ((if c.local == 0 then [] else (local_key, J.uint c.local) ∷ []) ++ remote_entry c.remote)

-- A new timer, not scheduled.
unfoldable pub enable_autosave : Checkpoint → Checkpoint
enable_autosave c = record c { timer = some false }

unfoldable pub stop_autosave : Checkpoint → Checkpoint
stop_autosave c = record c { timer = none; changed = false }

-- What `save` returns, the JSON with which it calls the callback, if it does, and the checkpoint.
pub record Save : Type 0 where
  pub returned : Bool
  pub json : Option Slice
  pub after : Checkpoint

unfoldable pub save : Json → Checkpoint → Save
unfolding encode
save J c =
    if not c.changed || not (is_some c.timer)
    then record { returned = true; json = none; after = c }
    else if c.saving
    then record { returned = false; json = none; after = record c { overdue = true } }
    else record {
      returned = true;
      json = some (encode J c);
      after = record c { changed = false; saving = true };
    }

unfoldable pub fire_after : Checkpoint → Option Bool → Result (Bool × Checkpoint)
fire_after c none = throws null_pointer
fire_after c (some _) = ok (false, record c { timer = some true })

-- The locked part of `saved`, and whether `save` is to be called after it.
unfoldable pub finish : Checkpoint → Result (Bool × Checkpoint)
unfolding fire_after
finish c =
    if not c.saving
    then ok (false, c)
    else if c.overdue
    then ok (true, record c { saving = false })
    else if c.changed
    then fire_after (record c { saving = false }) c.timer
    else ok (false, record c { saving = false })

pub saved : Json → Checkpoint → Result (Option Slice × Checkpoint)
unfolding finish save
saved J c = do
  (now, c₁) ← finish c
  let s = save J c₁
  ok (if now then (s.json, s.after) else (none, c₁))

pub is_unsaved : Checkpoint → Bool
is_unsaved c = c.changed || c.saving
