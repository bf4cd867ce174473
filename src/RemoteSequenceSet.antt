-- ===== src/RemoteSequenceSet.antt =====
-- LiteCore/Support/RemoteSequenceSet.hh. A sequence is its bytes; a null one is equal to no bytes.
pub mod Entries
pub mod FindFirst
pub mod Queue
pub mod Refinement
pub mod Runs
pub mod Tests
use cbl.Prelude.{
  ℕ, ◌+◌, ◌-◌, ◌%◌, ◌^◌, Bool, true, false, Option, none, some, List, [], ◌∷◌, Slice, slice_eq, ltb,
  ◌==◌, if◌then◌else◌, length,
}
use cbl.Fleece.{Fleece}

-- An element of the map, with its key.
pub record Entry : Type 0 where
  pub key : Slice
  pub order : ℕ
  pub prev_sequence : Slice
  pub body_size : ℕ

-- The map in the order of its keys. The iterator `_first` is the key at which it stands, or `none`
-- at the end.
pub record RemoteSequenceSet : Type 0 where
  pub sequences : List Entry
  pub next_order : ℕ
  pub last_added : Slice
  pub first : Option Slice

pub new_set : RemoteSequenceSet
new_set = record { sequences = []; next_order = 0; last_added = []; first = none }

unfoldable pub clear : Slice → RemoteSequenceSet → RemoteSequenceSet
clear since s = record { sequences = []; next_order = 0; last_added = since; first = none }

abbrev pub is_nil : List Entry → Bool
is_nil [] = true
is_nil (_ ∷ _) = false

unfoldable pub empty : RemoteSequenceSet → Bool
empty s = is_nil s.sequences

pub size : RemoteSequenceSet → ℕ
size s = length s.sequences

unfoldable pub find : Slice → List Entry → Option Entry
find key [] = none
find key (x ∷ xs) = if slice_eq key x.key then some x else find key xs

abbrev pub prev_or : Slice → Option Entry → Slice
prev_or last none = last
prev_or last (some e) = e.prev_sequence

abbrev pub find_at : Option Slice → List Entry → Option Entry
find_at none xs = none
find_at (some key) xs = find key xs

unfoldable pub since : RemoteSequenceSet → Slice
unfolding find
since s = prev_or s.last_added (find_at s.first s.sequences)

-- The place of a new key.
unfoldable pub insert : Fleece → Entry → List Entry → List Entry
insert F e [] = e ∷ []
insert F e (x ∷ xs) = if F.slice_less e.key x.key then e ∷ x ∷ xs else x ∷ insert F e xs

-- `std::map::insert`: nothing happens if the key is there.
abbrev pub insert_unless : Fleece → Entry → Option Entry → List Entry → List Entry
insert_unless F e none xs = insert F e xs
insert_unless F e (some _) xs = xs

unfoldable pub erase : Slice → List Entry → List Entry
erase key [] = []
erase key (x ∷ xs) = if slice_eq key x.key then xs else x ∷ erase key xs

unfoldable pub add : Fleece → Slice → ℕ → RemoteSequenceSet → RemoteSequenceSet
unfolding empty find insert
add F key body_size s =
    let e : Entry = record {
      key = key;
      order = s.next_order;
      prev_sequence = s.last_added;
      body_size = body_size;
    } in
    record {
      sequences = insert_unless F e (find key s.sequences) s.sequences;
      next_order = (s.next_order + 1) % 2 ^ 64;
      last_added = key;
      first = if empty s then some key else s.first;
    }

-- The loop of `findFirst`, with the least order so far and the key that has it.
unfoldable pub scan : ℕ → ℕ → Option Slice → List Entry → Option Slice
scan min_in_set min_so_far first [] = first
scan min_in_set min_so_far first (x ∷ xs) =
    let found = scan min_in_set x.order (some x.key) xs in
    let rest = scan min_in_set min_so_far first xs in
    if ltb x.order min_so_far then (if x.order == min_in_set then some x.key else found) else rest

unfoldable pub find_first : ℕ → List Entry → Option Slice
unfolding scan
find_first min_in_set xs = scan min_in_set (2 ^ 64 - 1) none xs

-- What `remove` reports, and the set.
pub record Removal : Type 0 where
  pub was_earliest : Bool
  pub body_size : ℕ
  pub set : RemoteSequenceSet

abbrev pub is_at : Option Slice → Slice → Bool
is_at none key = false
is_at (some k) key = slice_eq k key

unfoldable pub remove_found : Slice → Option Entry → RemoteSequenceSet → Removal
unfolding erase find_first
remove_found key none s = record { was_earliest = false; body_size = 0; set = s }
remove_found key (some e) s =
    let earliest = is_at s.first key in
    let left = erase key s.sequences in
    record {
      was_earliest = earliest;
      body_size = e.body_size;
      set = record s {
        sequences = left;
        first = if earliest then find_first ((e.order + 1) % 2 ^ 64) left else s.first;
      };
    }

unfoldable pub remove : Slice → RemoteSequenceSet → Removal
unfolding find remove_found
remove key s = remove_found key (find key s.sequences) s
