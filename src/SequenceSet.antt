-- ===== src/SequenceSet.antt =====
-- LiteCore/Support/SequenceSet.hh. The `std::set` is its members in ascending order.
pub mod Invariant
pub mod Contract
pub mod Tests
use cbl.Prelude.{
  ℕ, max, Bool, true, false, List, [], ◌∷◌, ◌<◌, ltb, ◌==◌, if◌then◌else◌, has, length,
}

pub record SequenceSet : Type 0 where
  pub sequences : List ℕ
  pub max_seen : ℕ

pub empty_set : SequenceSet
empty_set = record { sequences = []; max_seen = 0 }

pub clear : ℕ → SequenceSet → SequenceSet
clear m s = record { sequences = []; max_seen = m }

pub empty : SequenceSet → Bool
empty s = elim s.sequences [ [] ↦ true | _ ∷ _ ↦ false ]

pub size : SequenceSet → ℕ
size s = length s.sequences

pub first : SequenceSet → ℕ
first s = elim s.sequences [ [] ↦ 0 | x ∷ _ ↦ x ]

pub max_ever : SequenceSet → ℕ
max_ever s = s.max_seen

pub contains : SequenceSet → ℕ → Bool
contains s x = has x s.sequences

-- `std::set::insert`: nothing happens if the member is there.
unfoldable pub insert : ℕ → List ℕ → List ℕ
insert x [] = x ∷ []
insert x (y ∷ ys) = if ltb x y then x ∷ y ∷ ys else if x == y then y ∷ ys else y ∷ insert x ys

unfoldable pub erase : ℕ → List ℕ → List ℕ
erase x [] = []
erase x (y ∷ ys) = if x == y then ys else y ∷ erase x ys

pub add : ℕ → SequenceSet → SequenceSet
unfolding insert
add x s = record { sequences = insert x s.sequences; max_seen = max s.max_seen x }

pub remove : ℕ → SequenceSet → SequenceSet
unfolding erase
remove x s = record s { sequences = erase x s.sequences }

pub set : ℕ → Bool → SequenceSet → SequenceSet
set x true s = add x s
set x false s = remove x s

pub seen : ℕ → SequenceSet → SequenceSet
seen x s = record s { max_seen = max s.max_seen x }

-- The calls that change the set; `assign` is `set[x] = present` through `reference`.
pub data Call : Type 0 where
  clears adds removes sees : ℕ → Call
  assigns : ℕ → Bool → Call

pub step : SequenceSet → Call → SequenceSet
step s (clears m) = clear m s
step s (adds x) = add x s
step s (removes x) = remove x s
step s (sees x) = seen x s
step s (assigns x b) = set x b s

pub run : SequenceSet → List Call → SequenceSet
run s [] = s
run s (c ∷ cs) = run (step s c) cs
