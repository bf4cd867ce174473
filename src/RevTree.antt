-- ===== src/RevTree.antt =====
-- LiteCore/RevTrees/RevTree.hh: the revisions, the store that holds them, and the lookups of
-- RevTree.cc. A `Rev*` is the index of the revision in `_revsStorage`, which only grows.
pub mod Added
pub mod Children
pub mod Insert
pub mod Inserted
pub mod InsertChecked
pub mod InsertTotal
pub mod InsertHistory
pub mod History
pub mod HistoryResult
pub mod InsertMembers
pub mod Lookup
pub mod Order
pub mod Remove
pub mod PurgeLoop
pub mod PurgeResult
pub mod Purging
pub mod Shape
pub mod Sorting
pub mod Sorted
pub mod Stripped
pub mod Tests
pub mod Walks
pub mod WellFormed
use cbl.Prelude.{
  ℕ, zero, suc, ◌+◌, ◌<◌, Bool, true, false, not, ◌&&◌, ◌||◌, Option, none, some, List, [], ◌∷◌,
  Slice, slice_eq, Result, ok, throws, ◌>>=◌, assertion_failed, out_of_fuel, ltb, ◌==◌,
  if◌then◌else◌, length, has,
}

-- The bits of `Rev::Flags`.
pub record Flags : Type 0 where
  pub deleted : Bool
  pub leaf : Bool
  pub is_new : Bool
  pub has_attachments : Bool
  pub keep_body : Bool
  pub is_conflict : Bool
  pub closed : Bool
  pub purge : Bool

abbrev pub no_flags : Flags
no_flags = record {
  deleted = false;
  leaf = false;
  is_new = false;
  has_attachments = false;
  keep_body = false;
  is_conflict = false;
  closed = false;
  purge = false;
}

-- `body` is `none` for a null slice.
pub record Rev : Type 0 where
  pub rev_id : Slice
  pub parent : Option ℕ
  pub sequence : ℕ
  pub flags : Flags
  pub open flags use *
  pub body : Option Slice

abbrev pub is_active : Rev → Bool
is_active r = r.leaf && not r.deleted

-- `heap` and `allocated` are `_revsStorage`; `revs` is the vector of pointers into it.
pub record RevTree : Type 0 where
  pub heap : ℕ → Rev
  pub allocated : ℕ
  pub revs : List ℕ
  pub sorted : Bool
  pub remote_revs : List (ℕ × ℕ)
  pub changed : Bool
  pub unknown : Bool

abbrev pub blank : Rev
blank = record { rev_id = []; parent = none; sequence = 0; flags = no_flags; body = none }

unfoldable pub empty_tree : RevTree
empty_tree = record {
  heap = λ _. blank;
  allocated = 0;
  revs = [];
  sorted = true;
  remote_revs = [];
  changed = false;
  unknown = false;
}

unfoldable pub update : (ℕ → Rev) → ℕ → (Rev → Rev) → ℕ → Rev
update h a f b = if b == a then f (h a) else h b

unfoldable pub modify : ℕ → (Rev → Rev) → RevTree → RevTree
unfolding update
modify a f t = record t { heap = update t.heap a f }

-- `addFlag` and `clearFlag`, a flag at a time.
abbrev pub set_leaf : Bool → Rev → Rev
set_leaf b r = record r { flags = record (r.flags) { leaf = b } }

abbrev pub set_new : Bool → Rev → Rev
set_new b r = record r { flags = record (r.flags) { is_new = b } }

abbrev pub set_keep : Bool → Rev → Rev
set_keep b r = record r { flags = record (r.flags) { keep_body = b } }

abbrev pub set_conflict : Bool → Rev → Rev
set_conflict b r = record r { flags = record (r.flags) { is_conflict = b } }

abbrev pub set_purge : Bool → Rev → Rev
set_purge b r = record r { flags = record (r.flags) { purge = b } }

abbrev pub set_parent : Option ℕ → Rev → Rev
set_parent p r = record r { parent = p }

abbrev pub points_to : ℕ → Option ℕ → Bool
points_to a none = false
points_to a (some p) = p == a

-- The first revision of the vector that passes the test.
unfoldable pub first_such : (Rev → Bool) → (ℕ → Rev) → List ℕ → Option ℕ
first_such test h [] = none
first_such test h (a ∷ rest) = if test (h a) then some a else first_such test h rest

-- A lookup that fails asserts that the tree is known.
unfoldable pub found_or_known : RevTree → Option ℕ → Result (Option ℕ)
found_or_known t (some a) = ok (some a)
found_or_known t none = if t.unknown then throws assertion_failed else ok none

unfoldable pub get : Slice → RevTree → Result (Option ℕ)
unfolding first_such found_or_known
get id t = found_or_known t (first_such (λ r. slice_eq r.rev_id id) t.heap t.revs)

unfoldable pub get_by_sequence : ℕ → RevTree → Result (Option ℕ)
unfolding first_such found_or_known
get_by_sequence seq t = found_or_known t (first_such (λ r. r.sequence == seq) t.heap t.revs)

nth : List ℕ → ℕ → Result ℕ
nth [] i = throws assertion_failed
nth (a ∷ rest) zero = ok a
nth (a ∷ rest) (suc i) = nth rest i

pub get_by_index : ℕ → RevTree → Result ℕ
unfolding nth
get_by_index i t = if t.unknown then throws assertion_failed else nth t.revs i

-- `Rev::history`: a revision and its ancestors. The fuel bounds the walk.
unfoldable pub history : ℕ → (ℕ → Rev) → Option ℕ → Result (List ℕ)
history fuel h none = ok []
history zero h (some a) = throws out_of_fuel
history (suc fuel) h (some a) = do rest ← history fuel h (h a).parent; ok (a ∷ rest)

unfoldable pub is_ancestor_of : ℕ → (ℕ → Rev) → ℕ → Option ℕ → Result Bool
is_ancestor_of fuel h a none = ok false
is_ancestor_of zero h a (some b) = throws out_of_fuel
is_ancestor_of (suc fuel) h a (some b) =
    let rest = is_ancestor_of fuel h a (h b).parent in if b == a then ok true else rest

-- Does a revision of the vector have `a` for its parent?
unfoldable pub has_child : (ℕ → Rev) → ℕ → List ℕ → Bool
has_child h a [] = false
has_child h a (b ∷ bs) = points_to a (h b).parent || has_child h a bs

unfoldable pub confirm_leaf : ℕ → RevTree → Bool × RevTree
unfolding has_child modify
confirm_leaf a t =
    if has_child t.heap a t.revs then (false, t) else (true, modify a (set_leaf true) t)

unfoldable pub any_such : (Rev → Bool) → (ℕ → Rev) → List ℕ → Bool
any_such test h [] = false
any_such test h (a ∷ rest) = test (h a) || any_such test h rest

unfoldable pub has_new_revisions : RevTree → Bool
unfolding any_such
has_new_revisions t = any_such (λ r. r.is_new || r.sequence == 0) t.heap t.revs
