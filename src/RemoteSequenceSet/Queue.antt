-- ===== src/RemoteSequenceSet/Queue.antt =====
-- The contract of a set of remote sequences: a queue in the order of the additions.
use cbl.Prelude.{ℕ, ◌+◌, Option, none, some, List, [], ◌∷◌, ◌++◌, Slice}
use cbl.Fleece.{Fleece}
use cbl.RemoteSequenceSet.{Entry, RemoteSequenceSet, clear, find, erase, add, remove}

-- The pending sequences in the order in which they were added, the last one added, and the number of
-- additions.
pub record Queue : Type 0 where
  pub pending : List Entry
  pub last : Slice
  pub count : ℕ

abbrev pub new_queue : Slice → Queue
new_queue start = record { pending = []; last = start; count = 0 }

abbrev pub push_new : Entry → Option Entry → List Entry → List Entry
push_new e none xs = xs ++ e ∷ []
push_new e (some _) xs = xs

-- A sequence that is pending keeps its place.
unfoldable pub push : Slice → ℕ → Queue → Queue
unfolding find
push key body_size q =
    let e : Entry = record {
      key = key;
      order = q.count;
      prev_sequence = q.last;
      body_size = body_size;
    } in
    record { pending = push_new e (find key q.pending) q.pending; last = key; count = q.count + 1 }

unfoldable pub take : Slice → Queue → Queue
unfolding erase
take key q = record q { pending = erase key q.pending }

-- The sequence that was added before the earliest pending one.
abbrev pub before : Slice → List Entry → Slice
before last [] = last
before last (x ∷ _) = x.prev_sequence

abbrev pub before_pending : Queue → Slice
before_pending q = before q.last q.pending

pub data Call : Type 0 where
  adds : Slice → ℕ → Call
  removes : Slice → Call
  clears : Slice → Call

abbrev pub step : Fleece → RemoteSequenceSet → Call → RemoteSequenceSet
step F s (adds key body_size) = add F key body_size s
step F s (removes key) = (remove key s).set
step F s (clears start) = clear start s

abbrev pub run : Fleece → RemoteSequenceSet → List Call → RemoteSequenceSet
run F s [] = s
run F s (c ∷ cs) = run F (step F s c) cs

abbrev pub queue_step : Queue → Call → Queue
queue_step q (adds key body_size) = push key body_size q
queue_step q (removes key) = take key q
queue_step q (clears start) = new_queue start

abbrev pub queue_run : Queue → List Call → Queue
queue_run q [] = q
queue_run q (c ∷ cs) = queue_run (queue_step q c) cs
