-- ===== src/RemoteSequenceSet/Runs.antt =====
-- Runs of a set of remote sequences: removals, and what any calls give.
use cbl.Prelude.{
  ℕ, ◌≡◌, ◌<◌, ◌≤◌, ◌+◌, ◌^◌, ◌%◌, refl, sym, ap, ◌∙◌, subst, true, false, Option, none, some, List,
  [], ◌∷◌, Slice, slice_eq, slice_eq_iff, slice_eq_refl, Option-cases, if-cases, inl, inr, arith,
  length, if◌then◌else◌,
}
use cbl.Fleece.{Fleece}
use cbl.RemoteSequenceSet.{
  Entry, RemoteSequenceSet, new_set, clear, find, since, erase, add, remove, remove_found,
  find_first, is_at,
}
use cbl.RemoteSequenceSet.Entries.{
  apart, find-erase, erase-IsMap, IsMap, erase_missing, some-injective,
}
use cbl.RemoteSequenceSet.FindFirst.{head_key, Rises, Rises-le, find_first_lem, SameEntries}
use cbl.RemoteSequenceSet.Queue.{
  Queue, new_queue, take, before_pending, Call, adds, removes, clears, step, run, queue_step,
  queue_run,
}
use cbl.RemoteSequenceSet.Refinement.{
  Represents, clear-Represents, Rises-erase, add-Represents, since_lem, wrap,
}

same-erase :
    (key : Slice) (xs q : List Entry)
    → IsMap xs
    → IsMap q
    → SameEntries xs q
    → SameEntries (erase key xs) (erase key q)
same-erase key xs q v w same k =
    find-erase k key xs v
    ∙ ap (λ z. if slice_eq k key then none else z) (same k)
    ∙ sym (find-erase k key q w)

erase_head :
    (key : Slice) (y : Entry) (q : List Entry) → slice_eq key y.key ≡ true → erase key (y ∷ q) ≡ q
unfolding erase
erase_head key y q here = rw here refl

-- The first key after a removal: that of the queue's new head.
first_left :
    (key : Slice) (e : Entry) (xs q : List Entry) (first : Option Slice) (high : ℕ)
    → IsMap xs
    → IsMap q
    → SameEntries xs q
    → first ≡ head_key q
    → Rises 0 q high
    → high < 2 ^ 64
    → find key q ≡ some e
    → (if is_at first key then find_first ((e.order + 1) % 2 ^ 64) (erase key xs) else first)
      ≡ head_key (erase key q)
unfolding find erase
first_left key e xs [] first high v w same is r big f = cc
first_left key e xs (y ∷ q) first high v w same is r big f =
    let s = same-erase key xs (y ∷ q) v w same in
    elim (if-cases (slice_eq key y.key) _ _ f) [
      | inl (here, at) ↦
          let order : y.order ≡ e.order = ap (λ z. z.order) (some-injective at) in
          let back : slice_eq y.key key ≡ true =
            (slice_eq_iff y.key key).1 (sym ((slice_eq_iff key y.key).0 here)) in
          let le = Rises-le (y.order + 1) q high r.1 in
          let plus : e.order + 1 ≡ (e.order + 1) % 2 ^ 64 = wrap e.order (ground arith) in
          let left : SameEntries (erase key xs) q =
            λ k. s k ∙ ap (find k) (erase_head key y q here) in
          rw (is, back, here, ← plus, ← order)
            (find_first_lem (y.order + 1) (erase key xs) q high (erase-IsMap key xs v) left r.1 big)
      | inr (there, later) ↦
          let away : slice_eq y.key key ≡ false =
            apart y.key key y.key there (slice_eq_refl y.key) in
          rw (is, away, there) refl
    ]

remove-Represents :
    (key : Slice) (s : RemoteSequenceSet) (q : Queue)
    → Represents s q
    → s.next_order < 2 ^ 64
    → Represents (remove key s).set (take key q)
unfolding remove remove_found take
remove-Represents key s q v big = elim (Option-cases (find key s.sequences)) [
  | inl n ↦ rw (n, erase_missing key q.pending (sym (v.same key) ∙ n)) v
  | inr (e, f) ↦ rw f (record {
    map = erase-IsMap key s.sequences v.map;
    queue_map = erase-IsMap key q.pending v.queue_map;
    same = same-erase key s.sequences q.pending v.map v.queue_map v.same;
    first =
        first_left key e s.sequences q.pending s.first s.next_order v.map v.queue_map v.same v.first
          v.rises big (sym (v.same key) ∙ f);
    rises = Rises-erase 0 key q.pending s.next_order v.rises;
    last = v.last;
    count = v.count;
  })
]

find_head : (key : Slice) (q : List Entry) → find key q ≡ none → is_at (head_key q) key ≡ false
unfolding find
find_head key [] n = refl
find_head key (y ∷ q) n = elim (if-cases (slice_eq key y.key) _ _ n) [
  | inl (_, z) ↦ cc
  | inr (there, _) ↦ apart y.key key y.key there (slice_eq_refl y.key)
]

earliest_lem :
    (key : Slice) (s : RemoteSequenceSet) (q : Queue)
    → Represents s q
    → (remove key s).was_earliest ≡ is_at (head_key q.pending) key
unfolding remove remove_found
earliest_lem key s q v = elim (Option-cases (find key s.sequences)) [
  | inl n ↦ rw n (sym (find_head key q.pending (sym (v.same key) ∙ n)))
  | inr (e, f) ↦ rw (f, v.first) refl
]

abbrev pub Bounded : ℕ → RemoteSequenceSet → Queue → Type 0
Bounded n s q = Represents s q × (s.next_order ≤ n)

remove_order : (key : Slice) (s : RemoteSequenceSet) → (remove key s).set.next_order ≡ s.next_order
unfolding remove remove_found
remove_order key s = elim (Option-cases (find key s.sequences)) [
  | inl n ↦ rw n refl
  | inr (e, f) ↦ rw f refl
]

step-Represents :
    (F : Fleece) (n : ℕ) (s : RemoteSequenceSet) (q : Queue) (c : Call)
    → Bounded n s q
    → n + 1 < 2 ^ 64
    → Bounded (n + 1) (step F s c) (queue_step q c)
unfolding add clear remove remove_found
step-Represents F n s q (adds key size) (v, low) big =
    let small : s.next_order + 1 < 2 ^ 64 = ground arith in
    (
      add-Represents F key size s q v small,
      subst (λ z. z ≤ n + 1) (wrap s.next_order small) (ground arith),
    )
step-Represents F n s q (removes key) (v, low) big = (
  remove-Represents key s q v (ground arith),
  subst (λ z. z ≤ n + 1) (sym (remove_order key s)) (ground arith),
)
step-Represents F n s q (clears start) v big = (clear-Represents start s, ground arith)

run-Represents :
    (F : Fleece) (n : ℕ) (s : RemoteSequenceSet) (q : Queue) (cs : List Call)
    → Bounded n s q
    → n + length cs < 2 ^ 64
    → (m : ℕ) × (m < 2 ^ 64) × Bounded m (run F s cs) (queue_run q cs)
run-Represents F n s q [] v big = (n, ground arith, v)
run-Represents F n s q (c ∷ cs) v big =
    run-Represents F (n + 1) (step F s c) (queue_step q c) cs
      (step-Represents F n s q c v (ground arith)) (ground arith)

-- The set and the queue after calls that follow a `clear`.
module _ (F : Fleece) (start : Slice) (cs : List Call) where
  abbrev pub set_after : RemoteSequenceSet
  set_after = run F (clear start new_set) cs

  abbrev pub queue_after : Queue
  queue_after = queue_run (new_queue start) cs

  after-Bounded :
      length cs < 2 ^ 64
      → (m : ℕ) × (m < 2 ^ 64)
        × Bounded m (run F (clear start new_set) cs) (queue_run (new_queue start) cs)
  unfolding clear
  after-Bounded big =
      run-Represents F 0 (clear start new_set) (new_queue start) cs
        (clear-Represents start new_set, ground arith) (omega arith)

  -- After `clear` and any calls (fewer than 2^64), `since` answers with the sequence that was added
  -- before the earliest one still pending, in the order of the additions; with none pending, with the
  -- last one added.
  pub since-run : length cs < 2 ^ 64 → since set_after ≡ before_pending queue_after
  since-run big = let (m, _, v) = after-Bounded big in since_lem set_after queue_after v.0

  -- After `clear` and any calls (fewer than 2^64), `remove` says that a sequence was the earliest
  -- exactly if it is pending and none that is pending was added before it.
  pub remove-earliest :
      (key : Slice)
      → length cs < 2 ^ 64
      → (remove key set_after).was_earliest ≡ is_at (head_key queue_after.pending) key
  unfolding remove remove_found
  remove-earliest key big =
      let (m, _, v) = after-Bounded big in earliest_lem key set_after queue_after v.0
