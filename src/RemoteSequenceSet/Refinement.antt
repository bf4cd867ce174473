-- ===== src/RemoteSequenceSet/Refinement.antt =====
-- A set of remote sequences refines the queue.
use cbl.Prelude.{
  ℕ, ◌≡◌, ◌<◌, ◌≤◌, ◌+◌, ◌^◌, ◌%◌, refl, sym, ap, ◌∙◌, subst, false, Option, none, some, List, [],
  ◌∷◌, ◌++◌, Slice, slice_eq, slice_eq_refl, Bool-cases, Option-cases, inl, inr, arith,
  if◌then◌else◌,
}
use cbl.Fleece.{Fleece}
use cbl.RemoteSequenceSet.{
  Entry, RemoteSequenceSet, clear, empty, find, since, erase, add, is_nil, prev_or, find_at,
}
use cbl.RemoteSequenceSet.Entries.{
  find-insert, find-append, insert-IsMap, IsMap, append-IsMap, found,
}
use cbl.RemoteSequenceSet.FindFirst.{head_key, Rises, SameEntries}
use cbl.RemoteSequenceSet.Queue.{Queue, new_queue, push, before_pending, before}

pub record Represents (s : RemoteSequenceSet) (q : Queue) : Type 0 where
  pub map : IsMap s.sequences
  pub queue_map : IsMap q.pending
  pub same : SameEntries s.sequences q.pending
  pub first : s.first ≡ head_key q.pending
  pub rises : Rises 0 q.pending s.next_order
  pub last : s.last_added ≡ q.last
  pub count : s.next_order ≡ q.count

pub clear-Represents :
    (start : Slice) (s : RemoteSequenceSet) → Represents (clear start s) (new_queue start)
unfolding clear
clear-Represents start s = record {
  map = tt;
  queue_map = tt;
  same = λ _. refl;
  first = refl;
  rises = ground arith;
  last = refl;
  count = refl;
}

Rises-append :
    (low : ℕ) (xs : List Entry) (e : Entry)
    → Rises low xs e.order
    → Rises low (xs ++ e ∷ []) (e.order + 1)
Rises-append low [] e r = (r, ground arith)
Rises-append low (x ∷ xs) e r = (r.0, Rises-append (x.order + 1) xs e r.1)

Rises-more : (low : ℕ) (xs : List Entry) (high : ℕ) → Rises low xs high → Rises low xs (high + 1)
Rises-more low [] high r = ground arith
Rises-more low (x ∷ xs) high r = (r.0, Rises-more (x.order + 1) xs high r.1)

Rises-low : (low l : ℕ) (xs : List Entry) (high : ℕ) → l ≤ low → Rises low xs high → Rises l xs high
Rises-low low l [] high le r = ground arith
Rises-low low l (x ∷ xs) high le r = (ground arith, r.1)

pub Rises-erase :
    (low : ℕ) (key : Slice) (xs : List Entry) (high : ℕ)
    → Rises low xs high
    → Rises low (erase key xs) high
unfolding erase
Rises-erase low key [] high r = r
Rises-erase low key (x ∷ xs) high r = elim (Bool-cases (slice_eq key x.key)) [
  | inl here ↦ rw here (Rises-low (x.order + 1) low xs high (ground arith) r.1)
  | inr there ↦ rw there (r.0, Rises-erase (x.order + 1) key xs high r.1)
]

since_of :
    (last queue_last : Slice) (first : Option Slice) (xs q : List Entry)
    → first ≡ head_key q
    → SameEntries xs q
    → last ≡ queue_last
    → prev_or last (find_at first xs) ≡ before queue_last q
unfolding find
since_of last l first xs [] e same is = rw e is
since_of last l first xs (y ∷ q) e same is = rw (e, same y.key, slice_eq_refl y.key) refl

-- What `since` answers is what the queue says.
pub since_lem : (s : RemoteSequenceSet) (q : Queue) → Represents s q → since s ≡ before_pending q
unfolding since
since_lem s q v = since_of s.last_added q.last s.first s.sequences q.pending v.first v.same v.last

same_head :
    (xs q : List Entry) (key : Slice) (e : Entry)
    → SameEntries xs q
    → find e.key q ≡ none
    → (first : Option Slice) → first ≡ head_key q
    → (if is_nil xs then some e.key else first) ≡ head_key (q ++ e ∷ [])
unfolding find
same_head [] [] key e same n first is = refl
same_head [] (y ∷ q) key e same n first is =
    let at : find y.key (y ∷ q) ≡ some y = rw (slice_eq_refl y.key) refl in
    let never = same y.key in cc
same_head (x ∷ xs) [] key e same n first is =
    let at : find x.key (x ∷ xs) ≡ some x = rw (slice_eq_refl x.key) refl in
    let never = same x.key in cc
same_head (x ∷ xs) (y ∷ q) key e same n first is = is

pub wrap : (n : ℕ) → n + 1 < 2 ^ 64 → n + 1 ≡ (n + 1) % 2 ^ 64
wrap n big = omega arith

add_new :
    (F : Fleece) (key : Slice) (size : ℕ) (s : RemoteSequenceSet) (q : Queue)
    → Represents s q
    → s.next_order + 1 < 2 ^ 64
    → find key s.sequences ≡ none
    → Represents (add F key size s) (push key size q)
unfolding add push empty
add_new F key size s q v big n =
    let m : find key q.pending ≡ none = sym (v.same key) ∙ n in
    let e : Entry = record {
      key = key;
      order = s.next_order;
      prev_sequence = s.last_added;
      body_size = size;
    } in
    rw (n, m, ← v.count, ← v.last)
      (record {
        map = insert-IsMap F e s.sequences n v.map;
        queue_map = append-IsMap e q.pending m v.queue_map;
        same = λ k.
            find-insert F k e s.sequences n
            ∙ ap (found k e) (v.same k)
            ∙ sym (find-append k e q.pending m);
        first = same_head s.sequences q.pending key e v.same m s.first v.first;
        rises =
            subst (Rises 0 (q.pending ++ e ∷ [])) (wrap s.next_order big)
              (Rises-append 0 q.pending e v.rises);
        last = refl;
        count = sym (wrap s.next_order big);
      })

nonempty : (key : Slice) (e : Entry) (xs : List Entry) → find key xs ≡ some e → is_nil xs ≡ false
unfolding find
nonempty key e [] f = cc
nonempty key e (x ∷ xs) f = refl

add_known :
    (F : Fleece) (key : Slice) (size : ℕ) (s : RemoteSequenceSet) (q : Queue) (e : Entry)
    → Represents s q
    → s.next_order + 1 < 2 ^ 64
    → find key s.sequences ≡ some e
    → Represents (add F key size s) (push key size q)
unfolding add push empty
add_known F key size s q e v big f =
    let g : find key q.pending ≡ some e = sym (v.same key) ∙ f in
    rw (f, g, nonempty key e s.sequences f)
      (record {
        map = v.map;
        queue_map = v.queue_map;
        same = v.same;
        first = v.first;
        rises =
            subst (Rises 0 q.pending) (wrap s.next_order big)
              (Rises-more 0 q.pending s.next_order v.rises);
        last = refl;
        count = sym (wrap s.next_order big) ∙ ap (λ z. z + 1) v.count;
      })

pub add-Represents :
    (F : Fleece) (key : Slice) (size : ℕ) (s : RemoteSequenceSet) (q : Queue)
    → Represents s q
    → s.next_order + 1 < 2 ^ 64
    → Represents (add F key size s) (push key size q)
add-Represents F key size s q v big = elim (Option-cases (find key s.sequences)) [
  | inl n ↦ add_new F key size s q v big n
  | inr (e, f) ↦ add_known F key size s q e v big f
]
