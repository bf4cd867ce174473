-- ===== src/RevTree/Insert.antt =====
-- RevTree.cc, insertion: `keepBody`, `_insert`, both `insert`s and `insertHistory`.
use cbl.Prelude.{
  ℕ, zero, suc, ◌+◌, ◌-◌, Bool, true, false, not, ◌&&◌, ◌||◌, Option, none, some, List, [], ◌∷◌,
  ◌++◌, ◌%◌, ◌^◌, length, Slice, Result, ok, throws, ◌>>=◌, assertion_failed, out_of_fuel, ltb,
  ◌==◌, if◌then◌else◌,
}
use cbl.Fleece.{Fleece}
use cbl.RevId.{generation}
use cbl.RevTree.{Flags, no_flags, Rev, RevTree, update, modify, set_leaf, set_keep, get}

-- The walk up from a kept revision; within a conflict branch it stops at the end of the branch.
unfoldable pub clear_keep : ℕ → Bool → Option ℕ → RevTree → Result RevTree
clear_keep fuel conflict none t = ok t
clear_keep zero conflict (some a) t = throws out_of_fuel
clear_keep (suc fuel) conflict (some a) t =
    let rest = clear_keep fuel conflict (t.heap a).parent (modify a (set_keep false) t) in
    if conflict && not (t.heap a).is_conflict then ok t else rest

unfoldable pub keep_body : ℕ → ℕ → RevTree → Result RevTree
unfolding modify clear_keep
keep_body fuel a t = do
  let t₁ = modify a (set_keep true) t
  t₂ ← clear_keep fuel (t₁.heap a).is_conflict (t₁.heap a).parent t₁
  ok (record t₂ { changed = true })

-- The flags that a caller may set.
unfoldable pub insertable : Flags → Flags
insertable f = record no_flags {
  deleted = f.deleted;
  closed = f.closed;
  has_attachments = f.has_attachments;
  keep_body = f.keep_body;
}

abbrev pub is_empty : List ℕ → Bool
is_empty [] = true
is_empty (_ ∷ _) = false

-- Is the new revision a conflict? It is if it makes or extends a branch, or is a second root.
unfoldable pub makes_conflict : Bool → Option ℕ → RevTree → Bool
makes_conflict mark (some p) t = mark && (not (t.heap p).leaf || (t.heap p).is_conflict)
makes_conflict mark none t = mark && not (is_empty t.revs)

-- Its parent is a leaf no longer.
unleaf_heap : Option ℕ → (ℕ → Rev) → ℕ → Rev
unfolding update
unleaf_heap none h = h
unleaf_heap (some p) h = update h p (set_leaf false)

unfoldable pub unleaf : Option ℕ → RevTree → RevTree
unfolding unleaf_heap
unleaf p t = record t { heap = unleaf_heap p t.heap }

unfoldable pub new_rev : Slice → Option Slice → Option ℕ → Flags → Bool → Rev
new_rev id body parent flags conflict = record {
  rev_id = id;
  parent = parent;
  sequence = 0;
  flags = record flags { leaf = true; is_new = true; is_conflict = conflict };
  body = body;
}

-- Storage for a new revision at the next address; it is not in the vector yet.
unfoldable pub allocate : Rev → RevTree → RevTree
unfolding update
allocate r t = record t { heap = update t.heap t.allocated (λ _. r); allocated = t.allocated + 1 }

unfoldable pub push_back : ℕ → RevTree → RevTree
push_back a t = record t {
  revs = t.revs ++ a ∷ [];
  sorted = is_empty t.revs && t.sorted;
  changed = true;
}

unfoldable pub keep_new : ℕ → Bool → Option ℕ → ℕ → RevTree → Result RevTree
keep_new fuel true (some _) a t = keep_body fuel a t
keep_new fuel _ _ a t = ok t

-- `_insert`: the new revision's address, and the tree.
unfoldable pub insert_rev :
    ℕ → Slice → Option Slice → Option ℕ → Flags → Bool → RevTree → Result (ℕ × RevTree)
unfolding insertable makes_conflict unleaf new_rev allocate push_back keep_new
insert_rev fuel id body parent flags mark t =
    let f = insertable flags in
    let a = t.allocated in
    let r = new_rev id body parent f (makes_conflict mark parent t) in
    let rest : Result (ℕ × RevTree) = (do
      t₁ ← keep_new fuel f.keep_body parent a (unleaf parent (allocate r t))
      ok (a, push_back a t₁)) in
    if (f.closed && not f.deleted) || t.unknown then throws assertion_failed else rest

abbrev pub prepend : Slice → Option (List Slice × Option ℕ) → Option (List Slice × Option ℕ)
prepend id none = none
prepend id (some (ids, p)) = some (id ∷ ids, p)

-- The search goes on behind an ID that is not in the tree.
unfoldable pub search_on :
    Option ℕ
    → Slice
    → Result (Option (List Slice × Option ℕ))
    → Result (Option (List Slice × Option ℕ))
search_on (some p) id more = ok (some ([], some p))
search_on none id more = more >>= λ r. ok (prepend id r)

-- The revision that `insert` made, if any, the HTTP status and the tree.
pub record Outcome : Type 0 where
  pub rev : Option ℕ
  pub status : ℕ
  pub tree : RevTree

abbrev pub refuse : ℕ → RevTree → Outcome
refuse status t = record { rev = none; status = status; tree = t }

-- May a revision be added under this parent without a new conflict?
unfoldable pub conflict_free : Option ℕ → RevTree → Bool
conflict_free (some p) t = (t.heap p).leaf
conflict_free none t = is_empty t.revs

module _ (F : Fleece) where
  unfoldable pub parent_generation : Option ℕ → RevTree → Result ℕ
  parent_generation none t = ok 0
  parent_generation (some p) t = generation F (t.heap p).rev_id

  -- The new ID is valid and not in the tree: check the parent and the generation, then insert.
  unfoldable pub insert_fresh :
      ℕ → Slice → Option Slice → Flags → Option ℕ → Bool → Bool → ℕ → RevTree → Result Outcome
  unfolding conflict_free parent_generation insert_rev
  insert_fresh fuel id body flags parent allow mark new_gen t =
      let rest : Result Outcome = (do
        parent_gen ← parent_generation parent t
        let last : Result Outcome = (do
          (a, t₁) ← insert_rev fuel id body parent flags mark t
          ok (record { rev = some a; status = if flags.deleted then 200 else 201; tree = t₁ }))
        if new_gen == (parent_gen + 1) % 2 ^ 32 then last else ok (refuse 400 t)) in
      if not allow && not (conflict_free parent t) then ok (refuse 409 t) else rest

  unfoldable pub insert_unless : Option ℕ → Result Outcome → RevTree → Result Outcome
  insert_unless (some _) fresh t = ok (refuse 200 t)
  insert_unless none fresh t = fresh

  unfoldable pub insert :
      ℕ → Slice → Option Slice → Flags → Option ℕ → Bool → Bool → RevTree → Result Outcome
  unfolding insert_fresh insert_unless
  insert fuel id body flags parent allow mark t = do
    new_gen ← generation F id
    let rest : Result Outcome = (do
      old ← get id t
      insert_unless old (insert_fresh fuel id body flags parent allow mark new_gen t) t)
    if new_gen == 0 then ok (refuse 400 t) else rest

  unfoldable pub insert_under :
      ℕ → Slice → Option Slice → Flags → Option ℕ → Bool → Bool → RevTree → Result Outcome
  unfolding insert
  insert_under fuel id body flags none allow mark t = ok (refuse 404 t)
  insert_under fuel id body flags (some p) allow mark t =
      insert fuel id body flags (some p) allow mark t

  -- The `insert` that takes the parent's ID; a null ID means no parent.
  unfoldable pub insert_by_id :
      ℕ → Slice → Option Slice → Flags → Option Slice → Bool → Bool → RevTree → Result Outcome
  unfolding insert insert_under
  insert_by_id fuel id body flags none allow mark t = insert fuel id body flags none allow mark t
  insert_by_id fuel id body flags (some parent_id) allow mark t = do
    p ← get parent_id t
    insert_under fuel id body flags p allow mark t

  -- The search of `insertHistory` for the first known ID, with the generation that came before (0 at
  -- the start): the IDs to insert, newest first, and the common ancestor; `none` if a generation is
  -- out of sequence.
  unfoldable pub common_ancestor :
      ℕ → List Slice → RevTree → Result (Option (List Slice × Option ℕ))
  unfolding search_on
  common_ancestor last_gen [] t = ok (some ([], none))
  common_ancestor last_gen (id ∷ ids) t = do
    gen ← generation F id
    let rest : Result (Option (List Slice × Option ℕ)) = (do
      old ← get id t
      search_on old id (common_ancestor gen ids t))
    if ltb 0 last_gen && not (gen == last_gen - 1) then ok none else rest

-- The loop that inserts the ancestors, oldest first and with no bodies: the last one inserted.
unfoldable pub insert_ancestors :
    ℕ → List Slice → Option ℕ → Bool → RevTree → Result (Option ℕ × RevTree)
unfolding insert_rev
insert_ancestors fuel [] parent mark t = ok (parent, t)
insert_ancestors fuel (id ∷ ids) parent mark t = do
  (p, t₁) ← insert_ancestors fuel ids parent mark t
  (a, t₂) ← insert_rev fuel id none p no_flags mark t₁
  ok (some a, t₂)

unfoldable pub insert_new :
    ℕ → List Slice → Option Slice → Flags → Option ℕ → Bool → RevTree → Result RevTree
unfolding insert_ancestors
insert_new fuel [] body flags parent mark t = ok t
insert_new fuel (id ∷ ids) body flags parent mark t = do
  (p, t₁) ← insert_ancestors fuel ids parent mark t
  (_, t₂) ← insert_rev fuel id body p flags mark t₁
  ok t₂

unfoldable pub insert_found :
    ℕ
    → Option (List Slice × Option ℕ)
    → Option Slice
    → Flags
    → Bool
    → RevTree
    → Result (Option ℕ × RevTree)
unfolding insert_new
insert_found fuel none body flags mark t = ok (none, t)
insert_found fuel (some (new, parent)) body flags mark t = do
  t₁ ← insert_new fuel new body flags parent mark t
  ok (some (length new), t₁)

-- `insertHistory`: the index of the common ancestor (`none` for -1), and the tree.
unfoldable pub insert_history :
    Fleece → ℕ → List Slice → Option Slice → Flags → Bool → RevTree → Result (Option ℕ × RevTree)
unfolding common_ancestor insert_found
insert_history F fuel [] body flags mark t = throws assertion_failed
insert_history F fuel (id ∷ ids) body flags mark t = do
  found ← common_ancestor F 0 (id ∷ ids) t
  insert_found fuel found body flags mark t
