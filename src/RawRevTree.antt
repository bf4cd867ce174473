-- ===== src/RawRevTree.antt =====
-- LiteCore/RevTrees/RawRevTree.cc and .hh: the stored form of a revision tree, and RevTree.cc's
-- `encode` and `decode`. A `RawRevision*` is what the buffer holds from there on.
pub mod Bytes
pub mod Places
pub mod Stored
pub mod RoundTrip
pub mod Whole
pub mod Tests
use cbl.Prelude.{
  ℕ, zero, suc, ◌+◌, ◌-◌, ◌*◌, ◌/◌, ◌%◌, ◌^◌, Bool, true, false, not, ◌&&◌, ◌||◌, Option, none,
  some, List, [], ◌∷◌, ◌++◌, Slice, Result, ok, throws, ◌>>=◌, assertion_failed,
  corrupt_revision_data, bad_read, out_of_fuel, ltb, leb, ◌==◌, if◌then◌else◌, length,
}
use cbl.Fleece.{Fleece}
use cbl.RevTree.{Flags, Rev, RevTree, blank}
use cbl.RevTree.Order.{sort}

-- `_enc16` of what is cast to `uint16_t`, and `_enc32`: big-endian.
unfoldable pub enc16 : ℕ → Slice
enc16 n = (n / 2 ^ 8 % 2 ^ 8) ∷ (n % 2 ^ 8) ∷ []

unfoldable pub enc32 : ℕ → Slice
enc32 n = (n / 2 ^ 24 % 2 ^ 8) ∷ (n / 2 ^ 16 % 2 ^ 8) ∷ (n / 2 ^ 8 % 2 ^ 8) ∷ (n % 2 ^ 8) ∷ []

abbrev pub dec16 : ℕ → ℕ → ℕ
dec16 a b = a * 2 ^ 8 + b

abbrev pub dec32 : ℕ → ℕ → ℕ → ℕ → ℕ
dec32 a b c d = ((a * 2 ^ 8 + b) * 2 ^ 8 + c) * 2 ^ 8 + d

-- The bits of a byte, from the lowest.
abbrev pub bit : Bool → ℕ
bit true = 1
bit false = 0

abbrev pub bits : List Bool → ℕ
bits [] = 0
bits (b ∷ bs) = bit b + 2 * bits bs

abbrev pub test_bit : ℕ → ℕ → Bool
test_bit k n = n / 2 ^ k % 2 == 1

-- The flags that are stored: not `kNew`, and `kHasData`, which is the bit of `kPurge`.
unfoldable pub stored_flags : Flags → Bool → ℕ
stored_flags f has_data = bits (
    f.deleted
    ∷ f.leaf
    ∷ false
    ∷ f.has_attachments
    ∷ f.keep_body
    ∷ f.is_conflict
    ∷ f.closed
    ∷ (f.purge || has_data)
    ∷ [])

unfoldable pub loaded_flags : ℕ → Flags
loaded_flags n = record {
  deleted = test_bit 0 n;
  leaf = test_bit 1 n;
  is_new = test_bit 2 n;
  has_attachments = test_bit 3 n;
  keep_body = test_bit 4 n;
  is_conflict = test_bit 5 n;
  closed = test_bit 6 n;
  purge = false;
}

abbrev pub is_there : Option Slice → Bool
is_there none = false
is_there (some _) = true

abbrev pub bytes : Option Slice → Slice
bytes none = []
bytes (some s) = s

-- `Rev::index`: where the revision stands in the vector.
abbrev pub after_first : Option ℕ → Option ℕ
after_first none = none
after_first (some i) = some (suc i)

unfoldable pub index_in : List ℕ → ℕ → Option ℕ
index_in [] a = none
index_in (b ∷ bs) a = let rest = after_first (index_in bs a) in if b == a then some 0 else rest

abbrev pub or_assert : Option ℕ → Result ℕ
or_assert none = throws assertion_failed
or_assert (some i) = ok i

unfoldable pub index_of : List ℕ → ℕ → Result ℕ
unfolding index_in
index_of revs a = or_assert (index_in revs a)

abbrev pub no_parent : ℕ
no_parent = 65535

unfoldable pub parent_index : List ℕ → Option ℕ → Result ℕ
parent_index revs none = ok no_parent
parent_index revs (some p) = index_of revs p

module _ (F : Fleece) where
  unfoldable pub size_to_write : Rev → ℕ
  size_to_write r = 8 + length r.rev_id + F.varint_size r.sequence + length (bytes r.body)

  -- `copyFrom`, given the parent's index.
  unfoldable pub raw_rev : Rev → ℕ → Slice
  unfolding size_to_write enc16 enc32 stored_flags
  raw_rev r parent =
      enc32 (size_to_write r)
      ++ (enc16 parent
          ++ (stored_flags r.flags (is_there r.body)
              ∷ (length r.rev_id % 2 ^ 8)
              ∷ (r.rev_id ++ (F.put_varint r.sequence ++ bytes r.body))))

  unfoldable pub encode_revs : List ℕ → (ℕ → Rev) → List ℕ → Result Slice
  unfolding raw_rev
  encode_revs revs h [] = ok []
  encode_revs revs h (a ∷ rest) = do
    parent ← parent_index revs (h a).parent
    more ← encode_revs revs h rest
    ok (raw_rev (h a) parent ++ more)

-- The entries of `RemoteRevMap`, in the order of the map.
unfoldable pub encode_remotes : List ℕ → List (ℕ × ℕ) → Result Slice
unfolding enc16
encode_remotes revs [] = ok []
encode_remotes revs ((remote, a) ∷ rest) = do
  i ← index_of revs a
  more ← encode_remotes revs rest
  ok (enc16 remote ++ (enc16 i ++ more))

unfoldable pub encode_tree : Fleece → RevTree → Result Slice
unfolding encode_revs encode_remotes
encode_tree F t = do
  revs ← encode_revs F t.revs t.heap t.revs
  remotes ← encode_remotes t.revs t.remote_revs
  ok (revs ++ (enc32 0 ++ remotes))

-- `RevTree::encode` sorts first.
unfoldable pub encode : Fleece → ℕ → RevTree → Result (Slice × RevTree)
encode F fuel t = do t₁ ← sort F fuel t; s ← encode_tree F t₁; ok (s, t₁)

-- The first `n` bytes and the rest, if there are as many.
abbrev pub cut : ℕ → Option (Slice × Slice) → Option (Slice × Slice)
cut b none = none
cut b (some (s, t)) = some (b ∷ s, t)

unfoldable pub split_at : ℕ → Slice → Option (Slice × Slice)
split_at zero s = some ([], s)
split_at (suc n) [] = none
split_at (suc n) (b ∷ s) = cut b (split_at n s)

-- `isValid` and `next`: a record of the size that its first bytes say and what follows it, or, at the
-- mark of the end, what follows that.
unfoldable pub at_size : ℕ → Slice → Slice → Result (Option Slice × Slice)
unfolding split_at
at_size zero s after_mark = ok (none, after_mark)
at_size (suc n) s after_mark = elim (split_at (suc n) s) [
  | none ↦ throws bad_read
  | some (raw, rest) ↦ ok (some raw, rest)
]

unfoldable pub next_rev : Slice → Result (Option Slice × Slice)
unfolding at_size
next_rev (a ∷ b ∷ c ∷ d ∷ rest) = at_size (dec32 a b c d) (a ∷ b ∷ c ∷ d ∷ rest) rest
next_rev _ = throws bad_read

-- `count`. The fuel bounds the walk; each record is not empty.
unfoldable pub count_revs : ℕ → Slice → Result ℕ
unfolding next_rev
count_revs zero s = throws out_of_fuel
count_revs (suc fuel) s = do
  (raw, rest) ← next_rev s
  let more : Result ℕ = (do n ← count_revs fuel rest; ok (n + 1))
  if is_there raw then more else ok 0

abbrev pub or_bad_read {ℓ} : {A : Type ℓ} → Option A → Result A
or_bad_read none = throws bad_read
or_bad_read (some a) = ok a

-- The parent is looked up with no test of the index.
unfoldable pub parent_at : ℕ → ℕ → Result (Option ℕ)
parent_at count i =
    if i == no_parent then ok none else if ltb i count then ok (some i) else throws bad_read

abbrev pub body_if : Bool → Slice → Option Slice
body_if true s = some s
body_if false s = none

-- `GetUVarInt`: nothing is read from bytes that are no number.
abbrev pub number_or_zero : Slice → Option (ℕ × Slice) → ℕ × Slice
number_or_zero s none = (0, s)
number_or_zero s (some r) = r

-- `copyTo`.
unfoldable pub copy_to : Fleece → ℕ → Slice → Result Rev
unfolding split_at parent_at loaded_flags
copy_to F count (_ ∷ _ ∷ _ ∷ _ ∷ p ∷ q ∷ flags ∷ id_len ∷ tail) = do
  (id, rest) ← or_bad_read (split_at id_len tail)
  parent ← parent_at count (dec16 p q)
  let (sequence, body) = number_or_zero rest (F.read_varint rest)
  ok (record {
    rev_id = id;
    parent = parent;
    sequence = sequence;
    flags = loaded_flags flags;
    body = body_if (test_bit 7 flags) body;
  })
copy_to F count _ = throws bad_read

-- A revision that was stored before its sequence was known has the record's.
abbrev pub known_at : ℕ → Rev → Rev
known_at current r = record r { sequence = if r.sequence == 0 then current else r.sequence }

abbrev pub raw_or_nil : Option Slice → Slice
raw_or_nil none = []
raw_or_nil (some raw) = raw

unfoldable pub decode_revs : Fleece → ℕ → ℕ → ℕ → Slice → Result (List Rev × Slice)
unfolding next_rev copy_to
decode_revs F count current zero s = throws out_of_fuel
decode_revs F count current (suc fuel) s = do
  (raw, rest) ← next_rev s
  let here : Result (List Rev × Slice) = (do
    r ← copy_to F count (raw_or_nil raw)
    (revs, end) ← decode_revs F count current fuel rest
    ok (known_at current r ∷ revs, end))
  if is_there raw then here else ok ([], rest)

-- `remoteMap[remoteID] = …`.
unfoldable pub put : ℕ → ℕ → List (ℕ × ℕ) → List (ℕ × ℕ)
put k v [] = (k, v) ∷ []
put k v ((j, w) ∷ m) = if j == k then (k, v) ∷ m else (j, w) ∷ put k v m

unfoldable pub decode_remotes : ℕ → List (ℕ × ℕ) → Slice → Result (List (ℕ × ℕ))
unfolding put
decode_remotes count m [] = ok m
decode_remotes count m (a ∷ b ∷ c ∷ d ∷ rest) =
    let more = decode_remotes count (put (dec16 a b) (dec16 c d) m) rest in
    if dec16 a b == 0 || leb count (dec16 c d) then throws corrupt_revision_data else more
decode_remotes count m _ = throws corrupt_revision_data

unfoldable pub decode_tree : Fleece → ℕ → Slice → Result (List Rev × List (ℕ × ℕ))
unfolding count_revs decode_revs decode_remotes
decode_tree F current s = do
  count ← count_revs (suc (length s)) s
  let rest : Result (List Rev × List (ℕ × ℕ)) = (do
    (revs, end) ← decode_revs F count current (suc (length s)) s
    remotes ← decode_remotes count [] end
    ok (revs, remotes))
  if ltb 65535 count then throws corrupt_revision_data else rest

-- `initRevs`: the vector points to each revision in turn.
abbrev pub heap_of : List Rev → ℕ → Rev
heap_of [] i = blank
heap_of (r ∷ rs) zero = r
heap_of (r ∷ rs) (suc i) = heap_of rs i

abbrev pub number_from {ℓ} : {A : Type ℓ} → ℕ → List A → List ℕ
number_from i [] = []
number_from i (_ ∷ xs) = i ∷ number_from (i + 1) xs

-- `RevTree::decode` into a new tree.
unfoldable pub decode : Fleece → ℕ → Slice → Result RevTree
unfolding decode_tree
decode F current s = do
  (revs, remotes) ← decode_tree F current s
  ok (record {
    heap = heap_of revs;
    allocated = length revs;
    revs = number_from 0 revs;
    sorted = true;
    remote_revs = remotes;
    changed = false;
    unknown = false;
  })
