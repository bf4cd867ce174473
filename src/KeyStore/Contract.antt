-- ===== src/KeyStore/Contract.antt =====
-- LiteCore/Storage/KeyStore.hh: what the key-value store promises to those who use it, as an interface.
use cbl.Prelude.{ℕ, ◌<◌, ◌≡◌, ◌≢◌, ◌⊎◌, Bool, true, false, Option, Slice, slice_eq, Result, ok, if◌then◌else◌}
use cbl.Record.{DocumentFlags, Record, new_record, set_body}
use cbl.KeyStore.{column_as_slice}

-- The calls on a store within a transaction: `read(Record&)`, `set(…, &replacingSequence,
-- newSequence)` and `del(…, replacingSequence)`.
pub record Store : Type 1 where
  pub State : Type 0
  pub IsValid : State → Type 0
  pub read : State → Record → Bool × Record
  pub set :
      Slice
      → Option Slice
      → Option Slice
      → DocumentFlags
      → ℕ
      → Bool
      → State
      → Result (ℕ × State)
  pub del : Slice → ℕ → State → Bool × State

-- The sequence of the record under a key; 0 where there is none.
abbrev pub sequence_at : (S : Store) → S.State → Slice → ℕ
sequence_at S s key = (S.read s (new_record key)).1.sequence

-- A record that was written, read back: a blob without bytes is a null slice.
unfoldable pub written : ℕ → Option Slice → Option Slice → DocumentFlags → Record → Record
written n version body flags rec =
    set_body (column_as_slice body) (record rec {
      exists = true;
      sequence = n;
      flags = flags;
      version = column_as_slice version;
    })

-- The store gave the record the sequence `n`, and changed no other.
pub record IsWritten (S : Store) (key : Slice) (version body : Option Slice) (flags : DocumentFlags)
    (create : Bool) (seq n : ℕ) (s u : S.State) : Type 0 where
  pub positive : 0 < n
  -- The sequence is kept, or is above that of every record.
  pub kept : create ≡ false → n ≡ seq
  pub fresh : create ≡ true → (other : Slice) → sequence_at S s other < n
  pub still : S.IsValid u
  pub reads :
      (rec : Record)
      → S.read u rec
        ≡ (if slice_eq key rec.key then (true, written n version body flags rec) else S.read s rec)

pub record IsUntouched (S : Store) (s u : S.State) : Type 0 where
  pub still : S.IsValid u
  pub reads : (rec : Record) → S.read u rec ≡ S.read s rec

pub record IsLawful (S : Store) : Type 1 where
  -- A record is only replaced if its sequence is the expected one, or made if none is expected.
  pub set_met :
      (s : S.State) (key : Slice) (version body : Option Slice) (flags : DocumentFlags) (seq : ℕ)
      (create : Bool)
      → S.IsValid s
      → (create ≡ true) ⊎ (0 < seq)
      → sequence_at S s key ≡ seq
      → (n : ℕ) × (u : S.State) × (S.set key version body flags seq create s ≡ ok (n, u))
        × IsWritten S key version body flags create seq n s u
  pub set_unmet :
      (s : S.State) (key : Slice) (version body : Option Slice) (flags : DocumentFlags) (seq : ℕ)
      (create : Bool)
      → S.IsValid s
      → (create ≡ true) ⊎ (0 < seq)
      → sequence_at S s key ≢ seq
      → (u : S.State) × (S.set key version body flags seq create s ≡ ok (0, u)) × IsUntouched S s u
  pub del_met :
      (s : S.State) (key : Slice) (seq : ℕ)
      → S.IsValid s
      → 0 < seq
      → sequence_at S s key ≡ seq
      → ((S.del key seq s).0 ≡ true) × S.IsValid (S.del key seq s).1
        × ((rec : Record)
          → S.read (S.del key seq s).1 rec
            ≡ (if slice_eq key rec.key then (false, rec) else S.read s rec))
  pub del_unmet :
      (s : S.State) (key : Slice) (seq : ℕ)
      → S.IsValid s
      → 0 < seq
      → sequence_at S s key ≢ seq
      → ((S.del key seq s).0 ≡ false) × IsUntouched S s (S.del key seq s).1
