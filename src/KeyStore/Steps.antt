-- ===== src/KeyStore/Steps.antt =====
-- The calls on a key-value store as a step relation, and the states it reaches.
use cbl.Prelude.{ℕ, ◌≡◌, Bool, true, false, Option, none, List, [], Slice, ok}
use cbl.Record.{DocumentFlags}
use cbl.KeyStore.{
  Stored, KeyStore, cache_last_sequence, begin_writing, end_writing,
}
use cbl.KeyStore.Writing.{set_record, del_record, set_document_flag, erase_records}
use cbl.KeyStore.Expiration.{set_expiration, expire_records}
use cbl.KeyStore.Rows.Sequences.{IsTable}

-- Outside of a transaction, another connection to the file may leave any table there, whose
-- sequences are in order.
pub data Step (k : KeyStore) : KeyStore → Type 0 where
  begin : {l : KeyStore} → begin_writing k ≡ ok l → Step k l
  finish : {l : KeyStore} (commit : Bool) → end_writing commit k ≡ ok l → Step k l
  set :
      {l : KeyStore} (key : Slice) (version body : Option Slice) (flags : DocumentFlags)
      (replacing : Option ℕ) (new_sequence : Bool) (n : ℕ)
      → k.in_transaction ≡ true
      → set_record key version body flags replacing new_sequence k ≡ ok (n, l)
      → Step k l
  del : (key : Slice) (seq : ℕ) → k.in_transaction ≡ true → Step k (del_record key seq k).1
  flag :
      (key : Slice) (seq : ℕ) (flags : DocumentFlags)
      → k.in_transaction ≡ true
      → Step k (set_document_flag key seq flags k).1
  erase : {l : KeyStore} → erase_records k ≡ ok l → Step k l
  expire_at :
      {l : KeyStore} (key : Slice) (time : ℕ) (found : Bool)
      → set_expiration key time k ≡ ok (found, l)
      → Step k l
  expire :
      {l : KeyStore} (now : ℕ) (callback : Bool) (keys : List Slice) (n : ℕ)
      → expire_records now callback k ≡ ok (keys, n, l)
      → Step k l
  ask_last_sequence : Step k (cache_last_sequence k)
  others :
      (s : Stored)
      → k.in_transaction ≡ false
      → IsTable s.rows s.last_seq
      → Step k (record k { stored = s })

pub data Reach (k : KeyStore) : KeyStore → Type 0 where
  here : Reach k k
  later : {l m : KeyStore} → Reach k l → Step l m → Reach k m

-- A store whose table was made just now.
unfoldable pub new_store : KeyStore
new_store =
    let blank : Stored = record { rows = []; last_seq = 0; has_column = false } in
    record {
      stored = blank;
      saved = blank;
      sequences = true;
      in_transaction = false;
      cached = none;
      cached_changed = false;
      has_expiration = false;
    }
