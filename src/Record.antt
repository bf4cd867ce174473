-- ===== src/Record.antt =====
-- LiteCore/Storage/Record.hh and Record.cc: what a key-value store keeps under a key.
use cbl.Prelude.{ℕ, Bool, true, false, ◌||◌, Option, none, some, [], ◌∷◌, Slice, length}

-- The bits of `enum class DocumentFlags`.
pub record DocumentFlags : Type 0 where
  pub deleted : Bool
  pub conflicted : Bool
  pub has_attachments : Bool
  pub synced : Bool

-- `kNone`.
abbrev pub no_document_flags : DocumentFlags
no_document_flags = record { deleted = false; conflicted = false; has_attachments = false; synced = false }

-- `flags | other`.
unfoldable pub with_flags : DocumentFlags → DocumentFlags → DocumentFlags
with_flags f g = record {
  deleted = f.deleted || g.deleted;
  conflicted = f.conflicted || g.conflicted;
  has_attachments = f.has_attachments || g.has_attachments;
  synced = f.synced || g.synced;
}

-- A null slice is `none`. `body_size` is the length of the body also where the body was not loaded.
pub record Record : Type 0 where
  pub key : Slice
  pub version : Option Slice
  pub body : Option Slice
  pub body_size : ℕ
  pub sequence : ℕ
  pub flags : DocumentFlags
  pub exists : Bool

-- `Record(slice key)`.
unfoldable pub new_record : Slice → Record
new_record key = record {
  key = key;
  version = none;
  body = none;
  body_size = 0;
  sequence = 0;
  flags = no_document_flags;
  exists = false;
}

unfoldable pub slice_size : Option Slice → ℕ
slice_size none = 0
slice_size (some s) = length s

unfoldable pub set_body : Option Slice → Record → Record
unfolding slice_size
set_body b r = record r { body = b; body_size = slice_size b }

abbrev pub set_unloaded_body_size : ℕ → Record → Record
set_unloaded_body_size n r = record r { body = none; body_size = n }

unfoldable pub clear_meta_and_body : Record → Record
unfolding set_body
clear_meta_and_body r =
    let blank : Record = set_body none (record r { version = none }) in
    record blank { body_size = 0; sequence = 0; flags = no_document_flags; exists = false }

unfoldable pub clear : Record → Record
unfolding clear_meta_and_body
clear r = record (clear_meta_and_body r) { key = [] }
