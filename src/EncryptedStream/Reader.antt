-- ===== src/EncryptedStream/Reader.antt =====
-- `EncryptedReadStream`, over Stream.cc's `FileReadStream`.
use cbl.Prelude.{
  ℕ, zero, suc, ◌+◌, ◌-◌, ◌*◌, ◌/◌, ◌%◌, ◌^◌, Bool, false, ◌&&◌, Option, none, some, [], ◌++◌,
  Slice, Result, ok, throws, ◌>>=◌, corrupt_data, null_pointer, out_of_fuel, ltb, leb, ◌==◌, min,
  take, drop, if◌then◌else◌, length,
}
use cbl.EncryptedStream.{EncryptionAlgorithm, block_size, init_encryptor, iv_of, next_id}
use cbl.EncryptedStream.Aes.{Cipher}

-- A `FileReadStream` on a file's bytes.
pub record FileStream : Type 0 where
  pub bytes : Slice
  pub position : ℕ
  pub is_open : Bool

unfoldable pub file_length : FileStream → ℕ
file_length f = if f.is_open then length f.bytes else 0

unfoldable pub seek_file : ℕ → FileStream → FileStream
seek_file pos f = if f.is_open then record f { position = pos } else f

unfoldable pub read_file : ℕ → FileStream → Slice × FileStream
read_file count f =
    let chunk = take count (drop f.position f.bytes) in
    if f.is_open then (chunk, record f { position = f.position + length chunk }) else ([], f)

-- `buffer` is the first `_bufferSize` bytes of `_buffer`; `none` stands for UINT64_MAX. The unsigned
-- differences that can be below 0 wrap around; the products of a block number cannot reach 2 ^ 64,
-- since no block is past the final one.
pub record Reader : Type 0 where
  pub key : Slice
  pub input : FileStream
  pub input_length : ℕ
  pub final_block_id : ℕ
  pub block_id : ℕ
  pub buffer : Slice
  pub buffer_pos : ℕ
  pub buffer_block_id : Option ℕ
  pub cleartext_length : Option ℕ

abbrev pub minus : ℕ → ℕ → ℕ
minus a b = (a + 2 ^ 64 - b) % 2 ^ 64

unfoldable pub new_reader : EncryptionAlgorithm → Slice → FileStream → Result Reader
new_reader alg key input =
    let len = minus (file_length input) 32 in
    let (nonce, read) = read_file 32 (seek_file len input) in
    let rest : Result Reader = (do
      (key₁, _) ← init_encryptor alg key nonce
      ok (record {
        key = key₁;
        input = seek_file 0 read;
        input_length = len;
        final_block_id = minus len 1 / block_size;
        block_id = 0;
        buffer = [];
        buffer_pos = 0;
        buffer_block_id = none;
        cleartext_length = none;
      })) in
    if ltb (length nonce) 32 then throws corrupt_data else rest

unfoldable pub close : Reader → Reader
close r = record r { input = record r.input { is_open = false } }

-- `_input->read`.
unfoldable pub read_input : ℕ → Reader → Result (Slice × Reader)
read_input count r =
    let (chunk, rest) = read_file count r.input in
    if r.input.is_open then ok (chunk, record r { input = rest }) else throws null_pointer

-- `readFromBuffer`.
unfoldable pub read_from_buffer : ℕ → Reader → Slice × Reader
read_from_buffer remaining r =
    let n = min (length r.buffer - r.buffer_pos) remaining in
    (take n (drop r.buffer_pos r.buffer), record r { buffer_pos = r.buffer_pos + n })

abbrev pub holds_block : ℕ → Option ℕ → Bool
holds_block id none = false
holds_block id (some b) = id == b

unfoldable pub tell : Reader → ℕ
tell r = elim r.buffer_block_id [ some b ↦ b * block_size + r.buffer_pos | none ↦ 0 ]

module _ (C : Cipher) where
  -- `readBlockFromFile` where there is a block left.
  unfoldable pub decrypt_block : Reader → Result (Slice × Reader)
  decrypt_block r = do
    let final_block = r.block_id == r.final_block_id
    let size = if final_block then r.input_length - r.block_id * block_size else block_size
    (chunk, r₁) ← read_input size r
    plaintext ← C.aes256 false r.key (iv_of r.block_id) final_block chunk
    ok (plaintext, record r₁ { block_id = next_id r.block_id })

  unfoldable pub read_block : Reader → Result (Slice × Reader)
  read_block r = if ltb r.final_block_id r.block_id then ok ([], r) else decrypt_block r

  unfoldable pub fill_buffer : Reader → Result Reader
  fill_buffer r = do
    (plaintext, r₁) ← read_block r
    ok (record r₁ { buffer = plaintext; buffer_pos = 0; buffer_block_id = some r.block_id })

  -- The loop of `read` over blocks: what it read, how much is left to read, and the stream.
  unfoldable pub read_blocks : ℕ → ℕ → Reader → Result (Slice × ℕ × Reader)
  read_blocks zero remaining r = throws out_of_fuel
  read_blocks (suc fuel) remaining r =
      let more : Result (Slice × ℕ × Reader) = (do
        (plaintext, r₁) ← read_block r
        (after, left, r₂) ← read_blocks fuel (remaining - length plaintext) r₁
        ok (plaintext ++ after, left, r₂)) in
      if leb block_size remaining && leb r.block_id r.final_block_id
      then more
      else ok ([], remaining, r)

  -- The end of `read`, for what the blocks did not give.
  unfoldable pub read_partial : ℕ → Reader → Result (Slice × Reader)
  read_partial remaining r =
      let rest : Result (Slice × Reader) = (do
        r₁ ← fill_buffer r
        ok (read_from_buffer remaining r₁)) in
      if ltb 0 remaining then rest else ok ([], r)

  unfoldable pub read_rest : ℕ → Reader → Result (Slice × Reader)
  read_rest remaining r = do
    (blocks, left, r₁) ← read_blocks (suc (suc r.final_block_id)) remaining r
    (last, r₂) ← read_partial left r₁
    ok (blocks ++ last, r₂)

  -- `read`: the bytes that it stores at `dst`.
  unfoldable pub read : ℕ → Reader → Result (Slice × Reader)
  read count r =
      let (first, r₁) = read_from_buffer count r in
      let remaining = count - length first in
      let more : Result (Slice × Reader) = (do
        (rest, r₂) ← read_rest remaining r₁
        ok (first ++ rest, r₂)) in
      if ltb 0 remaining && leb r₁.block_id r₁.final_block_id then more else ok (first, r₁)

  -- The buffer with the block at a number.
  unfoldable pub load_block : ℕ → Reader → Result Reader
  load_block id r =
      let r₁ = record r { input = seek_file (id * block_size) r.input; block_id = id } in
      if r.input.is_open then fill_buffer r₁ else throws null_pointer

  unfoldable pub seek : ℕ → Reader → Result Reader
  seek pos r =
      let to = min pos r.input_length in
      let id = min (to / block_size) r.final_block_id in
      do
        r₁ ← (if holds_block id r.buffer_block_id then ok r else load_block id r)
        ok (record r₁ { buffer_pos = min (to - id * block_size) (length r₁.buffer) })

  unfoldable pub get_length : Reader → Result (ℕ × Reader)
  get_length r = elim r.cleartext_length [
    | some n ↦ ok (n, r)
    | none ↦ do
      r₁ ← seek r.input_length r
      let n = tell r₁
      r₂ ← seek (tell r) (record r₁ { cleartext_length = some n })
      ok (n, r₂)
  ]
