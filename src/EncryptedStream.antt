-- ===== src/EncryptedStream.antt =====
-- LiteCore/Support/EncryptedStream.cc and .hh: the encrypted streams, over LiteCore/BlobStore/Stream.cc's
-- stream of a file.
pub mod Aes
pub mod Reader
pub mod Blocks
pub mod Writing
pub mod Sealed
pub mod Reading
pub mod Parts
pub mod BlockLoop
pub mod Sequential
pub mod RoundTrip
pub mod Seeking
pub mod Sample
pub mod Tests
use cbl.Prelude.{
  ℕ, zero, suc, ◌+◌, ◌-◌, ◌*◌, ◌/◌, ◌%◌, ◌^◌, Bool, true, false, [], ◌∷◌, ◌++◌, Slice, Result, ok,
  throws, ◌>>=◌, unsupported_encryption, null_pointer, bad_read, out_of_fuel, ltb, leb, min, take,
  drop, if◌then◌else◌, length,
}
use cbl.EncryptedStream.Aes.{Cipher}

pub data EncryptionAlgorithm : Type 0 where
  no_encryption aes256 : EncryptionAlgorithm

abbrev pub block_size : ℕ
block_size = 4096

-- `memcpy` of the 32 bytes of a key.
abbrev pub key_bytes : Slice → Result Slice
key_bytes s = if leb 32 (length s) then ok (take 32 s) else throws bad_read

-- `initEncryptor`, where AES is available: the copies of the key and the nonce.
unfoldable pub init_encryptor : EncryptionAlgorithm → Slice → Slice → Result (Slice × Slice)
init_encryptor no_encryption key nonce = throws unsupported_encryption
init_encryptor aes256 key nonce = do
  key₁ ← key_bytes key
  nonce₁ ← key_bytes nonce
  ok (key₁, nonce₁)

-- The initialization vector: a zero word and the number of the block, big-endian.
abbrev pub iv_of : ℕ → Slice
iv_of n =
    0
    ∷ 0
    ∷ 0
    ∷ 0
    ∷ 0
    ∷ 0
    ∷ 0
    ∷ 0
    ∷ (n / 2 ^ 56 % 2 ^ 8)
    ∷ (n / 2 ^ 48 % 2 ^ 8)
    ∷ (n / 2 ^ 40 % 2 ^ 8)
    ∷ (n / 2 ^ 32 % 2 ^ 8)
    ∷ (n / 2 ^ 24 % 2 ^ 8)
    ∷ (n / 2 ^ 16 % 2 ^ 8)
    ∷ (n / 2 ^ 8 % 2 ^ 8)
    ∷ (n % 2 ^ 8)
    ∷ []

-- `++_blockID`, in 64 bits.
abbrev pub next_id : ℕ → ℕ
next_id id = (id + 1) % 2 ^ 64

-- `EncryptedWriteStream`: `buffer` is the first `_bufferPos` bytes of `_buffer`, `output` what the
-- wrapped stream was given, `is_open` whether `_output` is set.
pub record Writer : Type 0 where
  pub key : Slice
  pub nonce : Slice
  pub buffer : Slice
  pub block_id : ℕ
  pub output : Slice
  pub is_open : Bool

-- The constructor, given the random nonce.
pub new_writer : EncryptionAlgorithm → Slice → Slice → Result Writer
new_writer alg key nonce = do
  (key₁, nonce₁) ← init_encryptor alg key nonce
  ok (record { key = key₁; nonce = nonce₁; buffer = []; block_id = 0; output = []; is_open = true })

-- `_output->write`.
pub give : Slice → Writer → Result Writer
give s w = if w.is_open then ok (record w { output = w.output ++ s }) else throws null_pointer

module _ (C : Cipher) where
  pub write_block : Slice → Bool → Writer → Result Writer
  write_block plaintext final_block w = do
    ciphertext ← C.aes256 true w.key (iv_of w.block_id) final_block plaintext
    give ciphertext (record w { block_id = next_id w.block_id })

  -- The loop of `write` over entire blocks: what is left, and the stream.
  pub write_blocks : ℕ → Slice → Writer → Result (Slice × Writer)
  write_blocks zero plaintext w = throws out_of_fuel
  write_blocks (suc fuel) plaintext w =
      let more : Result (Slice × Writer) = (do
        w₁ ← write_block (take block_size plaintext) false w
        write_blocks fuel (drop block_size plaintext) w₁) in
      if leb block_size (length plaintext) then more else ok (plaintext, w)

  -- `write` after the buffer was filled.
  pub write_full : Slice → Writer → Result Writer
  write_full plaintext w = do
    w₁ ← write_block w.buffer false w
    (left, w₂) ← write_blocks (suc (length plaintext)) plaintext w₁
    ok (record w₂ { buffer = left })

  pub write : Slice → Writer → Result Writer
  write plaintext w =
      let capacity = min (block_size - length w.buffer) (length plaintext) in
      let w₁ = record w { buffer = w.buffer ++ take capacity plaintext } in
      if ltb (length w₁.buffer) block_size then ok w₁ else write_full (drop capacity plaintext) w₁

  pub close : Writer → Result Writer
  close w =
      let finish : Result Writer = (do
        w₁ ← write_block w.buffer true w
        w₂ ← give w₁.nonce w₁
        ok (record w₂ { is_open = false })) in
      if w.is_open then finish else ok w
