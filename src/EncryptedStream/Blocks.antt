-- ===== src/EncryptedStream/Blocks.antt =====
-- The form of an encrypted file, described by its text: blocks of 4096 bytes without padding, a last one
-- with padding that is shorter, then the nonce.
use cbl.Prelude.{
  ℕ, zero, suc, ◌-◌, ◌/◌, ◌≤◌, ◌<◌, ◌≡◌, refl, sym, ap, ◌∙◌, true, false, ◌++◌, Slice, Result, ok,
  ◌>>=◌, arith, take, drop, length, length-drop,
}
use cbl.EncryptedStream.{block_size, iv_of, next_id}
use cbl.EncryptedStream.Aes.{Cipher}

module _ (C : Cipher) (key : Slice) where
  -- So many whole blocks and the last one, numbered from `id`.
  unfoldable pub sealed_blocks : ℕ → ℕ → Slice → Result Slice
  sealed_blocks zero id text = C.aes256 true key (iv_of id) true text
  sealed_blocks (suc n) id text = do
    block ← C.aes256 true key (iv_of id) false (take block_size text)
    rest ← sealed_blocks n (next_id id) (drop block_size text)
    ok (block ++ rest)

  unfoldable pub sealed : ℕ → Slice → Result Slice
  unfolding sealed_blocks
  sealed id text = sealed_blocks (length text / block_size) id text

  unfoldable pub file_of : Slice → Slice → Result Slice
  unfolding sealed
  file_of nonce text = do blocks ← sealed 0 text; ok (blocks ++ nonce)

  less_block : (n : ℕ) → block_size ≤ n → n / block_size ≡ suc ((n - block_size) / block_size)
  less_block n h = omega arith

  sealed-suc :
      (id : ℕ) (text block rest : Slice) (n : ℕ)
      → n ≡ suc (length (drop block_size text) / block_size)
      → C.aes256 true key (iv_of id) false (take block_size text) ≡ ok block
      → sealed (next_id id) (drop block_size text) ≡ ok rest
      → sealed_blocks n id text ≡ ok (block ++ rest)
  unfolding sealed sealed_blocks
  sealed-suc id text block rest n e first later =
      ap (λ m. sealed_blocks m id text) e ∙ rw (first, later) refl

  pub sealed-block :
      (id : ℕ) (text block rest : Slice)
      → block_size ≤ length text
      → C.aes256 true key (iv_of id) false (take block_size text) ≡ ok block
      → sealed (next_id id) (drop block_size text) ≡ ok rest
      → sealed id text ≡ ok (block ++ rest)
  unfolding sealed
  sealed-block id text block rest long first later =
      sealed-suc id text block rest (length text / block_size)
        (less_block (length text) long
          ∙ ap (λ k. suc (k / block_size)) (sym (length-drop block_size text)))
        first later

  pub sealed-last :
      (id : ℕ) (text last : Slice)
      → length text < block_size
      → C.aes256 true key (iv_of id) true text ≡ ok last
      → sealed id text ≡ ok last
  unfolding sealed sealed_blocks
  sealed-last id text last short e =
      let none : length text / block_size ≡ 0 = omega arith in
      ap (λ m. sealed_blocks m id text) none ∙ e
