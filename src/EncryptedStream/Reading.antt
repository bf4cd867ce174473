-- ===== src/EncryptedStream/Reading.antt =====
-- A reader on an encrypted file: one block.
use mathlib.Core.List.{append_assoc}
use cbl.Prelude.{
  ℕ, suc, ◌+◌, ◌-◌, ◌*◌, ◌/◌, ◌%◌, ◌^◌, ◌≤◌, ◌<◌, ◌≡◌, refl, sym, ap, ◌∙◌, Bool, true, false, ◌⊎◌,
  inl, inr, ◌++◌, Slice, ok, arith, take, drop, length, length-drop, length-append, ◌==◌,
  if◌then◌else◌, drop-append_le, take_whole, take_front,
}
use cbl.EncryptedStream.{block_size, iv_of, next_id}
use cbl.EncryptedStream.Aes.{Cipher}
use cbl.EncryptedStream.Blocks.{sealed}
use cbl.EncryptedStream.Sealed.{Front, sealed-Front, sealed-drop, Last, sealed-Last}
use cbl.EncryptedStream.Reader.{read_file, Reader, read_input, decrypt_block}

-- A reader of the file of a text, and the block that it is about to read.
pub record On (key text file : Slice) (r : Reader) : Type 0 where
  pub key_is : r.key ≡ key
  pub open_is : r.input.is_open ≡ true
  pub bytes_is : r.input.bytes ≡ file
  pub length_is : r.input_length + 32 ≡ length file
  pub final_is : r.final_block_id ≡ length text / block_size
  pub at_most : r.block_id ≤ suc (length text / block_size)
  pub position_is :
      r.block_id ≤ length text / block_size → r.input.position ≡ r.block_id * block_size

-- The reader after a block, at a position of the file.
abbrev pub advanced : ℕ → Reader → Reader
advanced p r = record r { input = record r.input { position = p }; block_id = next_id r.block_id }

==_false : {a b : ℕ} → a < b → (a == b) ≡ false
==_false {a} {b} h = ground arith

==_true : {a b : ℕ} → a ≡ b → (a == b) ≡ true
==_true {a} {b} h = ground arith

low-cases : (a b : ℕ) → a ≤ b → (a < b) ⊎ (a ≡ b)
low-cases a b h = ground arith

-- What one block's reading and decryption come to.
decrypt_with :
    (C : Cipher) (r : Reader) (final_block : Bool) (size : ℕ) (chunk plaintext : Slice)
    → (r.block_id == r.final_block_id) ≡ final_block
    → (if final_block then r.input_length - r.block_id * block_size else block_size) ≡ size
    → take size (drop r.input.position r.input.bytes) ≡ chunk
    → r.input.is_open ≡ true
    → C.aes256 false r.key (iv_of r.block_id) final_block chunk ≡ ok plaintext
    → decrypt_block C r ≡ ok (plaintext, advanced (r.input.position + length chunk) r)
unfolding decrypt_block read_input read_file
decrypt_with C r final_block size chunk plaintext test sized read is_open decrypted =
    rw (is_open, test, sized, read, decrypted) refl

module _ (C : Cipher) (key text blocks nonce : Slice) (key_size : length key ≡ 32)
    (nonce_size : length nonce ≡ 32) (small : length text < 2 ^ 63)
    (sealing : sealed C key 0 text ≡ ok blocks) where
  -- The text and the blocks from a block on.
  rest_at :
      (i : ℕ)
      → i ≤ length text / block_size
      → sealed C key i (drop (i * block_size) text) ≡ ok (drop (i * block_size) blocks)
  rest_at i low =
      ap (λ k. sealed C key k (drop (i * block_size) text)) (omega arith)
      ∙ sealed-drop C key key_size i 0 text blocks (omega arith) (omega arith) sealing

  abbrev end : ℕ
  end = length text / block_size

  Last-at :
      (i : ℕ)
      → i ≡ length text / block_size
      → Last C key key_size i (drop (i * block_size) text) (drop (i * block_size) blocks)
  Last-at i at =
      sealed-Last C key key_size i (drop (i * block_size) text) (drop (i * block_size) blocks)
        (omega (arith, length-drop (i * block_size) text)) (rest_at i (omega arith))

  -- The encrypted file's length.
  pub blocks_size :
      length blocks
      ≡ length text / block_size * block_size + (length text % block_size / 16 + 1) * 16
  blocks_size =
      let text_rest = length-drop (end * block_size) text in
      let rest = length-drop (end * block_size) blocks in
      let size = (Last-at end refl).size in omega (arith, text_rest, rest, size)

  Front-at :
      (i : ℕ)
      → i < length text / block_size
      → Front C key key_size i (drop (i * block_size) text) (drop (i * block_size) blocks)
  Front-at i low =
      sealed-Front C key key_size i (drop (i * block_size) text) (drop (i * block_size) blocks)
        (omega (arith, length-drop (i * block_size) text)) (rest_at i (omega arith))

  chunk_at :
      (i : ℕ)
      → i ≤ length text / block_size
      → drop (i * block_size) (blocks ++ nonce) ≡ drop (i * block_size) blocks ++ nonce
  chunk_at i low = drop-append_le (i * block_size) blocks nonce (omega (arith, blocks_size))

  abbrev pub file : Slice
  file = blocks ++ nonce

  chunk_lem :
      (r : Reader) (n : ℕ) (chunk rest : Slice)
      → On key text file r
      → r.block_id ≤ length text / block_size
      → drop (r.block_id * block_size) blocks ++ nonce ≡ chunk ++ rest
      → length chunk ≡ n
      → take n (drop r.input.position r.input.bytes) ≡ chunk
  chunk_lem r n chunk rest v low parts size =
      ap (λ s. take n (drop r.input.position s)) v.bytes_is
      ∙ ap (λ k. take n (drop k file)) (v.position_is low)
      ∙ ap (λ s. take n s) (chunk_at r.block_id low ∙ parts)
      ∙ take_front n chunk rest size

  advanced-On :
      (r : Reader) (p : ℕ)
      → On key text file r
      → r.block_id ≤ length text / block_size
      → (r.block_id < length text / block_size → p ≡ (r.block_id + 1) * block_size)
      → On key text file (advanced p r)
  advanced-On r p v low at = record {
    key_is = v.key_is;
    open_is = v.open_is;
    bytes_is = v.bytes_is;
    length_is = v.length_is;
    final_is = v.final_is;
    at_most = omega arith;
    position_is = λ lower.
        let next : next_id r.block_id ≡ r.block_id + 1 = omega arith in
        at (omega (arith, next)) ∙ ap (λ k. k * block_size) (sym next);
  }

  -- What the next block gives, and where the reader is after it.
  abbrev pub Decrypted : Reader → Type 0
  Decrypted r =
      (p : ℕ) × (decrypt_block C r
        ≡ ok (take block_size (drop (r.block_id * block_size) text), advanced p r))
      × On key text file (advanced p r)

  decrypt_whole :
      (r : Reader) → On key text file r → r.block_id < length text / block_size → Decrypted r
  decrypt_whole r v low =
      let f = Front-at r.block_id low in
      let test : (r.block_id == r.final_block_id) ≡ false = ==_false (omega (arith, v.final_is)) in
      (
        r.input.position + length f.block,
        decrypt_with C r false block_size f.block
            (take block_size (drop (r.block_id * block_size) text)) test refl
            (chunk_lem r block_size f.block (f.rest ++ nonce) v (omega arith)
              (ap (λ s. s ++ nonce) f.parts ∙ append_assoc f.block f.rest nonce) f.size)
            v.open_is
            (ap (λ k. C.aes256 false k (iv_of r.block_id) false f.block) v.key_is ∙ f.back),
        advanced-On r (r.input.position + length f.block) v (omega arith)
            (λ _. omega (arith, f.size, v.position_is (omega arith))),
      )

  decrypt_last :
      (r : Reader) → On key text file r → r.block_id ≡ length text / block_size → Decrypted r
  decrypt_last r v at =
      let l = Last-at r.block_id at in
      let chunk = drop (r.block_id * block_size) blocks in
      let rest = drop (r.block_id * block_size) text in
      let test : (r.block_id == r.final_block_id) ≡ true = ==_true (at ∙ sym v.final_is) in
      let size : r.input_length - r.block_id * block_size ≡ length chunk = omega (
        arith,
        length-drop (r.block_id * block_size) blocks,
        length-append blocks nonce,
        v.length_is,
      ) in
      let whole : take block_size rest ≡ rest =
        take_whole block_size rest (omega (arith, length-drop (r.block_id * block_size) text)) in
      (
        r.input.position + length chunk,
        decrypt_with C r true (length chunk) chunk (take block_size rest) test size
            (chunk_lem r (length chunk) chunk nonce v (omega arith) refl refl) v.open_is
            (ap (λ k. C.aes256 false k (iv_of r.block_id) true chunk) v.key_is
              ∙ l.back
              ∙ ap ok (sym whole)),
        advanced-On r (r.input.position + length chunk) v (omega arith)
            (λ low. absurd (omega arith)),
      )

  pub decrypt_block_lem :
      (r : Reader) → On key text file r → r.block_id ≤ length text / block_size → Decrypted r
  decrypt_block_lem r v low = elim (low-cases r.block_id (length text / block_size) low) [
    | inl lower ↦ decrypt_whole r v lower
    | inr at ↦ decrypt_last r v at
  ]
