-- ===== src/EncryptedStream/Sealed.antt =====
-- The blocks of an encrypted file, one by one.
use cbl.Prelude.{
  ℕ, zero, suc, ◌+◌, ◌-◌, ◌*◌, ◌/◌, ◌^◌, ◌≤◌, ◌<◌, ◌≡◌, refl, sym, ap, ◌∙◌, true, false, ◌++◌,
  Slice, ok, >>=-eq-ok, ok-injective, arith, take, drop, length, length-take, length-drop,
  drop_front, drop_by,
}
use cbl.EncryptedStream.{block_size, iv_of, next_id}
use cbl.EncryptedStream.Aes.{Cipher}
use cbl.EncryptedStream.Blocks.{sealed, sealed_blocks}

module _ (C : Cipher) (key : Slice) (key_size : length key ≡ 32) where
  -- A whole block in front.
  pub record Front (id : ℕ) (text blocks : Slice) : Type 0 where
    pub block : Slice
    pub rest : Slice
    pub parts : blocks ≡ block ++ rest
    pub size : length block ≡ block_size
    pub back : C.aes256 false key (iv_of id) false block ≡ ok (take block_size text)
    pub later : sealed C key (next_id id) (drop block_size text) ≡ ok rest

  sealed_blocks-Front :
      (n id : ℕ) (text blocks : Slice)
      → block_size ≤ length text
      → n ≡ length (drop block_size text) / block_size
      → sealed_blocks C key (suc n) id text ≡ ok blocks
      → Front id text blocks
  unfolding sealed_blocks sealed
  sealed_blocks-Front n id text blocks long count e =
      let text_size = length-take block_size text long in
      let (c, sealing, size, back) =
        C.aes256_unpadded key (iv_of id) (take block_size text) key_size refl
          (omega (arith, text_size)) in
      let (block, first, e₁) =
        >>=-eq-ok (C.aes256 true key (iv_of id) false (take block_size text)) _ e in
      let (rest, later, last) =
        >>=-eq-ok (sealed_blocks C key n (next_id id) (drop block_size text)) _ e₁ in
      let same : c ≡ block = ok-injective (sym sealing ∙ first) in
      record {
        block = block;
        rest = rest;
        parts = sym (ok-injective last);
        size = rw (← same) (size ∙ text_size);
        back = rw (← same) back;
        later =
            ap (λ m. sealed_blocks C key m (next_id id) (drop block_size text)) (sym count) ∙ later;
      }

  less_block : (n : ℕ) → block_size ≤ n → n / block_size ≡ suc ((n - block_size) / block_size)
  less_block n h = omega arith

  pub sealed-Front :
      (id : ℕ) (text blocks : Slice)
      → block_size ≤ length text
      → sealed C key id text ≡ ok blocks
      → Front id text blocks
  unfolding sealed
  sealed-Front id text blocks long e =
      let fewer : length text / block_size ≡ suc (length (drop block_size text) / block_size) =
        less_block (length text) long
        ∙ ap (λ k. suc (k / block_size)) (sym (length-drop block_size text)) in
      sealed_blocks-Front (length (drop block_size text) / block_size) id text blocks long refl
        (ap (λ m. sealed_blocks C key m id text) (sym fewer) ∙ e)

  -- What comes after so many blocks is the sealed form of what comes after so much text.
  pub sealed-drop :
      (i id : ℕ) (text blocks : Slice)
      → i * block_size ≤ length text
      → id + i < 2 ^ 64
      → sealed C key id text ≡ ok blocks
      → sealed C key (id + i) (drop (i * block_size) text) ≡ ok (drop (i * block_size) blocks)
  unfolding drop
  sealed-drop zero id text blocks long few e = ap (λ k. sealed C key k text) (omega arith) ∙ e
  sealed-drop (suc i) id text blocks long few e =
      let f : Front id text blocks = sealed-Front id text blocks (omega arith) e in
      let next : next_id id ≡ id + 1 = omega arith in
      let rec =
        sealed-drop i (id + 1) (drop block_size text) f.rest
          (omega (arith, length-drop block_size text)) (omega arith)
          (ap (λ k. sealed C key k (drop block_size text)) (sym next) ∙ f.later) in
      let ids : id + suc i ≡ id + 1 + i = omega arith in
      let count : suc i * block_size ≡ block_size + i * block_size = omega arith in
      let front : drop block_size blocks ≡ f.rest =
        ap (λ s. drop block_size s) f.parts ∙ drop_front block_size f.block f.rest f.size in
      ap (λ k. sealed C key k (drop (suc i * block_size) text)) ids
      ∙ ap (λ s. sealed C key (id + 1 + i) s)
          (sym (
            drop_by (i * block_size) block_size (suc i * block_size) text (drop block_size text)
              refl count))
      ∙ rec
      ∙ ap ok (drop_by (i * block_size) block_size (suc i * block_size) blocks f.rest front count)

  pub record Last (id : ℕ) (text blocks : Slice) : Type 0 where
    pub back : C.aes256 false key (iv_of id) true blocks ≡ ok text
    pub size : length blocks ≡ (length text / 16 + 1) * 16

  pub sealed-Last :
      (id : ℕ) (text blocks : Slice)
      → length text < block_size
      → sealed C key id text ≡ ok blocks
      → Last id text blocks
  unfolding sealed sealed_blocks
  sealed-Last id text blocks short e =
      let none : length text / block_size ≡ 0 = omega arith in
      let (c, sealing, size, back) = C.aes256_padded key (iv_of id) text key_size refl in
      let first : C.aes256 true key (iv_of id) true text ≡ ok blocks =
        ap (λ m. sealed_blocks C key m id text) (sym none) ∙ e in
      let same : c ≡ blocks = ok-injective (sym sealing ∙ first) in
      record { back = rw (← same) back; size = rw (← same) size }
