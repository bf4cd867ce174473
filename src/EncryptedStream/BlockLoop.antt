-- ===== src/EncryptedStream/BlockLoop.antt =====
-- The loop of `read` over whole blocks.
use mathlib.Core.List.{append_assoc}
use cbl.Prelude.{
  ltb-false, ℕ, zero, suc, ◌+◌, ◌-◌, ◌*◌, ◌/◌, ◌^◌, ◌≤◌, ◌<◌, ◌≡◌, refl, sym, ap, ◌∙◌, false, ◌⊎◌,
  inl, inr, [], ◌++◌, Slice, ok, arith, take, drop, length, length-take_le, length-append, ltb,
  drop_by, take-drop,
}
use cbl.EncryptedStream.{block_size, next_id}
use cbl.EncryptedStream.Aes.{Cipher}
use cbl.EncryptedStream.Blocks.{sealed}
use cbl.EncryptedStream.Reader.{Reader, read_block, read_blocks}
use cbl.EncryptedStream.Reading.{On, advanced, decrypt_block_lem}
use cbl.EncryptedStream.Parts.{going, map_low, moved}

module _ (C : Cipher) (key text blocks nonce : Slice) (key_size : length key ≡ 32)
    (nonce_size : length nonce ≡ 32) (small : length text < 2 ^ 63)
    (sealing : sealed C key 0 text ≡ ok blocks) where
  abbrev OnFile : Reader → Type 0
  OnFile r = On key text (blocks ++ nonce) r

  abbrev here : Reader → Slice
  here r = drop (r.block_id * block_size) text

  -- The next block is read, if there is one.
  pub read_block_lem :
      (r : Reader)
      → OnFile r
      → r.block_id ≤ length text / block_size
      → (p : ℕ) × (read_block C r ≡ ok (take block_size (here r), advanced p r))
        × OnFile (advanced p r)
        × (here r ≡ take block_size (here r) ++ here (advanced p r))
  unfolding read_block
  read_block_lem r v low =
      let (p, e, v₁) =
        decrypt_block_lem C key text blocks nonce key_size nonce_size small sealing r v low in
      let test : ltb r.final_block_id r.block_id ≡ false = ltb-false (omega (arith, v.final_is)) in
      let next : next_id r.block_id * block_size ≡ r.block_id * block_size + block_size =
        omega arith in
      (
        p,
        rw test e,
        v₁,
        sym (take-drop block_size (here r))
            ∙ ap (λ s. take block_size (here r) ++ s)
                (drop_by block_size (r.block_id * block_size) (next_id r.block_id * block_size) text
                  (here r) refl next),
      )

  -- The loop over blocks.
  pub read_blocks_lem :
      (fuel remaining : ℕ) (r : Reader)
      → OnFile r
      → length text / block_size + 1 < fuel + r.block_id
      → (out : Slice) × (left p id : ℕ) × (read_blocks C fuel remaining r
          ≡ ok (out, left, moved p id r))
        × OnFile (moved p id r)
        × (here r ≡ out ++ here (moved p id r))
        × (left + length out ≡ remaining)
        × ((left < block_size) ⊎ (length text / block_size < id))
  unfolding read_blocks
  read_blocks_lem zero remaining r v enough = absurd (omega (arith, v.at_most))
  read_blocks_lem (suc fuel) remaining r v enough =
      elim (going remaining r.block_id r.final_block_id) [
        | inr (test, done) ↦ (
          [],
          remaining,
          r.input.position,
          r.block_id,
          rw test refl,
          v,
          refl,
          omega arith,
          map_low v.final_is done,
        )
        | inl (test, long, low_final) ↦
            let low : r.block_id ≤ length text / block_size = omega (arith, v.final_is) in
            let (p, e, v₁, parts) = read_block_lem r v low in
            let block = take block_size (here r) in
            let size = length-take_le block_size (here r) in
            let (out, left, q, id, f, v₂, parts₂, total, done) =
              read_blocks_lem fuel (remaining - length block) (advanced p r) v₁ (omega arith) in
            (
              block ++ out,
              left,
              q,
              id,
              rw (test, e, f) refl,
              v₂,
              parts
                  ∙ ap (λ s. block ++ s) parts₂
                  ∙ sym (append_assoc block out (drop (id * block_size) text)),
              omega (arith, length-append block out),
              done,
            )
      ]
