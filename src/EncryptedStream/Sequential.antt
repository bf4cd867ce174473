-- ===== src/EncryptedStream/Sequential.antt =====
-- Reads, one after another.
use mathlib.Core.List.{append_assoc, append-nil}
use cbl.Prelude.{
  ltb-true, ltb-false, ℕ, zero, suc, ◌-◌, ◌*◌, ◌/◌, ◌^◌, ◌≤◌, ◌<◌, ◌≡◌, refl, sym, ap, ◌∙◌, true,
  false, ◌⊎◌, inl, inr, some, [], ◌++◌, Slice, ok, arith, take, drop, length, ltb, drop_whole,
}
use cbl.EncryptedStream.{block_size}
use cbl.EncryptedStream.Aes.{Cipher}
use cbl.EncryptedStream.Blocks.{sealed}
use cbl.EncryptedStream.Reader.{
  Reader, read_block, read_from_buffer, fill_buffer, read_partial, read_rest, read,
}
use cbl.EncryptedStream.Reading.{On, advanced}
use cbl.EncryptedStream.Parts.{
  Gives, Gives-count, Gives-append, unread, read_from_buffer_lem, asking, drop_zero, leb-cases,
  moved, filled, buffer-On, empty_buffer, take_short,
}
use cbl.EncryptedStream.BlockLoop.{read_block_lem, read_blocks_lem}

module _ (C : Cipher) (key text blocks nonce : Slice) (key_size : length key ≡ 32)
    (nonce_size : length nonce ≡ 32) (small : length text < 2 ^ 63)
    (sealing : sealed C key 0 text ≡ ok blocks) where
  abbrev OnFile : Reader → Type 0
  OnFile r = On key text (blocks ++ nonce) r

  abbrev here : Reader → Slice
  here r = drop (r.block_id * block_size) text

  -- Past the last block nothing is left.
  past_end : (r : Reader) → length text / block_size < r.block_id → here r ≡ []
  past_end r past = drop_whole (r.block_id * block_size) text (omega arith)

  pub fill_at :
      (r : Reader)
      → OnFile r
      → r.block_id ≤ length text / block_size
      → (p : ℕ) × (fill_buffer C r ≡ ok (filled p r (take block_size (here r))))
        × OnFile (filled p r (take block_size (here r)))
        × (here r ≡ take block_size (here r) ++ here (advanced p r))
  unfolding fill_buffer
  fill_at r v low =
      let (p, e, v₁, parts) =
        read_block_lem C key text blocks nonce key_size nonce_size small sealing r v low in
      (
        p,
        rw e refl,
        buffer-On (advanced p r) (take block_size (here r)) 0 (some r.block_id) v₁,
        parts,
      )

  -- Where a block is left, the last part is read through the buffer.
  partial_at :
      (left : ℕ) (r : Reader)
      → OnFile r
      → r.block_id ≤ length text / block_size
      → left < block_size
      → 0 < left
      → (out : Slice) × (r₁ : Reader) × (read_partial C left r ≡ ok (out, r₁))
        × OnFile r₁
        × Gives left (here r) out (unread text r₁)
  unfolding read_partial
  partial_at left r v low few pos =
      let (p, e, v₁, parts) = fill_at r v low in
      let buffer = take block_size (here r) in
      let (out, n, got, held, size) = read_from_buffer_lem left (filled p r buffer) in
      let test : ltb 0 left ≡ true = ltb-true pos in
      (
        out,
        record (filled p r buffer) { buffer_pos = n },
        rw (test, e, got) refl,
        buffer-On (filled p r buffer) buffer n (some r.block_id) v₁,
        record {
          parts =
              parts
              ∙ ap (λ s. s ++ here (advanced p r)) (sym (drop_zero buffer) ∙ held)
              ∙ append_assoc out (drop n buffer) (here (advanced p r));
          size = elim size [
            | inl all ↦ inl all
            | inr (nothing, most) ↦
                let whole : buffer ≡ out =
                  sym (drop_zero buffer) ∙ held ∙ ap (λ s. out ++ s) nothing ∙ append-nil out in
                let done : here (advanced p r) ≡ [] =
                  take_short block_size (here r) (here (advanced p r)) parts
                    (omega (arith, ap length whole)) in
                inr (ap (λ s. s ++ here (advanced p r)) nothing ∙ done, most)
          ];
        },
      )

  partial_past :
      (left : ℕ) (r : Reader)
      → OnFile r
      → length text / block_size < r.block_id
      → 0 < left
      → (r₁ : Reader) × (read_partial C left r ≡ ok ([], r₁)) × OnFile r₁ × (unread text r₁ ≡ [])
  unfolding read_partial fill_buffer read_block read_from_buffer take drop
  partial_past left r v past pos =
      let test : ltb r.final_block_id r.block_id ≡ true = ltb-true (omega (arith, v.final_is)) in
      let asked : ltb 0 left ≡ true = ltb-true pos in
      (
        record r { buffer = []; buffer_pos = 0; buffer_block_id = some r.block_id },
        rw (asked, test) (ap ok (empty_buffer left r)),
        buffer-On r [] 0 (some r.block_id) v,
        past_end r past,
      )

  -- After the blocks: the buffer is used up, and less than a block is asked for or no block is left.
  read_partial_lem :
      (left : ℕ) (r : Reader)
      → OnFile r
      → drop r.buffer_pos r.buffer ≡ []
      → (left < block_size) ⊎ (length text / block_size < r.block_id)
      → (out : Slice) × (r₁ : Reader) × (read_partial C left r ≡ ok (out, r₁))
        × OnFile r₁
        × Gives left (here r) out (unread text r₁)
  unfolding read_partial
  read_partial_lem zero r v used done =
      ([], r, refl, v, record { parts = ap (λ s. s ++ here r) (sym used); size = inl refl })
  read_partial_lem (suc left) r v used done =
      elim (leb-cases r.block_id (length text / block_size)) [
        | inl low ↦
            partial_at (suc left) r v low
              (elim done [ inl few ↦ few | inr past ↦ absurd (omega arith) ]) (omega arith)
        | inr past ↦
            let (r₁, e, v₁, nothing) = partial_past (suc left) r v past (omega arith) in
            (
              [],
              r₁,
              e,
              v₁,
              record { parts = past_end r past ∙ sym nothing; size = inr (nothing, omega arith) },
            )
      ]

  read_rest_lem :
      (remaining : ℕ) (r : Reader)
      → OnFile r
      → drop r.buffer_pos r.buffer ≡ []
      → (out : Slice) × (r₁ : Reader) × (read_rest C remaining r ≡ ok (out, r₁))
        × OnFile r₁
        × Gives remaining (here r) out (unread text r₁)
  unfolding read_rest
  read_rest_lem remaining r v used =
      let (blocks, left, p, id, e, v₁, parts, total, done) =
        read_blocks_lem C key text blocks nonce key_size nonce_size small sealing
          (suc (suc r.final_block_id)) remaining r v (omega (arith, v.final_is)) in
      let (last, r₂, f, v₂, g) = read_partial_lem left (moved p id r) v₁ used done in
      let size : left ≡ remaining - length blocks = omega arith in
      (
        blocks ++ last,
        r₂,
        rw (e, f) refl,
        v₂,
        Gives-append remaining (here r) blocks (here (moved p id r)) last (unread text r₂) parts
            (omega arith) (Gives-count size g),
      )

  -- A read of any size, by a reader on the file of a text of fewer than 2^63 bytes, wherever it stands: it
  -- returns as many bytes as asked for of what is left to read, or all that is left, and leaves the
  -- rest to be read.
  pub read_lem :
      (count : ℕ) (r : Reader)
      → OnFile r
      → (out : Slice) × (r₁ : Reader) × (read C count r ≡ ok (out, r₁))
        × OnFile r₁
        × Gives count (unread text r) out (unread text r₁)
  unfolding read
  read_lem count r v =
      let (first, n, got, held, size) = read_from_buffer_lem count r in
      let buffered = record r { buffer_pos = n } in
      let v₁ : OnFile buffered = buffer-On r r.buffer n r.buffer_block_id v in
      let parts : unread text r ≡ first ++ unread text buffered =
        ap (λ s. s ++ here r) held ∙ append_assoc first (drop n r.buffer) (here r) in
      elim size [
        | inl all ↦
            let none_left : ltb 0 (count - length first) ≡ false = ltb-false (omega arith) in
            (
              first,
              buffered,
              rw (got, none_left) refl,
              v₁,
              record { parts = parts; size = inl all },
            )
        | inr (used, most) ↦
            let after_buffer : unread text r ≡ first ++ here r =
              parts ∙ ap (λ s. first ++ (s ++ here r)) used in
            elim (asking (count - length first) r.block_id r.final_block_id) [
              | inl test ↦
                  let (rest, r₂, e, v₂, g) =
                    read_rest_lem (count - length first) buffered v₁ used in
                  (
                    first ++ rest,
                    r₂,
                    rw (got, test, e) refl,
                    v₂,
                    Gives-append count (unread text r) first (here r) rest (unread text r₂)
                        after_buffer most g,
                  )
              | inr (test, stop) ↦ (
                first,
                buffered,
                rw (got, test) refl,
                v₁,
                record {
                  parts = parts;
                  size = elim stop [
                    | inl none_left ↦ inl (omega arith)
                    | inr past ↦
                        inr (
                          ap (λ s. s ++ here r) used ∙ past_end r (omega (arith, v.final_is)),
                          most,
                        )
                  ];
                },
              )
            ]
      ]
