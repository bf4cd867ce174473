-- ===== src/EncryptedStream/Writing.antt =====
-- What a writer has written and what it still holds.
use mathlib.Core.List.{append_assoc, append-nil}
use cbl.Prelude.{
  ltb-true, ltb-false, leb-true, ℕ, zero, suc, ◌+◌, ◌-◌, ◌≤◌, ◌<◌, ◌≡◌, ◌⊎◌, inl, inr, refl, sym,
  ap, ◌∙◌, true, false, List, [], ◌∷◌, ◌++◌, Slice, Result, ok, ◌>>=◌, arith, take, drop, length,
  length-take, length-drop, length-append, take-append_le, drop-append_le, take-append_ge,
  drop-append_ge, take_whole, leb, ltb, min,
}
use cbl.EncryptedStream.{
  aes256, block_size, iv_of, next_id, init_encryptor, Writer, new_writer, give, write_block,
  write_blocks, write_full, write, close,
}
use cbl.EncryptedStream.Aes.{Cipher}
use cbl.EncryptedStream.Blocks.{sealed, file_of, sealed-block, sealed-last}

pub write_all : Cipher → List Slice → Writer → Result Writer
unfolding write
write_all C [] w = ok w
write_all C (piece ∷ pieces) w = do w₁ ← write C piece w; write_all C pieces w₁

abbrev pub concat : List Slice → Slice
concat [] = []
concat (piece ∷ pieces) = piece ++ concat pieces

-- A stream opened, written to in pieces, and closed.
pub write_file : Cipher → Slice → Slice → List Slice → Result Writer
unfolding new_writer write_all close
write_file C key nonce pieces = do
  w ← new_writer aes256 key nonce
  w₁ ← write_all C pieces w
  close C w₁

leb-cases : (a b : ℕ) → ((a ≤ b) × (leb a b ≡ true)) ⊎ ((b < a) × (leb a b ≡ false))
leb-cases a b = ground arith

min_right : {a b : ℕ} → b ≤ a → min a b ≡ b
min_right {a} {b} h = ground arith

min_left : {a b : ℕ} → a ≤ b → min a b ≡ a
min_left {a} {b} h = ground arith

module _ (C : Cipher) (key nonce : Slice) where
  -- The text so far is what the output has and the pending bytes: whatever follows, the sealed
  -- form of all of it starts with the output, and goes on with that of the pending bytes and it.
  pub record Pending (text pending : Slice) (w : Writer) : Type 0 where
    pub key_is : w.key ≡ key
    pub nonce_is : w.nonce ≡ nonce
    pub open_is : w.is_open ≡ true
    pub goes_on :
        (rest blocks : Slice)
        → sealed C key w.block_id (pending ++ rest) ≡ ok blocks
        → sealed C key 0 (text ++ rest) ≡ ok (w.output ++ blocks)

  module _ (key_size : length key ≡ 32) where
    write_block_lem :
        (text pending : Slice) (w : Writer)
        → Pending text pending w
        → block_size ≤ length pending
        → (w₁ : Writer) × (write_block C (take block_size pending) false w ≡ ok w₁)
          × Pending text (drop block_size pending) w₁
    unfolding write_block give
    write_block_lem text pending w p long =
        let (c, e, _, _) =
          C.aes256_unpadded key (iv_of w.block_id) (take block_size pending) key_size refl
            (omega (arith, length-take block_size pending long)) in
        (
          record w { block_id = next_id w.block_id; output = w.output ++ c },
          rw (p.key_is, e, p.open_is) refl,
          record {
            key_is = p.key_is;
            nonce_is = p.nonce_is;
            open_is = p.open_is;
            goes_on = λ rest blocks later.
                p.goes_on rest (c ++ blocks) (
                  sealed-block C key w.block_id (pending ++ rest) c blocks
                    (omega (arith, length-append pending rest))
                    (rw (take-append_le block_size pending rest long) e)
                    (rw (drop-append_le block_size pending rest long) later))
                ∙ ap ok (sym (append_assoc w.output c blocks));
          },
        )

    write_blocks_lem :
        (fuel : ℕ) (text pending : Slice) (w : Writer)
        → Pending text pending w
        → length pending < fuel
        → (left : Slice) × (w₁ : Writer) × (write_blocks C fuel pending w ≡ ok (left, w₁))
          × (length left < block_size)
          × Pending text left w₁
    unfolding write_blocks
    write_blocks_lem zero text pending w p enough = absurd (omega arith)
    write_blocks_lem (suc fuel) text pending w p enough =
        elim (leb-cases block_size (length pending)) [
          | inl (long, test) ↦
              let (w₁, e, p₁) = write_block_lem text pending w p long in
              let (left, w₂, f, short, p₂) =
                write_blocks_lem fuel text (drop block_size pending) w₁ p₁
                  (omega (arith, length-drop block_size pending)) in
              (left, w₂, rw (e, f, test) refl, short, p₂)
          | inr (short, test) ↦ (pending, w, rw test refl, short, p)
        ]

    -- Between calls: the buffer is pending, and is not full.
    abbrev pub Held : Slice → Writer → Type 0
    Held text w = (length w.buffer < block_size) × Pending text w.buffer w

    buffer-Pending :
        (text pending buffer : Slice) (w : Writer)
        → Pending text pending w
        → Pending text pending (record w { buffer = buffer })
    buffer-Pending text pending buffer w p = record {
      key_is = p.key_is;
      nonce_is = p.nonce_is;
      open_is = p.open_is;
      goes_on = p.goes_on;
    }

    append-Pending :
        (text pending more : Slice) (w : Writer)
        → Pending text pending w
        → Pending (text ++ more) (pending ++ more) w
    append-Pending text pending more w p = record {
      key_is = p.key_is;
      nonce_is = p.nonce_is;
      open_is = p.open_is;
      goes_on = λ rest blocks later.
          ap (λ t. sealed C key 0 t) (append_assoc text more rest)
          ∙ p.goes_on (more ++ rest) blocks
              (ap (λ t. sealed C key w.block_id t) (sym (append_assoc pending more rest)) ∙ later);
    }

    write_full_lem :
        (text pending : Slice) (w : Writer)
        → Pending text pending w
        → block_size ≤ length pending
        → (w₁ : Writer) × (write_full C
              (drop block_size pending)
              (record w { buffer = take block_size pending })
            ≡ ok w₁)
          × Held text w₁
    unfolding write_full
    write_full_lem text pending w p long =
        let filled = record w { buffer = take block_size pending } in
        let (w₁, e, p₁) =
          write_block_lem text pending filled
            (buffer-Pending text pending (take block_size pending) w p) long in
        let (left, w₂, f, short, p₂) =
          write_blocks_lem (suc (length (drop block_size pending))) text (drop block_size pending)
            w₁ p₁ (omega arith) in
        (record w₂ { buffer = left }, rw (e, f) refl, (short, buffer-Pending text left left w₂ p₂))

    write_past :
        (piece : Slice) (w : Writer) (filled later : Slice) (room : ℕ)
        → min (block_size - length w.buffer) (length piece) ≡ room
        → w.buffer ++ take room piece ≡ filled
        → drop room piece ≡ later
        → ltb (length filled) block_size ≡ false
        → write C piece w ≡ write_full C later (record w { buffer = filled })
    unfolding write
    write_past piece w filled later room all front back full = rw (all, front, back, full) refl

    write_lem :
        (text piece : Slice) (w : Writer)
        → Held text w
        → (w₁ : Writer) × (write C piece w ≡ ok w₁) × Held (text ++ piece) w₁
    unfolding write
    write_lem text piece w (short, p) =
        let whole = w.buffer ++ piece in
        let p₁ = append-Pending text w.buffer piece w p in
        elim (leb-cases block_size (length w.buffer + length piece)) [
          | inr (few, test) ↦
              let all : min (block_size - length w.buffer) (length piece) ≡ length piece =
                min_right (omega arith) in
              let same : take (length piece) piece ≡ piece =
                take_whole (length piece) piece (omega arith) in
              let size = length-append w.buffer piece in
              let less : ltb (length whole) block_size ≡ true = ltb-true (omega (arith, size)) in
              (
                record w { buffer = whole },
                rw (all, same, less) refl,
                (omega (arith, size), buffer-Pending (text ++ piece) whole whole w p₁),
              )
          | inl (many, test) ↦
              let room = block_size - length w.buffer in
              let all : min room (length piece) ≡ room = min_left (omega arith) in
              let size = length-append w.buffer piece in
              let front : w.buffer ++ take room piece ≡ take block_size whole =
                sym (take-append_ge block_size w.buffer piece (omega arith)) in
              let back : drop room piece ≡ drop block_size whole =
                sym (drop-append_ge block_size w.buffer piece (omega arith)) in
              let full : ltb (length (take block_size whole)) block_size ≡ false =
                ltb-false
                  (omega (arith, size, length-take block_size whole (omega (arith, size)))) in
              let (w₁, e, held) = write_full_lem (text ++ piece) whole w p₁ (omega (arith, size)) in
              (
                w₁,
                write_past piece w (take block_size whole) (drop block_size whole) room all front
                      back full
                    ∙ e,
                held,
              )
        ]

    write_all_lem :
        (pieces : List Slice) (text : Slice) (w : Writer)
        → Held text w
        → (w₁ : Writer) × (write_all C pieces w ≡ ok w₁) × Held (text ++ concat pieces) w₁
    unfolding write_all
    write_all_lem [] text w held = (w, refl, rw append-nil held)
    write_all_lem (piece ∷ pieces) text w held =
        let (w₁, e, held₁) = write_lem text piece w held in
        let (w₂, f, held₂) = write_all_lem pieces (text ++ piece) w₁ held₁ in
        (w₂, rw e f, rw (← append_assoc text piece (concat pieces)) held₂)

    close_lem :
        (text : Slice) (w : Writer)
        → Held text w
        → (w₁ : Writer) × (close C w ≡ ok w₁)
          × (file_of C key nonce text ≡ ok w₁.output)
          × (w₁.is_open ≡ false)
    unfolding close write_block give file_of
    close_lem text w (short, p) =
        let (c, e, _, _) = C.aes256_padded key (iv_of w.block_id) w.buffer key_size refl in
        let last : sealed C key w.block_id (w.buffer ++ []) ≡ ok c =
          rw append-nil (sealed-last C key w.block_id w.buffer c short e) in
        let all : sealed C key 0 text ≡ ok (w.output ++ c) =
          ap (λ t. sealed C key 0 t) (sym (append-nil text)) ∙ p.goes_on [] c last in
        (
          record w {
            block_id = next_id w.block_id;
            output = (w.output ++ c) ++ nonce;
            is_open = false;
          },
          rw (p.key_is, e, p.open_is, p.nonce_is) refl,
          rw all refl,
          refl,
        )

module _ (C : Cipher) where
  new_writer_lem :
      (key nonce : Slice)
      → (long : 32 ≤ length key) → 32 ≤ length nonce
      → (w : Writer) × (new_writer aes256 key nonce ≡ ok w)
        × Held C (take 32 key) (take 32 nonce) (length-take 32 key long) [] w
  unfolding new_writer init_encryptor
  new_writer_lem key nonce long enough = (
    record {
      key = take 32 key;
      nonce = take 32 nonce;
      buffer = [];
      block_id = 0;
      output = [];
      is_open = true;
    },
    rw (leb-true long, leb-true enough) refl,
    (
      omega arith,
      record {
        key_is = refl;
        nonce_is = refl;
        open_is = refl;
        goes_on = λ rest blocks later. later;
      },
    ),
  )

  pub write_file_lem :
      (key nonce : Slice) (pieces : List Slice)
      → 32 ≤ length key
      → 32 ≤ length nonce
      → (w : Writer) × (write_file C key nonce pieces ≡ ok w)
        × (file_of C (take 32 key) (take 32 nonce) (concat pieces) ≡ ok w.output)
        × (w.is_open ≡ false)
  unfolding write_file
  write_file_lem key nonce pieces long enough =
      let size = length-take 32 key long in
      let (w, e, held) = new_writer_lem key nonce long enough in
      let (w₁, f, held₁) = write_all_lem C (take 32 key) (take 32 nonce) size pieces [] w held in
      let (w₂, g, is_file, closed) =
        close_lem C (take 32 key) (take 32 nonce) size (concat pieces) w₁ held₁ in
      (w₂, rw (e, f, g) refl, is_file, closed)
