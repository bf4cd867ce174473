-- ===== src/EncryptedStream/Seeking.antt =====
-- A seek, where the buffer has the last block that was read.
use cbl.Prelude.{
  ℕ, suc, ◌+◌, ◌-◌, ◌*◌, ◌/◌, ◌^◌, ◌≤◌, ◌<◌, ◌≡◌, ◌⊎◌, inl, inr, refl, sym, ap, subst, ◌∙◌, Bool,
  true, false, none, some, ◌++◌, Slice, ok, arith, ◌==◌, min, take, drop, if◌then◌else◌, length,
  length-take, length-drop, length-append, take-drop, take_whole, drop_whole, drop_by,
  drop-append_le, if_true, if_false,
}
use cbl.EncryptedStream.{block_size}
use cbl.EncryptedStream.Aes.{Cipher}
use cbl.EncryptedStream.Blocks.{sealed}
use cbl.EncryptedStream.Parts.{unread, min-cases, leb-cases, moved, filled, buffer-On}
use cbl.EncryptedStream.Reader.{Reader, seek_file, fill_buffer, holds_block, load_block, seek}
use cbl.EncryptedStream.Reading.{On, blocks_size}
use cbl.EncryptedStream.Sequential.{fill_at}

-- The buffer has a block of the text, the last one that was read.
pub record Loaded (text : Slice) (b : ℕ) (r : Reader) : Type 0 where
  pub at : r.buffer_block_id ≡ some b
  pub next : r.block_id ≡ suc b
  pub low : b ≤ length text / block_size
  pub buffer_is : r.buffer ≡ take block_size (drop (b * block_size) text)

-- Nothing was read yet, or the last block that was read is in the buffer.
abbrev pub Fresh : Slice → Reader → Type 0
Fresh text r = (r.buffer_block_id ≡ none) ⊎ ((b : ℕ) × Loaded text b r)

min_left : (a b : ℕ) → min a b ≤ a
min_left a b = ground arith

min_right : (a b : ℕ) → min a b ≤ b
min_right a b = ground arith

==-cases : (a b : ℕ) → ((a ≡ b) × ((a == b) ≡ true)) ⊎ ((a == b) ≡ false)
==-cases a b = ground arith

-- A position that is brought down to the length of the file.
clamped :
    (text : Slice) (pos to len : ℕ)
    → to ≡ min pos len
    → length text ≤ len
    → drop to text ≡ drop pos text
clamped text pos to len to_is long = elim (min-cases pos len) [
  | inl (within, e) ↦ ap (λ k. drop k text) (to_is ∙ e)
  | inr (past, e) ↦ drop_whole to text (omega arith) ∙ sym (drop_whole pos text (omega arith))
]

-- A position past the end of the text is past the end of the last block.
last_block :
    (text : Slice) (to id : ℕ)
    → id ≡ min (to / block_size) (length text / block_size)
    → length (take block_size (drop (id * block_size) text)) < to - id * block_size
    → (length text < suc id * block_size) × (length text < to)
last_block text to id id_is past =
    let from = drop (id * block_size) text in
    let size = length-drop (id * block_size) text in
    elim (leb-cases (suc id * block_size) (length text)) [
      | inl more ↦
          let full = length-take block_size from (omega (arith, size)) in
          absurd (elim (min-cases (to / block_size) (length text / block_size)) [
            | inl (_, e) ↦ omega arith
            | inr (_, e) ↦ omega arith
          ])
      | inr less ↦
          let whole = ap length (take_whole block_size from (omega (arith, size))) in
          (less, omega (arith, size, whole, min_right (to / block_size) (length text / block_size)))
    ]

past_text :
    (text : Slice) (pos to id len k : ℕ)
    → to ≡ min pos len
    → id ≡ min (to / block_size) (length text / block_size)
    → k ≡ length (take block_size (drop (id * block_size) text))
    → length (take block_size (drop (id * block_size) text)) < to - id * block_size
    → drop k (take block_size (drop (id * block_size) text)) ++ drop (suc id * block_size) text
      ≡ drop pos text
past_text text pos to id len k to_is id_is k_is past =
    let front = take block_size (drop (id * block_size) text) in
    let (short, over) = last_block text to id id_is past in
    ap (λ s. s ++ drop (suc id * block_size) text) (drop_whole k front (omega arith))
    ∙ drop_whole (suc id * block_size) text (omega arith)
    ∙ sym (drop_whole pos text (omega (arith, min_left pos len)))

-- A position in a text, in its block.
position_in :
    (text : Slice) (pos to id len k : ℕ)
    → to ≡ min pos len
    → length text ≤ len
    → id ≡ min (to / block_size) (length text / block_size)
    → k ≡ min (to - id * block_size) (length (take block_size (drop (id * block_size) text)))
    → drop k (take block_size (drop (id * block_size) text)) ++ drop (suc id * block_size) text
      ≡ drop pos text
position_in text pos to id len k to_is long id_is k_is =
    let from = drop (id * block_size) text in
    let front = take block_size from in
    let size = length-drop (id * block_size) text in
    let step : suc id * block_size ≡ id * block_size + block_size = omega arith in
    let back : drop block_size from ≡ drop (suc id * block_size) text =
      drop_by block_size (id * block_size) (suc id * block_size) text from refl step in
    elim (min-cases (to - id * block_size) (length front)) [
      | inl (within, e) ↦
          let whole : k ≡ to - id * block_size = omega arith in
          ap (λ s. drop k front ++ s) (sym back)
          ∙ sym (drop-append_le k front (drop block_size from) (omega arith))
          ∙ ap (λ s. drop k s) (take-drop block_size from)
          ∙ drop_by k (id * block_size) to text from refl
              (omega (arith, min_left (to / block_size) (length text / block_size)))
          ∙ clamped text pos to len to_is long
      | inr (past, e) ↦ past_text text pos to id len k to_is id_is (omega arith) past
    ]

load_at :
    (C : Cipher) (id : ℕ) (r : Reader)
    → r.input.is_open ≡ true
    → load_block C id r ≡ fill_buffer C (moved (id * block_size) id r)
unfolding load_block seek_file
load_at C id r e =
    if_true r.input.is_open _ _ e
    ∙ ap (λ i. fill_buffer C (record r { input = i; block_id = id }))
        (if_true r.input.is_open (record r.input { position = id * block_size }) r.input e)

module _ (C : Cipher) (key text blocks nonce : Slice) (key_size : length key ≡ 32)
    (nonce_size : length nonce ≡ 32) (small : length text < 2 ^ 63)
    (sealing : sealed C key 0 text ≡ ok blocks) where
  abbrev OnFile : Reader → Type 0
  OnFile r = On key text (blocks ++ nonce) r

  moved-On :
      (r : Reader) (id : ℕ)
      → id ≤ length text / block_size
      → OnFile r
      → OnFile (moved (id * block_size) id r)
  moved-On r id low v = record {
    key_is = v.key_is;
    open_is = v.open_is;
    bytes_is = v.bytes_is;
    length_is = v.length_is;
    final_is = v.final_is;
    at_most = omega arith;
    position_is = λ _. refl;
  }

  load_block_lem :
      (id : ℕ) (r : Reader)
      → OnFile r
      → id ≤ length text / block_size
      → (r₁ : Reader) × (load_block C id r ≡ ok r₁) × OnFile r₁ × Loaded text id r₁
  load_block_lem id r v low =
      let (p, e, v₁, _) =
        fill_at C key text blocks nonce key_size nonce_size small sealing
          (moved (id * block_size) id r) (moved-On r id low v) low in
      (
        filled p (moved (id * block_size) id r) (take block_size (drop (id * block_size) text)),
        load_at C id r v.open_is ∙ e,
        v₁,
        record { at = refl; next = omega arith; low = low; buffer_is = refl },
      )

  -- The buffer has the block at a number, loaded or not.
  buffer_at :
      (id : ℕ) (r : Reader)
      → OnFile r
      → Fresh text r
      → id ≤ length text / block_size
      → (r₁ : Reader) × ((if holds_block id r.buffer_block_id then ok r else load_block C id r)
          ≡ ok r₁)
        × OnFile r₁
        × Loaded text id r₁
  buffer_at id r v (inl unread_yet) low =
      let (r₁, e, v₁, l) = load_block_lem id r v low in
      let test : holds_block id r.buffer_block_id ≡ false = ap (holds_block id) unread_yet in
      (r₁, if_false (holds_block id r.buffer_block_id) (ok r) (load_block C id r) test ∙ e, v₁, l)
  buffer_at id r v (inr (b, loaded)) low = elim (==-cases id b) [
    | inl (same, test) ↦ (
      r,
      if_true (holds_block id r.buffer_block_id) (ok r) (load_block C id r)
          (ap (holds_block id) loaded.at ∙ test),
      v,
      subst (λ k. Loaded text k r) (sym same) loaded,
    )
    | inr test ↦
        let (r₁, e, v₁, l) = load_block_lem id r v low in
        (
          r₁,
          if_false (holds_block id r.buffer_block_id) (ok r) (load_block C id r)
                (ap (holds_block id) loaded.at ∙ test)
              ∙ e,
          v₁,
          l,
        )
  ]

  -- A seek by a reader on the file of a text of fewer than 2^63 bytes, before its first read or when the
  -- last block that it read is in its buffer: it returns, and what is left to read is the text from
  -- that position on, nothing where that is past its end. The last block is then in the buffer.
  pub seek_lem :
      (pos : ℕ) (r : Reader)
      → OnFile r
      → Fresh text r
      → (r₁ : Reader) × (seek C pos r ≡ ok r₁)
        × OnFile r₁
        × Fresh text r₁
        × (unread text r₁ ≡ drop pos text)
  unfolding seek
  seek_lem pos r v fresh =
      let to = min pos r.input_length in
      let id = min (to / block_size) r.final_block_id in
      let size = blocks_size C key text blocks nonce key_size nonce_size small sealing in
      let low : id ≤ length text / block_size =
        omega (arith, min_right (to / block_size) r.final_block_id, v.final_is) in
      let (r₁, e, v₁, l) = buffer_at id r v fresh low in
      let k = min (to - id * block_size) (length r₁.buffer) in
      (
        record r₁ { buffer_pos = k },
        rw e refl,
        buffer-On r₁ r₁.buffer k r₁.buffer_block_id v₁,
        inr (id, record { at = l.at; next = l.next; low = l.low; buffer_is = l.buffer_is }),
        ap (λ s. drop k s ++ drop (r₁.block_id * block_size) text) l.buffer_is
            ∙ ap
                (λ i.
                  drop k (take block_size (drop (id * block_size) text))
                  ++ drop (i * block_size) text)
                l.next
            ∙ position_in text pos to id r.input_length k refl
                (omega (arith, v.length_is, length-append blocks nonce, size))
                (ap (λ f. min (to / block_size) f) v.final_is)
                (ap (λ s. min (to - id * block_size) (length s)) l.buffer_is),
      )
