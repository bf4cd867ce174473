-- ===== src/EncryptedStream/Parts.antt =====
-- Parts of what a reader has left to read, and its buffer.
use mathlib.Core.List.{append_assoc, append-nil}
use cbl.Prelude.{
  ℕ, ◌+◌, ◌-◌, ◌*◌, ◌≤◌, ◌<◌, ◌≡◌, refl, sym, ap, subst, ◌∙◌, true, false, ◌&&◌, ◌⊎◌, inl, inr,
  Option, some, [], ◌∷◌, ◌++◌, Slice, arith, take, drop, length, length-take, length-drop,
  length-append, ltb, leb, min, take_whole, drop_whole, take_front, drop_front, drop_by, take-drop,
}
use cbl.EncryptedStream.{block_size}
use cbl.EncryptedStream.Reader.{Reader, read_from_buffer}
use cbl.EncryptedStream.Reading.{On, advanced}

-- A part of what is left to read was read: so many bytes, or all that is left.
pub record Gives (count : ℕ) (left out left_after : Slice) : Type 0 where
  pub parts : left ≡ out ++ left_after
  pub size : (length out ≡ count) ⊎ ((left_after ≡ []) × (length out ≤ count))

pub Gives-take :
    (count : ℕ) (left out after : Slice) → Gives count left out after → out ≡ take count left
Gives-take count left out after g = elim g.size [
  | inl e ↦ sym (ap (λ s. take count s) g.parts ∙ take_front count out after e)
  | inr (nothing, e) ↦
      let all : left ≡ out = g.parts ∙ ap (λ s. out ++ s) nothing ∙ append-nil out in
      sym (ap (λ s. take count s) all ∙ take_whole count out e)
]

pub Gives-drop :
    (count : ℕ) (left out after : Slice) → Gives count left out after → after ≡ drop count left
Gives-drop count left out after g = elim g.size [
  | inl e ↦ sym (ap (λ s. drop count s) g.parts ∙ drop_front count out after e)
  | inr (nothing, e) ↦
      let all : left ≡ out = g.parts ∙ ap (λ s. out ++ s) nothing ∙ append-nil out in
      nothing ∙ sym (ap (λ s. drop count s) all ∙ drop_whole count out e)
]

pub Gives-count :
    {m n : ℕ} {left out after : Slice} → m ≡ n → Gives m left out after → Gives n left out after
Gives-count {left} {out} {after} e g = subst (λ k. Gives k left out after) e g

-- Two parts, one after the other.
pub Gives-append :
    (count : ℕ) (left out mid more after : Slice)
    → left ≡ out ++ mid
    → length out ≤ count
    → Gives (count - length out) mid more after
    → Gives count left (out ++ more) after
Gives-append count left out mid more after parts low g = record {
  parts = parts ∙ ap (λ s. out ++ s) g.parts ∙ sym (append_assoc out more after);
  size = elim g.size [
    | inl e ↦ inl (omega (arith, length-append out more))
    | inr (nothing, e) ↦ inr (nothing, omega (arith, length-append out more))
  ];
}

-- What a reader has still to give: the rest of its buffer, and the text from its next block on.
abbrev pub unread : Slice → Reader → Slice
unread text r = drop r.buffer_pos r.buffer ++ drop (r.block_id * block_size) text

pub min-cases : (a b : ℕ) → ((a ≤ b) × (min a b ≡ a)) ⊎ ((b < a) × (min a b ≡ b))
min-cases a b = ground arith

pub cut_sizes :
    (k n m : ℕ) (xs : Slice)
    → length xs ≡ m
    → k ≡ min m n
    → (length (take k xs) ≡ n) ⊎ ((drop k xs ≡ []) × (length (take k xs) ≤ n))
cut_sizes k n m xs size least = elim (min-cases m n) [
  | inl (le, e) ↦
      let whole = take_whole k xs (omega arith) in
      inr (drop_whole k xs (omega arith), omega (arith, ap length whole))
  | inr (lt, e) ↦ inl (length-take k xs (omega arith) ∙ omega arith)
]

pub map_right : {A : Type 0} {B C D : Type 0} → (B → C) → (A ⊎ (B × D)) → (A ⊎ (C × D))
map_right f (inl a) = inl a
map_right f (inr (b, d)) = inr (f b, d)

-- From the buffer comes as much as is asked for, or all of it.
pub read_from_buffer_lem :
    (count : ℕ) (r : Reader)
    → (out : Slice) × (n : ℕ) × (read_from_buffer count r ≡ (out, record r { buffer_pos = n }))
      × (drop r.buffer_pos r.buffer ≡ out ++ drop n r.buffer)
      × ((length out ≡ count) ⊎ ((drop n r.buffer ≡ []) × (length out ≤ count)))
unfolding read_from_buffer
read_from_buffer_lem count r =
    let k = min (length r.buffer - r.buffer_pos) count in
    let held = drop r.buffer_pos r.buffer in
    let size : length held ≡ length r.buffer - r.buffer_pos = length-drop r.buffer_pos r.buffer in
    let later : drop k held ≡ drop (r.buffer_pos + k) r.buffer =
      drop_by k r.buffer_pos (r.buffer_pos + k) r.buffer held refl refl in
    (
      take k held,
      r.buffer_pos + k,
      refl,
      sym (take-drop k held) ∙ ap (λ s. take k held ++ s) later,
      map_right (λ e. sym later ∙ e)
          (cut_sizes k count (length r.buffer - r.buffer_pos) held size refl),
    )

pub going :
    (remaining id final : ℕ)
    → (((leb block_size remaining && leb id final) ≡ true)
        × (block_size ≤ remaining)
        × (id ≤ final))
      ⊎ (((leb block_size remaining && leb id final) ≡ false)
          × ((remaining < block_size) ⊎ (final < id)))
going remaining id final = ground arith

pub asking :
    (n id final : ℕ)
    → ((ltb 0 n && leb id final) ≡ true)
      ⊎ (((ltb 0 n && leb id final) ≡ false) × ((n ≡ 0) ⊎ (final < id)))
asking n id final = ground arith

pub map_low : {a f g : ℕ} {A : Type 0} → f ≡ g → A ⊎ (f < a) → A ⊎ (g < a)
map_low e (inl x) = inl x
map_low e (inr lt) = inr (omega arith)

pub nil_of : (xs : Slice) → length xs ≡ 0 → xs ≡ []
nil_of [] e = refl
nil_of (x ∷ xs) e = absurd (omega arith)

pub drop_zero : (xs : Slice) → drop 0 xs ≡ xs
unfolding drop
drop_zero xs = refl

pub leb-cases : (a b : ℕ) → (a ≤ b) ⊎ (b < a)
leb-cases a b = ground arith

-- The reader at another block and place of its file.
abbrev pub moved : ℕ → ℕ → Reader → Reader
moved p id r = record r { input = record r.input { position = p }; block_id = id }

-- The reader after a block that was read into the buffer.
abbrev pub filled : ℕ → Reader → Slice → Reader
filled p r buffer = record (advanced p r) {
  buffer = buffer;
  buffer_pos = 0;
  buffer_block_id = some r.block_id;
}

-- What holds of a reader's place in the file does not depend on its buffer.
pub buffer-On :
    {key text file : Slice} (r : Reader) (buffer : Slice) (n : ℕ) (at : Option ℕ)
    → On key text file r
    → On key text file (record r { buffer = buffer; buffer_pos = n; buffer_block_id = at })
buffer-On r buffer n at v = record {
  key_is = v.key_is;
  open_is = v.open_is;
  bytes_is = v.bytes_is;
  length_is = v.length_is;
  final_is = v.final_is;
  at_most = v.at_most;
  position_is = v.position_is;
}

pub empty_buffer :
    (count : ℕ) (r : Reader)
    → read_from_buffer count
        (record r { buffer = []; buffer_pos = 0; buffer_block_id = some r.block_id })
      ≡ ([], record r { buffer = []; buffer_pos = 0; buffer_block_id = some r.block_id })
unfolding read_from_buffer take drop
empty_buffer count r = let none_left : min 0 count ≡ 0 = ground arith in rw none_left refl

-- Where less was taken than asked for, nothing follows.
pub take_short : (n : ℕ) (xs ys : Slice) → xs ≡ take n xs ++ ys → length (take n xs) < n → ys ≡ []
take_short n xs ys parts short = elim (leb-cases n (length xs)) [
  | inl long ↦ absurd (omega (arith, length-take n xs long))
  | inr less ↦
      let whole = take_whole n xs (omega arith) in
      nil_of ys (omega (arith, length-append (take n xs) ys, ap length parts, ap length whole))
]
