-- ===== src/EncryptedStream/RoundTrip.antt =====
-- A file written in pieces, and read in others.
use cbl.Prelude.{
  ltb-false, leb-true, ℕ, ◌/◌, ◌^◌, ◌≤◌, ◌<◌, ◌≡◌, refl, sym, ap, ◌∙◌, true, false, none, List, [],
  ◌∷◌, ◌++◌, Slice, Result, ok, ◌>>=◌, >>=-eq-ok, ok-injective, arith, take, drop, length,
  length-take, length-append, ltb, leb, drop_front, take_whole,
}
use cbl.EncryptedStream.{aes256, block_size, init_encryptor, Writer}
use cbl.EncryptedStream.Aes.{Cipher}
use cbl.EncryptedStream.Blocks.{sealed, file_of}
use cbl.EncryptedStream.Reader.{
  FileStream, Reader, minus, new_reader, read, file_length, seek_file, read_file,
}
use cbl.EncryptedStream.Reading.{On, blocks_size}
use cbl.EncryptedStream.Parts.{unread, Gives-take, Gives-drop}
use cbl.EncryptedStream.Sequential.{read_lem}
use cbl.EncryptedStream.Writing.{write_file, write_file_lem, concat}

abbrev pub opened : Slice → FileStream
opened file = record { bytes = file; position = 0; is_open = true }

pub read_all : Cipher → List ℕ → Reader → Result (List Slice)
read_all C [] r = ok []
read_all C (count ∷ counts) r = do
  (out, r₁) ← read C count r
  outs ← read_all C counts r₁
  ok (out ∷ outs)

-- A file opened, and read so many bytes at a time.
pub read_pieces : Cipher → Slice → Slice → List ℕ → Result (List Slice)
unfolding new_reader read_all
read_pieces C key file counts = do r ← new_reader aes256 key (opened file); read_all C counts r

-- A text cut where the reads end.
abbrev pub cuts : List ℕ → Slice → List Slice
cuts [] text = []
cuts (count ∷ counts) text = take count text ∷ cuts counts (drop count text)

module _ (C : Cipher) (key text blocks nonce : Slice) (long : 32 ≤ length key)
    (nonce_size : length nonce ≡ 32) (small : length text < 2 ^ 63)
    (sealing : sealed C (take 32 key) 0 text ≡ ok blocks) where
  abbrev file : Slice
  file = blocks ++ nonce

  abbrev pub started : Reader
  started = record {
    key = take 32 key;
    input = opened file;
    input_length = minus (length file) 32;
    final_block_id = minus (minus (length file) 32) 1 / block_size;
    block_id = 0;
    buffer = [];
    buffer_pos = 0;
    buffer_block_id = none;
    cleartext_length = none;
  }

  input_size : minus (length file) 32 ≡ length blocks
  input_size = omega (
    arith,
    length-append blocks nonce,
    blocks_size C (take 32 key) text blocks nonce (length-take 32 key long) nonce_size small
        sealing,
  )

  started-On : On (take 32 key) text file started
  started-On =
      let size =
        blocks_size C (take 32 key) text blocks nonce (length-take 32 key long) nonce_size small
          sealing in
      record {
        key_is = refl;
        open_is = refl;
        bytes_is = refl;
        length_is = omega (arith, input_size, length-append blocks nonce);
        final_is = omega (arith, input_size, size);
        at_most = omega arith;
        position_is = λ _. omega arith;
      }

  new_reader_lem : new_reader aes256 key (opened file) ≡ ok started
  unfolding new_reader init_encryptor file_length seek_file read_file
  new_reader_lem =
      let trailer : take 32 (drop (minus (length file) 32) file) ≡ nonce =
        ap (λ s. take 32 s) (drop_front (minus (length file) 32) blocks nonce (sym input_size))
        ∙ take_whole 32 nonce (omega arith) in
      let complete : ltb (length nonce) 32 ≡ false = ltb-false (omega arith) in
      let nonce_long : leb 32 (length nonce) ≡ true = leb-true (omega arith) in
      rw (trailer, complete, nonce_long, leb-true long) refl

  read_all_lem :
      (counts : List ℕ) (r : Reader)
      → On (take 32 key) text file r
      → read_all C counts r ≡ ok (cuts counts (unread text r))
  unfolding read_all
  read_all_lem [] r v = refl
  read_all_lem (count ∷ counts) r v =
      let (out, r₁, e, v₁, g) =
        read_lem C (take 32 key) text blocks nonce (length-take 32 key long) nonce_size small
          sealing count r v in
      let first = Gives-take count (unread text r) out (unread text r₁) g in
      let later = Gives-drop count (unread text r) out (unread text r₁) g in
      rw (e, read_all_lem counts r₁ v₁, first, later) refl

  pub read_pieces_lem : (counts : List ℕ) → read_pieces C key file counts ≡ ok (cuts counts text)
  unfolding read_pieces drop
  read_pieces_lem counts = rw new_reader_lem (read_all_lem counts started started-On)

-- Any pieces, fewer than 2^63 bytes in all, written to a stream under a key and a nonce of 32 bytes or
-- more, and the stream closed: what it has put out is read back under the same key as the same text, in
-- reads of any sizes.
pub read_pieces-write_file :
    (C : Cipher) (key nonce : Slice) (pieces : List Slice) (counts : List ℕ)
    → 32 ≤ length key
    → 32 ≤ length nonce
    → length (concat pieces) < 2 ^ 63
    → (w : Writer) × (write_file C key nonce pieces ≡ ok w)
      × (read_pieces C key w.output counts ≡ ok (cuts counts (concat pieces)))
unfolding file_of
read_pieces-write_file C key nonce pieces counts long enough small =
    let (w, e, is_file, closed) = write_file_lem C key nonce pieces long enough in
    let (blocks, sealing, last) = >>=-eq-ok (sealed C (take 32 key) 0 (concat pieces)) _ is_file in
    (
      w,
      e,
      ap (λ s. read_pieces C key s counts) (sym (ok-injective last))
          ∙ read_pieces_lem C key (concat pieces) blocks (take 32 nonce) long
              (length-take 32 nonce enough) small sealing counts,
    )
