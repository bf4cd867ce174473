-- ===== src/EncryptedStream/Tests.antt =====
-- Streams of the sample cipher.
use cbl.Prelude.{
  inl, ◌≡◌, refl, arith, none, List, [], ◌∷◌, ◌++◌, Slice, Result, ok, ◌>>=◌, length, take, drop,
}
use cbl.EncryptedStream.{Writer, aes256, init_encryptor}
use cbl.EncryptedStream.Blocks.{file_of, sealed, sealed_blocks}
use cbl.EncryptedStream.Reader.{
  Reader, new_reader, read, seek, get_length, file_length, seek_file, read_file, read_from_buffer,
  read_rest, read_blocks, read_partial, read_block, decrypt_block, read_input, fill_buffer,
  load_block, tell,
}
use cbl.EncryptedStream.Parts.{unread, Gives}
use cbl.EncryptedStream.Seeking.{Fresh, seek_lem}
use cbl.EncryptedStream.Sequential.{read_lem}
use cbl.EncryptedStream.Reading.{On}
use cbl.EncryptedStream.RoundTrip.{read_pieces, cuts, read_pieces-write_file, opened}
use cbl.EncryptedStream.Sample.{sample, padding, plain, last_byte}
use cbl.EncryptedStream.Writing.{concat, write_file}

abbrev key : Slice
key = padding 7 32

abbrev nonce : Slice
nonce = padding 9 40

abbrev pieces : List Slice
pieces = (1 ∷ 2 ∷ 3 ∷ []) ∷ [] ∷ (4 ∷ 5 ∷ []) ∷ []

read_pieces-write_file_example :
    (w : Writer) × (write_file sample key nonce pieces ≡ ok w)
    × (read_pieces sample key w.output (2 ∷ 7 ∷ []) ≡ ok (cuts (2 ∷ 7 ∷ []) (concat pieces)))
unfolding padding
read_pieces-write_file_example =
    read_pieces-write_file sample key nonce pieces (2 ∷ 7 ∷ []) (omega arith) (omega arith)
      (omega arith)

-- A reader of five bytes, padded to sixteen, before its first block.
abbrev short : Slice
short = 1 ∷ 2 ∷ 3 ∷ 4 ∷ 5 ∷ []

abbrev blocks : Slice
blocks = short ++ padding 11 11

abbrev fresh : Reader
fresh = record {
  key = key;
  input = opened (blocks ++ key);
  input_length = 16;
  final_block_id = 0;
  block_id = 0;
  buffer = [];
  buffer_pos = 0;
  buffer_block_id = none;
  cleartext_length = none;
}

fresh-On : On key short (blocks ++ key) fresh
unfolding padding
fresh-On = record {
  key_is = refl;
  open_is = refl;
  bytes_is = refl;
  length_is = refl;
  final_is = omega arith;
  at_most = omega arith;
  position_is = λ _. refl;
}

sealed-short : sealed sample key 0 short ≡ ok blocks
unfolding sealed sealed_blocks plain padding
sealed-short = refl

key_size : length key ≡ 32
unfolding padding
key_size = refl

read_lem_example :
    (out : Slice) × (r : Reader) × (read sample 3 fresh ≡ ok (out, r))
    × On key short (blocks ++ key) r
    × Gives 3 (unread short fresh) out (unread short r)
read_lem_example =
    read_lem sample key short blocks key key_size key_size (omega arith) sealed-short 3 fresh
      fresh-On

seek_lem_example :
    (r : Reader) × (seek sample 2 fresh ≡ ok r)
    × On key short (blocks ++ key) r
    × Fresh short r
    × (unread short r ≡ drop 2 short)
seek_lem_example =
    seek_lem sample key short blocks key key_size key_size (omega arith) sealed-short 2 fresh
      fresh-On (inl refl)

-- Three blocks of ones, twos and threes.
abbrev text : Slice
text = padding 1 4096 ++ (padding 2 4096 ++ padding 3 10)

-- A seek back into the block in the buffer, after the block behind it was read past the buffer.
back_and_forth : Result Slice
unfolding file_of sealed sealed_blocks new_reader init_encryptor file_length seek_file read_file
back_and_forth = do
  file ← file_of sample key (padding 9 32) text
  r ← new_reader aes256 key (opened file)
  (_, r₁) ← read sample 10 r
  (_, r₂) ← read sample 8182 r₁
  r₃ ← seek sample 5 r₂
  (out, _) ← read sample 5000 r₃
  ok (length out ∷ take 3 (drop 4090 out))

-- The block of twos is skipped: after the last of the ones comes a three.
seek_skips : back_and_forth ≡ ok (4101 ∷ 1 ∷ 3 ∷ 3 ∷ [])
unfolding back_and_forth padding plain last_byte take drop read read_from_buffer read_rest
    read_blocks read_partial read_block decrypt_block read_input fill_buffer seek load_block
seek_skips = refl

-- The length is asked for after a whole block was read past the buffer.
asked_length : Result Slice
unfolding file_of sealed sealed_blocks new_reader init_encryptor file_length seek_file read_file
asked_length = do
  file ← file_of sample key (padding 9 32) text
  r ← new_reader aes256 key (opened file)
  (_, r₁) ← read sample 4096 r
  (n, r₂) ← get_length sample r₁
  (out, _) ← read sample 1 r₂
  ok (n ∷ out)

-- The stream is back at its start: what is read next is a one.
length_moves : asked_length ≡ ok (8202 ∷ 1 ∷ [])
unfolding asked_length padding plain last_byte take drop read read_from_buffer read_rest read_blocks
    read_partial read_block decrypt_block read_input fill_buffer seek load_block get_length tell
length_moves = refl
