-- ===== src/EncryptedStream/Aes.antt =====
-- The cipher that LiteCore/Support/SecureSymmetricCrypto.cc calls: AES-256 in CBC mode of the platform.
use cbl.Prelude.{◌+◌, ◌*◌, ◌/◌, ◌%◌, ◌≡◌, Bool, true, false, Slice, Result, ok, length}

-- `AES256(encrypt, key, iv, padding, …, src)`: the output, or an error of the library. What is
-- documented of it: without padding, whole cipher blocks of 16 bytes become as many bytes; with PKCS7
-- padding, anything becomes the next higher number of cipher blocks; and decryption undoes both.
pub record Cipher : Type 0 where
  pub aes256 : Bool → Slice → Slice → Bool → Slice → Result Slice
  pub aes256_unpadded :
      (key iv s : Slice)
      → length key ≡ 32
      → length iv ≡ 16
      → length s % 16 ≡ 0
      → (c : Slice) × (aes256 true key iv false s ≡ ok c)
        × (length c ≡ length s)
        × (aes256 false key iv false c ≡ ok s)
  pub aes256_padded :
      (key iv s : Slice)
      → length key ≡ 32
      → length iv ≡ 16
      → (c : Slice) × (aes256 true key iv true s ≡ ok c)
        × (length c ≡ (length s / 16 + 1) * 16)
        × (aes256 false key iv true c ≡ ok s)
