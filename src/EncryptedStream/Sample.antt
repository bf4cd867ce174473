-- ===== src/EncryptedStream/Sample.antt =====
-- A cipher for the tests: it hides nothing, and pads as PKCS7 does.

use cbl.Prelude.{
  ℕ, zero, suc, ◌-◌, ◌%◌, ◌≡◌, refl, ap, ◌∙◌, Bool, true, false, [], ◌∷◌, ◌++◌, Slice, Result, ok,
  arith, take, take_front, length, length-append,
}
use cbl.EncryptedStream.Aes.{Cipher}

unfoldable pub padding : ℕ → ℕ → Slice
padding b zero = []
padding b (suc n) = b ∷ padding b n

unfoldable pub last_byte : ℕ → Slice → ℕ
last_byte b [] = b
last_byte b (c ∷ s) = last_byte c s

unfoldable pub plain : Bool → Slice → Slice → Bool → Slice → Result Slice
unfolding padding last_byte
plain encrypt key iv false s = ok s
plain true key iv true s = ok (s ++ padding (16 - length s % 16) (16 - length s % 16))
plain false key iv true s = ok (take (length s - last_byte 0 s) s)

pub length-padding : (b n : ℕ) → length (padding b n) ≡ n
unfolding padding
length-padding b zero = refl
length-padding b (suc n) = ap suc (length-padding b n)

last_byte-padding : (b c : ℕ) (s : Slice) (n : ℕ) → last_byte c (s ++ padding b (suc n)) ≡ b
unfolding padding last_byte
last_byte-padding b c [] zero = refl
last_byte-padding b c [] (suc n) = last_byte-padding b b [] n
last_byte-padding b c (x ∷ s) n = last_byte-padding b x s n

unpad :
    (s : Slice) (n : ℕ)
    → take
        (length (s ++ padding (suc n) (suc n)) - last_byte 0 (s ++ padding (suc n) (suc n)))
        (s ++ padding (suc n) (suc n))
      ≡ s
unpad s n =
    take_front (length (s ++ padding (suc n) (suc n)) - last_byte 0 (s ++ padding (suc n) (suc n)))
      s (padding (suc n) (suc n))
      (omega (
        arith,
        length-append s (padding (suc n) (suc n)),
        length-padding (suc n) (suc n),
        last_byte-padding (suc n) 0 s n,
      ))

pad_lem :
    (s : Slice) (n k : ℕ)
    → 16 - length s % 16 ≡ k
    → k ≡ suc n
    → take (length (s ++ padding k k) - last_byte 0 (s ++ padding k k)) (s ++ padding k k) ≡ s
pad_lem s n k _ e =
    ap (λ m. take (length (s ++ padding m m) - last_byte 0 (s ++ padding m m)) (s ++ padding m m)) e
    ∙ unpad s n

pub unpadded : (encrypt : Bool) (key iv s : Slice) → plain encrypt key iv false s ≡ ok s
unfolding plain
unpadded encrypt key iv s = refl

pub padded :
    (key iv s : Slice)
    → plain true key iv true s ≡ ok (s ++ padding (16 - length s % 16) (16 - length s % 16))
unfolding plain
padded key iv s = refl

pub stripped :
    (key iv s : Slice)
    → plain false key iv true (s ++ padding (16 - length s % 16) (16 - length s % 16)) ≡ ok s
unfolding plain
stripped key iv s =
    let k = 16 - length s % 16 in
    let pos : k ≡ suc (k - 1) = omega arith in ap ok (pad_lem s (k - 1) k refl pos)

abbrev pub sample : Cipher
sample = record {
  aes256 = plain;
  aes256_unpadded = λ key iv s _ _ _. (s, unpadded true key iv s, refl, unpadded false key iv s);
  aes256_padded = λ key iv s _ _.
      let k = 16 - length s % 16 in
      (
        s ++ padding k k,
        padded key iv s,
        omega (arith, length-append s (padding k k), length-padding k k),
        stripped key iv s,
      );
}
