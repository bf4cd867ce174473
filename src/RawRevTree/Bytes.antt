-- ===== src/RawRevTree/Bytes.antt =====
-- The numbers, the flags and the cuts of the stored form.
use cbl.Prelude.{
  ℕ, suc, ◌+◌, ◌/◌, ◌%◌, ◌^◌, ◌<◌, ◌≤◌, ◌≡◌, refl, ap, ◌∙◌, Bool, true, false, ◌||◌, none, some, [],
  ◌∷◌, ◌++◌, Slice, ok, arith, ◌==◌, length,
}
use cbl.RevTree.{Flags}
use cbl.RawRevTree.{
  enc32, dec16, dec32, bit, bits, test_bit, stored_flags, loaded_flags, split_at, at_size, next_rev,
}

pub dec16_lem : (n : ℕ) → n < 2 ^ 16 → dec16 (n / 2 ^ 8 % 2 ^ 8) (n % 2 ^ 8) ≡ n
dec16_lem n low = omega arith

pub dec32_lem :
    (n : ℕ)
    → n < 2 ^ 32
    → dec32 (n / 2 ^ 24 % 2 ^ 8) (n / 2 ^ 16 % 2 ^ 8) (n / 2 ^ 8 % 2 ^ 8) (n % 2 ^ 8) ≡ n
dec32_lem n low = omega arith

pub split_at-append : (s t : Slice) → split_at (length s) (s ++ t) ≡ some (s, t)
unfolding split_at
split_at-append [] t = refl
split_at-append (b ∷ s) t = rw (split_at-append s t) refl

at_size-append :
    (b : ℕ) (s t after : Slice)
    → at_size (suc (length s)) (b ∷ (s ++ t)) after ≡ ok (some (b ∷ s), t)
unfolding at_size
at_size-append b s t after = rw (split_at-append (b ∷ s) t, at_size) refl

-- A record of the size that it says is cut off.
pub next_rev-append :
    (n : ℕ) (s t : Slice)
    → n < 2 ^ 32
    → n ≡ 4 + length s
    → next_rev ((enc32 n ++ s) ++ t) ≡ ok (some (enc32 n ++ s), t)
unfolding next_rev enc32
next_rev-append n s t low size =
    let whole : n ≡ suc (suc (suc (suc (length s)))) = omega arith in
    rw (dec32_lem n low) (
      ap (λ m. at_size m (enc32 n ++ (s ++ t)) (s ++ t)) whole
      ∙ at_size-append (n / 2 ^ 24 % 2 ^ 8)
          ((n / 2 ^ 16 % 2 ^ 8) ∷ (n / 2 ^ 8 % 2 ^ 8) ∷ (n % 2 ^ 8) ∷ s) t (s ++ t))

pub next_rev_end : (t : Slice) → next_rev (enc32 0 ++ t) ≡ ok (none, t)
unfolding next_rev enc32 at_size
next_rev_end t = refl

bit-le : (b : Bool) → bit b ≤ 1
bit-le true = omega arith
bit-le false = omega arith

bit-eq : (b : Bool) → (bit b == 1) ≡ b
bit-eq true = refl
bit-eq false = refl

is_set : (n : ℕ) (b : Bool) → n ≡ bit b → (n == 1) ≡ b
is_set n b e = ap (λ m. m == 1) e ∙ bit-eq b

module _ (a b c d e f g h : Bool) where
  abbrev eight : ℕ
  eight = bits (a ∷ b ∷ c ∷ d ∷ e ∷ f ∷ g ∷ h ∷ [])

  test_0 : test_bit 0 eight ≡ a
  test_0 = is_set _ a (omega (arith, bit-le a))

  test_1 : test_bit 1 eight ≡ b
  test_1 = is_set _ b (omega (arith, bit-le a, bit-le b))

  test_2 : test_bit 2 eight ≡ c
  test_2 = is_set _ c (omega (arith, bit-le a, bit-le b, bit-le c))

  test_3 : test_bit 3 eight ≡ d
  test_3 = is_set _ d (omega (arith, bit-le a, bit-le b, bit-le c, bit-le d))

  test_4 : test_bit 4 eight ≡ e
  test_4 = is_set _ e (omega (arith, bit-le a, bit-le b, bit-le c, bit-le d, bit-le e))

  test_5 : test_bit 5 eight ≡ f
  test_5 = is_set _ f (omega (arith, bit-le a, bit-le b, bit-le c, bit-le d, bit-le e, bit-le f))

  test_6 : test_bit 6 eight ≡ g
  test_6 =
      is_set _ g
        (omega (arith, bit-le a, bit-le b, bit-le c, bit-le d, bit-le e, bit-le f, bit-le g))

  test_7 : test_bit 7 eight ≡ h
  test_7 = is_set _ h (
      omega (arith, bit-le a, bit-le b, bit-le c, bit-le d, bit-le e, bit-le f, bit-le g, bit-le h))

  loaded_eight : loaded_flags eight ≡ record {
    deleted = a;
    leaf = b;
    is_new = c;
    has_attachments = d;
    keep_body = e;
    is_conflict = f;
    closed = g;
    purge = false;
  }
  unfolding loaded_flags
  loaded_eight = λ i. record {
    deleted = test_0 i;
    leaf = test_1 i;
    is_new = test_2 i;
    has_attachments = test_3 i;
    keep_body = test_4 i;
    is_conflict = test_5 i;
    closed = test_6 i;
    purge = false;
  }

-- The flags that are read back are those that were stored.
abbrev pub kept_flags : Flags → Flags
kept_flags f = record f { is_new = false; purge = false }

pub loaded-stored_flags : (f : Flags) (b : Bool) → loaded_flags (stored_flags f b) ≡ kept_flags f
unfolding stored_flags
loaded-stored_flags f b =
    loaded_eight f.deleted f.leaf false f.has_attachments f.keep_body f.is_conflict f.closed
      (f.purge || b)

pub has_data-stored_flags : (f : Flags) (b : Bool) → test_bit 7 (stored_flags f b) ≡ (f.purge || b)
unfolding stored_flags
has_data-stored_flags f b =
    test_7 f.deleted f.leaf false f.has_attachments f.keep_body f.is_conflict f.closed
      (f.purge || b)
