-- ===== src/RawRevTree/RoundTrip.antt =====
-- A stored tree is read back.
use cbl.Prelude.{
  ℕ, zero, suc, ◌^◌, ◌<◌, ◌≤◌, ◌≡◌, refl, sym, ap, subst, false, ◌||◌, Option, none, some, List, [],
  ◌∷◌, ◌++◌, map, Slice, ok, >>=-eq-ok, ok-injective, arith, ◌==◌, leb, length, All, has,
}
use mathlib.Core.List.{append_assoc, append-nil}
use cbl.Fleece.{Fleece}
use cbl.RevTree.{Rev}
use cbl.RawRevTree.{
  enc16, enc32, parent_index, index_of, index_in, encode_revs, encode_remotes, count_revs,
  decode_revs, decode_remotes, known_at, put,
}
use cbl.RawRevTree.Bytes.{dec16_lem}
use cbl.RawRevTree.Places.{index_in-lt, index_of-ok, parent_index-at, parent_place}
use cbl.RawRevTree.Stored.{Storable, kept, next_rev-raw_rev, copy_to-raw_rev}

-- The revision that is read back for the one at an address.
abbrev pub image : ℕ → List ℕ → (ℕ → Rev) → ℕ → Rev
image current revs h a = known_at current (kept (h a) (parent_place revs (h a).parent))

module _ (F : Fleece) (current : ℕ) (revs : List ℕ) (h : ℕ → Rev)
    (small : length revs ≤ 65535) where
  pub count_revs-encode_revs :
      (xs : List ℕ) (s rest : Slice) (fuel : ℕ)
      → All (λ a. Storable F (h a)) xs
      → encode_revs F revs h xs ≡ ok s
      → length xs < fuel
      → count_revs fuel (s ++ (enc32 0 ++ rest)) ≡ ok (length xs)
  unfolding count_revs encode_revs
  count_revs-encode_revs [] s rest (suc fuel) v e enough = rw (← ok-injective e) refl
  count_revs-encode_revs (a ∷ xs) s rest (suc fuel) v e enough =
      let (i, at, later) = >>=-eq-ok (parent_index revs (h a).parent) _ e in
      let (more, rec, last) = >>=-eq-ok (encode_revs F revs h xs) _ later in
      rw
        (
          ← ok-injective last,
          append_assoc,
          next_rev-raw_rev F (h a) i (more ++ (enc32 0 ++ rest)) v.0,
          count_revs-encode_revs xs more rest fuel v.1 rec (omega arith),
        )
        (ap ok (omega arith))
  count_revs-encode_revs xs s rest zero v e enough = absurd (omega arith)

  pub decode_revs-encode_revs :
      (xs : List ℕ) (s rest : Slice) (fuel : ℕ)
      → All (λ a. Storable F (h a)) xs
      → encode_revs F revs h xs ≡ ok s
      → length xs < fuel
      → decode_revs F (length revs) current fuel (s ++ (enc32 0 ++ rest))
        ≡ ok (map (image current revs h) xs, rest)
  unfolding decode_revs encode_revs
  decode_revs-encode_revs [] s rest (suc fuel) v e enough = rw (← ok-injective e) refl
  decode_revs-encode_revs (a ∷ xs) s rest (suc fuel) v e enough =
      let (i, at, later) = >>=-eq-ok (parent_index revs (h a).parent) _ e in
      let (more, rec, last) = >>=-eq-ok (encode_revs F revs h xs) _ later in
      let (i_fits, place) = parent_index-at revs (h a).parent i small at in
      rw
        (
          ← ok-injective last,
          append_assoc,
          next_rev-raw_rev F (h a) i (more ++ (enc32 0 ++ rest)) v.0,
          copy_to-raw_rev F (h a) i (length revs) (parent_place revs (h a).parent) v.0 i_fits place,
          decode_revs-encode_revs xs more rest fuel v.1 rec (omega arith),
        )
        refl
  decode_revs-encode_revs xs s rest zero v e enough = absurd (omega arith)

abbrev pub keys : List (ℕ × ℕ) → List ℕ
keys [] = []
keys ((k, _) ∷ m) = k ∷ keys m

keys-append : (m n : List (ℕ × ℕ)) → keys (m ++ n) ≡ keys m ++ keys n
keys-append [] n = refl
keys-append ((k, a) ∷ m) n = ap (λ ks. k ∷ ks) (keys-append m n)

put_new : (k v : ℕ) (m : List (ℕ × ℕ)) → has k (keys m) ≡ false → put k v m ≡ m ++ (k, v) ∷ []
unfolding put
put_new k v [] n = refl
put_new k v ((j, w) ∷ m) n =
    let differs : (j == k) ≡ false = ground arith in rw (differs, put_new k v m (ground arith)) refl

-- Remotes that can be stored: not 0, in 16 bits, and each once (those before were seen).
abbrev pub NewRemotes : List ℕ → List (ℕ × ℕ) → Type 0
NewRemotes seen [] = Unit
NewRemotes seen ((k, _) ∷ m) =
    (0 < k) × (k < 2 ^ 16) × (has k seen ≡ false) × NewRemotes (seen ++ k ∷ []) m

abbrev pub place_or_zero : Option ℕ → ℕ
place_or_zero none = 0
place_or_zero (some i) = i

abbrev pub remote_places : List ℕ → List (ℕ × ℕ) → List (ℕ × ℕ)
remote_places revs [] = []
remote_places revs ((k, a) ∷ m) = (k, place_or_zero (index_in revs a)) ∷ remote_places revs m

pub decode_remotes-encode_remotes :
    (revs : List ℕ) (m acc : List (ℕ × ℕ)) (s : Slice)
    → length revs ≤ 65535
    → NewRemotes (keys acc) m
    → encode_remotes revs m ≡ ok s
    → decode_remotes (length revs) acc s ≡ ok (acc ++ remote_places revs m)
unfolding decode_remotes encode_remotes enc16
decode_remotes-encode_remotes revs [] acc s small v e = rw (← ok-injective e, append-nil) refl
decode_remotes-encode_remotes revs ((k, a) ∷ m) acc s small (pos, low, new, later) e =
    let (i, at, more) = >>=-eq-ok (index_of revs a) _ e in
    let (t, rec, last) = >>=-eq-ok (encode_remotes revs m) _ more in
    let place = index_of-ok revs a i at in
    let lt = index_in-lt revs a i place in
    let fits : (k == 0 || leb (length revs) i) ≡ false = ground arith in
    let seen : NewRemotes (keys (acc ++ (k, i) ∷ [])) m =
      subst (λ ks. NewRemotes ks m) (sym (keys-append acc ((k, i) ∷ []))) later in
    rw
      (
        ← ok-injective last,
        dec16_lem k low,
        dec16_lem i (omega arith),
        fits,
        put_new k i acc new,
        decode_remotes-encode_remotes revs m (acc ++ (k, i) ∷ []) t small seen rec,
        append_assoc,
        place,
      )
      refl
