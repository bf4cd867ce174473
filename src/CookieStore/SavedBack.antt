-- ===== src/CookieStore/SavedBack.antt =====
-- A store, encoded and read back.
use cbl.Prelude.{
  inl, inr, ◌≡◌, refl, ◌∙◌, Bool, true, false, not, ◌&&◌, some, List, [], ◌∷◌, arith, if◌then◌else◌,
  All, Bool-cases,
}
use cbl.CookieStore.{Cookie, CookieStore, empty_string, persistent, expired}
use cbl.CookieStore.Saved.{
  Key, Values, encode_cookie, decode_cookie, decode_fields, to_save, loaded, encode, decode,
}
use cbl.CookieStore.Time.{ℤ, pos, negsuc, ltz, zero_time, eqz}

-- The cookies that are saved: those that stay, and are not expired yet.
pub kept : ℤ → List Cookie → List Cookie
kept now [] = []
kept now (c ∷ cs) =
    let rest = kept now cs in if persistent c && not (expired now c) then c ∷ rest else rest

-- What every cookie from a header has: a name and a domain, and a time at which it was made.
abbrev pub Complete : Cookie → Type 0
Complete c =
    (empty_string c.name ≡ false)
    × (empty_string c.domain ≡ false)
    × (eqz c.created zero_time ≡ false)

positive_nonzero : (t : ℤ) → ltz zero_time t ≡ true → eqz t zero_time ≡ false
positive_nonzero (pos n) h = ground arith
positive_nonzero (negsuc n) h = refl

both_true : (a b : Bool) → (a && b) ≡ true → (a ≡ true) × (b ≡ true)
both_true true true e = (refl, refl)
both_true true false e = absurd cc
both_true false b e = absurd cc

module _ (V : Values) where
  decode-encode_cookie :
      (c : Cookie) → Complete c → persistent c ≡ true → decode_cookie V (encode_cookie V c) ≡ c
  decode-encode_cookie c (named, hosted, made) stays =
      decode_fields V c.name c.value c.domain c.path c.created c.expires c.secure hosted
        (positive_nonzero c.expires stays) made

  loaded-to_save :
      (now : ℤ) (cs : List Cookie) → All Complete cs → loaded V now (to_save V now cs) ≡ kept now cs
  unfolding loaded to_save kept
  loaded-to_save now [] v = refl
  loaded-to_save now (c ∷ cs) (complete, v) =
      elim (Bool-cases (persistent c && not (expired now c))) [
        | inr e ↦ rw e (loaded-to_save now cs v)
        | inl e ↦
            let (stays, fresh) = both_true (persistent c) (not (expired now c)) e in
            rw
              (e, decode-encode_cookie c complete stays, complete.0, fresh, loaded-to_save now cs v)
              refl
      ]

  decode-some :
      (now : ℤ) (bytes : V.Data) (dicts : List (List (Key × V.Value)))
      → V.no_bytes bytes ≡ false
      → V.decode_array bytes ≡ some dicts
      → (decode V now bytes).cookies ≡ loaded V now dicts
  unfolding decode
  decode-some now bytes dicts e f = rw (e, f, decode) refl

  -- If every cookie of a store has a name, a domain and a time at which it was made, then a store that
  -- is read from the encoded form has, in the same order, the cookies that are to stay and are not
  -- expired yet, with all their fields.
  pub decode-encode :
      (now : ℤ) (s : CookieStore)
      → All Complete s.cookies
      → (decode V now (encode V now s)).cookies ≡ kept now s.cookies
  unfolding encode
  decode-encode now s v =
      decode-some now (V.encode_array (to_save V now s.cookies)) (to_save V now s.cookies)
        (V.encode_some (to_save V now s.cookies)) (V.decode-encode (to_save V now s.cookies))
      ∙ loaded-to_save now s.cookies v
