-- ===== src/CookieStore/Changes.antt =====
-- The flag that says whether the stored form has changed.
use cbl.Prelude.{
  some-none, some_injective, inl, inr, ◌≡◌, refl, sym, ap, ◌∙◌, Bool, true, false, ◌||◌, some, List,
  [], ◌∷◌, ◌++◌, Bool-cases, Option-cases,
}
use cbl.CookieStore.{
  Strings, Cookie, CookieStore, persistent, any_persistent, matches, take_match, push_cookie,
  replace_match, add_cookie, add_cookies, clear_cookies, same_value_as,
}
use cbl.CookieStore.Matching.{behind-some}
use cbl.CookieStore.Saved.{Values, to_save, encode}
use cbl.CookieStore.Time.{ℤ, ltz}

pub data Change : Type 0 where
  add : Cookie → Change
  add_all : List Cookie → Change
  clear : Change

unfoldable pub change : Strings → Change → CookieStore → CookieStore
change S (add c) s = add_cookie S c s
change S (add_all cs) s = add_cookies S cs s
change S clear s = clear_cookies s

unfoldable pub changes : Strings → List Change → CookieStore → CookieStore
changes S [] s = s
changes S (c ∷ cs) s = changes S cs (change S c s)

neither : (a b : Bool) → (a || b) ≡ false → (a ≡ false) × (b ≡ false)
neither true b e = absurd cc
neither false b e = (refl, e)

module _ (S : Strings) (V : Values) (now : ℤ) where
  abbrev Saves : List Cookie → List Cookie → Type 0
  Saves cs ds = to_save V now cs ≡ to_save V now ds

  Saves-push :
      (new : Cookie) (cs : List Cookie) → persistent new ≡ false → Saves (cs ++ new ∷ []) cs
  unfolding to_save
  Saves-push new [] p = rw p refl
  Saves-push new (c ∷ cs) p = rw (Saves-push new cs p) refl

  Saves-take :
      (new old : Cookie) (rest cs : List Cookie)
      → take_match S new cs ≡ some (old, rest)
      → persistent old ≡ false
      → Saves rest cs
  unfolding to_save take_match
  Saves-take new old rest [] e p = absurd (some-none (sym e))
  Saves-take new old rest (c ∷ cs) e p = elim (Bool-cases (matches S new c)) [
    | inl m ↦
        let both = some_injective (rw m at e) in
        let gone : persistent c ≡ false = ap (λ q. persistent q.0) both ∙ p in
        rw gone (ap (λ q. to_save V now q.1) (sym both))
    | inr m ↦
        let (rest₁, f, g) = behind-some c old rest (take_match S new cs) (rw m at e) in
        ap (λ l. to_save V now l) g ∙ rw (Saves-take new old rest₁ cs f p) refl
  ]

  -- Nothing to save, and so the flag was not set before either.
  add-Unchanged :
      (new : Cookie) (s : CookieStore)
      → (add_cookie S new s).changed ≡ false
      → (s.changed ≡ false) × Saves (add_cookie S new s).cookies s.cookies
  unfolding add_cookie replace_match push_cookie
  add-Unchanged new s e = elim (Option-cases (take_match S new s.cookies)) [
    | inl missing ↦
        let (before, stays) = neither s.changed (persistent new) (rw missing at e) in
        (before, rw missing (Saves-push new s.cookies stays))
    | inr ((old, rest), taken) ↦
        elim (Bool-cases (ltz new.created old.created || same_value_as new old)) [
          | inl keeps ↦ (rw (taken, keeps) at e, rw (taken, keeps) refl)
          | inr goes ↦
              let (first, new_stays) =
                neither (s.changed || persistent old) (persistent new) (rw (taken, goes) at e) in
              let (before, old_stays) = neither s.changed (persistent old) first in
              (
                before,
                rw (taken, goes)
                    (Saves-push new rest new_stays
                      ∙ Saves-take new old rest s.cookies taken old_stays),
              )
        ]
  ]

  add_all-Unchanged :
      (cs : List Cookie) (s : CookieStore)
      → (add_cookies S cs s).changed ≡ false
      → (s.changed ≡ false) × Saves (add_cookies S cs s).cookies s.cookies
  unfolding add_cookies
  add_all-Unchanged [] s e = (e, refl)
  add_all-Unchanged (c ∷ cs) s e =
      let (between, later) = add_all-Unchanged cs (add_cookie S c s) e in
      let (before, first) = add-Unchanged c s between in (before, later ∙ first)

  none_persistent : (cs : List Cookie) → any_persistent cs ≡ false → Saves [] cs
  unfolding to_save
  none_persistent [] e = refl
  none_persistent (c ∷ cs) e =
      let (here, later) = neither (persistent c) (any_persistent cs) e in
      rw (here, ← none_persistent cs later) refl

  change-Unchanged :
      (c : Change) (s : CookieStore)
      → (change S c s).changed ≡ false
      → (s.changed ≡ false) × Saves (change S c s).cookies s.cookies
  unfolding change clear_cookies
  change-Unchanged (add c) s e = add-Unchanged c s e
  change-Unchanged (add_all cs) s e = add_all-Unchanged cs s e
  change-Unchanged clear s e =
      let (before, none_stay) = neither s.changed (any_persistent s.cookies) e in
      (before, none_persistent s.cookies none_stay)

  changes-Saves :
      (cs : List Change) (s : CookieStore)
      → (changes S cs s).changed ≡ false
      → (s.changed ≡ false) × Saves (changes S cs s).cookies s.cookies
  unfolding changes
  changes-Saves [] s e = (e, refl)
  changes-Saves (c ∷ cs) s e =
      let (between, later) = changes-Saves cs (change S c s) e in
      let (before, first) = change-Unchanged c s between in (before, later ∙ first)

  -- After any cookies were added and merged and the store was cleared, in any order, if the flag says
  -- that nothing has changed then the encoded form is what it was before.
  pub encode-changes :
      (cs : List Change) (s : CookieStore)
      → (changes S cs s).changed ≡ false
      → encode V now (changes S cs s) ≡ encode V now s
  unfolding encode
  encode-changes cs s e = ap V.encode_array (changes-Saves cs s e).1
