-- ===== src/CookieStore/Matching.antt =====
-- Cookies with the same identity, and what `_addCookie` does to the store as a map from identities.

use cbl.Prelude.{
  some-none, some_injective, ◌≡◌, inl, inr, refl, sym, ap, subst, ◌∙◌, Bool, true, false, ◌||◌,
  Option, none, some, List, [], ◌∷◌, ◌++◌, arith, Slice, slice_eq, slice_eq_iff, slice_eq_refl,
  if◌then◌else◌, Bool-cases, Option-cases,
}
use cbl.CookieStore.{
  Strings, Cookie, CookieStore, matches, take_match, behind, push_cookie, replace_match, add_cookie,
  same_value_as,
}
use cbl.CookieStore.Time.{ltz}

slice_eq_sym : (a b : Slice) → slice_eq a b ≡ true → slice_eq b a ≡ true
slice_eq_sym a b e = (slice_eq_iff b a).1 (sym ((slice_eq_iff a b).0 e))

slice_eq_trans : (a b c : Slice) → slice_eq a b ≡ true → slice_eq b c ≡ true → slice_eq a c ≡ true
slice_eq_trans a b c e f = (slice_eq_iff a c).1 ((slice_eq_iff a b).0 e ∙ (slice_eq_iff b c).0 f)

same_truth : (a b : Bool) → (a ≡ true → b ≡ true) → (b ≡ true → a ≡ true) → a ≡ b
same_truth true b f g = sym (f refl)
same_truth false true f g = g refl
same_truth false false f g = refl

behind-none : (c : Cookie) (o : Option (Cookie × List Cookie)) → behind c o ≡ none → o ≡ none
behind-none c none e = refl
behind-none c (some p) e = absurd (some-none e)

pub behind-some :
    (c old : Cookie) (rest : List Cookie) (o : Option (Cookie × List Cookie))
    → behind c o ≡ some (old, rest)
    → (rest₁ : List Cookie) × (o ≡ some (old, rest₁)) × (rest ≡ c ∷ rest₁)
behind-some c old rest none e = absurd (some-none (sym e))
behind-some c old rest (some (found, rest₁)) e =
    let both = some_injective e in
    (rest₁, ap (λ f. some (f, rest₁)) (ap (λ p. p.0) both), sym (ap (λ p. p.1) both))

module _ (S : Strings) where
  pub matches_refl : (c : Cookie) → matches S c c ≡ true
  unfolding matches
  matches_refl c = rw (slice_eq_refl c.name, slice_eq_refl c.path, S.same_case_refl c.domain) refl

  pub matches_sym : (c d : Cookie) → matches S c d ≡ true → matches S d c ≡ true
  unfolding matches
  matches_sym c d m = ground (
    arith,
    slice_eq_sym c.name d.name,
    slice_eq_sym c.path d.path,
    S.same_case_sym c.domain d.domain,
  )

  pub matches_trans :
      (c d e : Cookie) → matches S c d ≡ true → matches S d e ≡ true → matches S c e ≡ true
  unfolding matches
  matches_trans c d e m n = ground (
    arith,
    slice_eq_trans c.name d.name e.name,
    slice_eq_trans c.path d.path e.path,
    S.same_case_trans c.domain d.domain e.domain,
  )

  matches_comm : (c d : Cookie) → matches S c d ≡ matches S d c
  matches_comm c d = same_truth (matches S c d) (matches S d c) (matches_sym c d) (matches_sym d c)

  matches_cong : (c d e : Cookie) → matches S c d ≡ true → matches S c e ≡ matches S d e
  matches_cong c d e m =
      same_truth (matches S c e) (matches S d e) (matches_trans d c e (matches_sym c d m))
        (matches_trans c d e m)

  -- The cookie with the identity of `q`.
  unfoldable pub cookie_of : Cookie → List Cookie → Option Cookie
  cookie_of q [] = none
  cookie_of q (c ∷ cs) = let later = cookie_of q cs in if matches S q c then some c else later

  -- No two cookies have the same identity.
  unfoldable pub AllApart : List Cookie → Type 0
  AllApart [] = Unit
  AllApart (c ∷ cs) = (cookie_of c cs ≡ none) × AllApart cs

  abbrev pub or_else : Option Cookie → Option Cookie → Option Cookie
  or_else none other = other
  or_else (some c) other = some c

  or_else-none : (o : Option Cookie) → or_else o none ≡ o
  or_else-none none = refl
  or_else-none (some c) = refl

  cookie_of_cong :
      (q c : Cookie) (cs : List Cookie) → matches S q c ≡ true → cookie_of q cs ≡ cookie_of c cs
  unfolding cookie_of
  cookie_of_cong q c [] m = refl
  cookie_of_cong q c (d ∷ cs) m = rw (matches_cong q c d m, cookie_of_cong q c cs m) refl

  cookie_of-append :
      (q new : Cookie) (cs : List Cookie)
      → cookie_of q (cs ++ new ∷ []) ≡ or_else (cookie_of q cs) (cookie_of q (new ∷ []))
  unfolding cookie_of
  cookie_of-append q new [] = refl
  cookie_of-append q new (c ∷ cs) = elim (Bool-cases (matches S q c)) [
    | inl m ↦ rw m refl
    | inr m ↦ rw m (cookie_of-append q new cs)
  ]

  take_match-none :
      (new : Cookie) (cs : List Cookie) → take_match S new cs ≡ none → cookie_of new cs ≡ none
  unfolding cookie_of take_match
  take_match-none new [] e = refl
  take_match-none new (c ∷ cs) e = elim (Bool-cases (matches S new c)) [
    | inl m ↦ absurd (some-none (rw m at e))
    | inr m ↦ rw m (take_match-none new cs (behind-none c (take_match S new cs) (rw m at e)))
  ]

  -- What was taken from a list.
  record Taken (new old : Cookie) (rest cs : List Cookie) : Type 0 where
    pub found : cookie_of new cs ≡ some old
    pub same : matches S new old ≡ true
    pub others : (q : Cookie) → matches S q new ≡ false → cookie_of q rest ≡ cookie_of q cs
    pub gone : AllApart cs → cookie_of new rest ≡ none
    pub apart : AllApart cs → AllApart rest

  Taken-head :
      (new c : Cookie) (cs : List Cookie) → matches S new c ≡ true → Taken new c cs (c ∷ cs)
  unfolding cookie_of AllApart
  Taken-head new c cs m = record {
    found = rw m refl;
    same = m;
    others = λ q other.
        let differs : matches S q c ≡ false =
          matches_comm q c ∙ sym (matches_cong new c q m) ∙ matches_comm new q ∙ other in
        rw differs refl;
    gone = λ apart. cookie_of_cong new c cs m ∙ apart.0;
    apart = λ apart. apart.1;
  }

  Taken-later :
      (new old c : Cookie) (rest cs : List Cookie)
      → matches S new c ≡ false
      → Taken new old rest cs
      → Taken new old (c ∷ rest) (c ∷ cs)
  unfolding cookie_of AllApart
  Taken-later new old c rest cs m t = record {
    found = rw m t.found;
    same = t.same;
    others = λ q other. ap (λ later. if matches S q c then some c else later) (t.others q other);
    gone = λ apart. rw m (t.gone apart.1);
    apart = λ apart. (t.others c (matches_comm c new ∙ m) ∙ apart.0, t.apart apart.1);
  }

  take_some :
      (new old : Cookie) (rest cs : List Cookie)
      → take_match S new cs ≡ some (old, rest)
      → Taken new old rest cs
  unfolding take_match
  take_some new old rest [] e = absurd (some-none (sym e))
  take_some new old rest (c ∷ cs) e = elim (Bool-cases (matches S new c)) [
    | inl m ↦
        subst (λ p. Taken new p.0 p.1 (c ∷ cs)) (some_injective (rw m at e)) (Taken-head new c cs m)
    | inr m ↦
        let (rest₁, f, g) = behind-some c old rest (take_match S new cs) (rw m at e) in
        subst (λ l. Taken new old l (c ∷ cs)) (sym g)
          (Taken-later new old c rest₁ cs m (take_some new old rest₁ cs f))
  ]

  push_apart :
      (new : Cookie) (cs : List Cookie)
      → AllApart cs
      → cookie_of new cs ≡ none
      → AllApart (cs ++ new ∷ [])
  unfolding AllApart cookie_of
  push_apart new [] apart gone = (refl, tt)
  push_apart new (c ∷ cs) apart gone = elim (Bool-cases (matches S new c)) [
    | inl m ↦ absurd (some-none (rw m at gone))
    | inr m ↦
        let other : matches S c new ≡ false = matches_comm c new ∙ m in
        (
          cookie_of-append c new cs ∙ rw (apart.0, other) refl,
          push_apart new cs apart.1 (rw m at gone),
        )
  ]

  -- The cookie that is kept of a new one and a stored one.
  abbrev pub winner : Cookie → Option Cookie → Cookie
  winner new none = new
  winner new (some old) = if ltz new.created old.created || same_value_as new old then old else new

  cookie_of_pushed :
      (q new : Cookie) (cs : List Cookie)
      → cookie_of new cs ≡ none
      → cookie_of q (cs ++ new ∷ []) ≡ (if matches S q new then some new else cookie_of q cs)
  unfolding cookie_of
  cookie_of_pushed q new cs gone = cookie_of-append q new cs ∙ elim (Bool-cases (matches S q new)) [
    | inl m ↦ rw (m, cookie_of_cong q new cs m, gone) refl
    | inr m ↦ rw m (or_else-none (cookie_of q cs))
  ]

  cookie_of_kept :
      (q new old : Cookie) (cs : List Cookie)
      → cookie_of new cs ≡ some old
      → cookie_of q cs ≡ (if matches S q new then some old else cookie_of q cs)
  cookie_of_kept q new old cs found = elim (Bool-cases (matches S q new)) [
    | inl m ↦ rw m (cookie_of_cong q new cs m ∙ found)
    | inr m ↦ rw m refl
  ]

  cookie_of_others :
      (q new : Cookie) (rest cs : List Cookie)
      → ((q : Cookie) → matches S q new ≡ false → cookie_of q rest ≡ cookie_of q cs)
      → (if matches S q new then some new else cookie_of q rest)
        ≡ (if matches S q new then some new else cookie_of q cs)
  cookie_of_others q new rest cs others = elim (Bool-cases (matches S q new)) [
    | inl m ↦ rw m refl
    | inr m ↦ rw m (others q m)
  ]

  -- In a store in which no two cookies have the same name, domain (ignoring case) and path, what
  -- `_addCookie` leaves under an identity: if it is that of the new cookie, the old one where that is
  -- newer or has the same value, else the new one; under any other identity, what was there. And still
  -- no two cookies have the same identity.
  pub cookie_of-add_cookie :
      (new : Cookie) (s : CookieStore)
      → AllApart s.cookies
      → ((q : Cookie)
          → cookie_of q (add_cookie S new s).cookies ≡ (
              if matches S q new
              then some (winner new (cookie_of new s.cookies))
              else cookie_of q s.cookies))
        × AllApart (add_cookie S new s).cookies
  unfolding add_cookie replace_match push_cookie cookie_of
  cookie_of-add_cookie new s apart = elim (Option-cases (take_match S new s.cookies)) [
    | inl e ↦
        let gone = take_match-none new s.cookies e in
        (
          λ q. rw (e, gone) (cookie_of_pushed q new s.cookies gone),
          rw e (push_apart new s.cookies apart gone),
        )
    | inr ((old, rest), e) ↦
        let t = take_some new old rest s.cookies e in
        elim (Bool-cases (ltz new.created old.created || same_value_as new old)) [
          | inl stays ↦ (
            λ q. rw (e, t.found, stays) (cookie_of_kept q new old s.cookies t.found),
            rw (e, stays) apart,
          )
          | inr goes ↦ (
            λ q.
                rw (e, t.found, goes)
                  (cookie_of_pushed q new rest (t.gone apart)
                    ∙ cookie_of_others q new rest s.cookies t.others),
            rw (e, goes) (push_apart new rest (t.apart apart) (t.gone apart)),
          )
        ]
  ]
