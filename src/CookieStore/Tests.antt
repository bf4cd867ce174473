-- ===== src/CookieStore/Tests.antt =====
-- A store with strings that are compared by their bytes, and data that is the array itself.
use cbl.Prelude.{
  ◌≡◌, refl, ◌∙◌, Bool, true, false, some, List, [], ◌∷◌, Slice, slice_eq, slice_eq_iff,
  slice_eq_refl, sym, if◌then◌else◌, length, take,
}
use cbl.CookieStore.{
  Strings, Cookie, CookieStore, add_cookie, matches, replace_match, push_cookie, take_match,
  same_value_as,
}
use cbl.CookieStore.Changes.{add, changes, change, encode-changes}
use cbl.CookieStore.Matching.{cookie_of, AllApart, winner, cookie_of-add_cookie}
use cbl.CookieStore.Saved.{Key, Values, encode, decode}
use cbl.CookieStore.SavedBack.{kept, decode-encode}
use cbl.CookieStore.Time.{ℤ, pos}

eq_sym : (a b : Slice) → slice_eq a b ≡ true → slice_eq b a ≡ true
eq_sym a b e = (slice_eq_iff b a).1 (sym ((slice_eq_iff a b).0 e))

eq_trans : (a b c : Slice) → slice_eq a b ≡ true → slice_eq b c ≡ true → slice_eq a c ≡ true
eq_trans a b c e f = (slice_eq_iff a c).1 ((slice_eq_iff a b).0 e ∙ (slice_eq_iff b c).0 f)

abbrev strings : Strings
strings = record {
  same_case = slice_eq;
  has_prefix = λ s p. slice_eq (take (length p) s) p;
  same_case_refl = slice_eq_refl;
  same_case_sym = eq_sym;
  same_case_trans = eq_trans;
}

data Plain : Type 0 where
  nothing : Plain
  text : Slice → Plain
  number : ℤ → Plain
  truth : Bool → Plain

abbrev text_of : Plain → Slice
text_of (text s) = s
text_of nothing = []
text_of (number _) = []
text_of (truth _) = []

abbrev number_of : Plain → ℤ
number_of (number n) = n
number_of nothing = pos 0
number_of (text _) = pos 0
number_of (truth _) = pos 0

abbrev truth_of : Plain → Bool
truth_of (truth b) = b
truth_of nothing = false
truth_of (text _) = false
truth_of (number _) = false

abbrev values : Values
values = record {
  Value = Plain;
  missing = nothing;
  of_string = text;
  of_int = number;
  of_bool = truth;
  as_string = text_of;
  as_int = number_of;
  as_bool = truth_of;
  string_back = λ _. refl;
  int_back = λ _. refl;
  bool_back = λ _. refl;
  string_missing = refl;
  bool_missing = refl;
  Data = List (List (Key × Plain));
  no_bytes = λ _. false;
  encode_array = λ dicts. dicts;
  decode_array = λ dicts. some dicts;
  decode-encode = λ _. refl;
  encode_some = λ _. refl;
}

abbrev session : Cookie
session = record {
  name = 97 ∷ [];
  value = 49 ∷ [];
  domain = 104 ∷ [];
  path = [];
  created = pos 5;
  expires = pos 0;
  secure = false;
}

abbrev lasting : Cookie
lasting = record session { name = 98 ∷ []; expires = pos 90; secure = true }

abbrev newer : Cookie
newer = record lasting { created = pos 7; value = 50 ∷ [] }

abbrev store : CookieStore
store = record { cookies = session ∷ lasting ∷ []; changed = false }

store-AllApart : AllApart strings store.cookies
unfolding AllApart cookie_of matches slice_eq
store-AllApart = (refl, (refl, tt))

cookie_of-add_cookie_example :
    ((q : Cookie)
      → cookie_of strings q (add_cookie strings newer store).cookies ≡ (
          if matches strings q newer
          then some (winner strings newer (cookie_of strings newer store.cookies))
          else cookie_of strings q store.cookies))
    × AllApart strings (add_cookie strings newer store).cookies
cookie_of-add_cookie_example = cookie_of-add_cookie strings newer store store-AllApart

decode-encode_example :
    (decode values (pos 9) (encode values (pos 9) store)).cookies ≡ kept (pos 9) store.cookies
decode-encode_example =
    decode-encode values (pos 9) store ((refl, refl, refl), ((refl, refl, refl), tt))

-- A session's cookie is added, and the lasting one again.
same_again : (changes strings (add session ∷ add lasting ∷ []) store).changed ≡ false
unfolding changes change add_cookie take_match matches slice_eq replace_match same_value_as
    push_cookie
same_again = refl

encode-changes_example :
    encode values (pos 9) (changes strings (add session ∷ add lasting ∷ []) store)
    ≡ encode values (pos 9) store
encode-changes_example =
    encode-changes strings values (pos 9) (add session ∷ add lasting ∷ []) store same_again
