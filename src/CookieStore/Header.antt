-- ===== src/CookieStore/Header.antt =====
-- `Cookie`'s constructor from a Set-Cookie header, and `setCookie`.
use cbl.Prelude.{
  ℕ, suc, ◌-◌, Bool, true, false, not, ◌&&◌, ◌||◌, Option, none, some, List, [], ◌∷◌, Slice,
  slice_eq, ltb, ◌==◌, if◌then◌else◌, length, take, drop,
}
use cbl.CookieStore.{Strings, Cookie, CookieStore, domain_contains, empty_string, valid, add_cookie}
use cbl.CookieStore.Time.{ℤ, zero_time, eqz, ◌+ℤ◌}

-- What the constructor calls of the C++ library: the matches of the expression
-- `\s*([^;=]+)=([^;=]*)` in a header, as their two groups; `parse_gmt_time`'s calls of strptime and
-- mktime, with 0 where they fail; and `strtol`'s number and how many bytes it read.
pub record Parsers : Type 0 where
  pub header_matches : Slice → List (Slice × Slice)
  pub gmt_time : Slice → ℤ
  pub str_to_long : Slice → ℤ × ℕ

-- `rfind('/')`.
pub last_slash : Slice → Option ℕ
last_slash [] = none
last_slash (b ∷ s) =
    let later = last_slash s in
    elim later [ some i ↦ some (suc i) | none ↦ if b == 47 then some 0 else none ]

pub default_path : Slice → Slice
default_path from_path = elim (last_slash from_path) [
  | none ↦ []
  | some i ↦ if ltb 0 i then take i from_path else []
]

-- The value of the first pair, without its quotes (34).
pub unquoted : Slice → Slice
unquoted [] = []
unquoted (b ∷ s) =
    let quoted : Bool = b == 34 && slice_eq (drop (length s) (b ∷ s)) (34 ∷ []) in
    if quoted then take (length (b ∷ s) - 2) s else b ∷ s

abbrev pub domain_attribute : Slice
domain_attribute = 68 ∷ 111 ∷ 109 ∷ 97 ∷ 105 ∷ 110 ∷ []

abbrev pub path_attribute : Slice
path_attribute = 80 ∷ 97 ∷ 116 ∷ 104 ∷ []

abbrev pub secure_attribute : Slice
secure_attribute = 83 ∷ 101 ∷ 99 ∷ 117 ∷ 114 ∷ 101 ∷ []

abbrev pub expires_attribute : Slice
expires_attribute = 69 ∷ 120 ∷ 112 ∷ 105 ∷ 114 ∷ 101 ∷ 115 ∷ []

abbrev pub max_age_attribute : Slice
max_age_attribute = 77 ∷ 97 ∷ 120 ∷ 45 ∷ 65 ∷ 103 ∷ 101 ∷ []

module _ (S : Strings) (P : Parsers) where
  -- An Expires attribute counts once; one that cannot be read ends the parse.
  pub with_expires : Slice → Cookie → Option Cookie
  with_expires val c =
      let time = P.gmt_time val in
      if not (eqz c.expires zero_time)
      then some c
      else if eqz time zero_time
      then none
      else some (record c { expires = time })

  pub with_max_age : Slice → Cookie → Option Cookie
  with_max_age val c =
      let (age, used) = P.str_to_long val in
      if not (used == length val) || empty_string val
      then none
      else some (record c { expires = c.created +ℤ age })

  -- One attribute; `none` where the constructor returns.
  pub with_attribute : Slice → Slice → Slice → Cookie → Option Cookie
  with_attribute from_host key val c =
      if slice_eq key domain_attribute
      then (if domain_contains S from_host val then some (record c { domain = val }) else none)
      else if slice_eq key path_attribute
      then some (record c { path = val })
      else if slice_eq key secure_attribute
      then some (record c { secure = true })
      else if slice_eq key expires_attribute
      then with_expires val c
      else if slice_eq key max_age_attribute
      then with_max_age val c
      else some c

  pub with_attributes : Slice → List (Slice × Slice) → Cookie → Option Cookie
  with_attributes from_host [] c = some c
  with_attributes from_host ((key, val) ∷ rest) c = elim (with_attribute from_host key val c) [
    | none ↦ none
    | some c₁ ↦ with_attributes from_host rest c₁
  ]

  -- `none` is a cookie that is not valid: it has no name. The name of the first pair is set at the end.
  pub parse_cookie : ℤ → Slice → Slice → Slice → Option Cookie
  parse_cookie now header from_host from_path = elim (P.header_matches header) [
    | [] ↦ none
    | (name, value) ∷ attributes ↦ with_attributes from_host attributes (record {
      name = name;
      value = unquoted value;
      domain = from_host;
      path = default_path from_path;
      created = now;
      expires = zero_time;
      secure = false;
    })
  ]

  pub set_cookie : ℤ → Slice → Slice → Slice → CookieStore → Bool × CookieStore
  set_cookie now header from_host path s = elim (parse_cookie now header from_host path) [
    | none ↦ (false, s)
    | some c ↦ if valid c then (true, add_cookie S c s) else (false, s)
  ]
