-- ===== src/CookieStore.antt =====
-- Replicator/CookieStore.cc and .hh: HTTP cookies, with the tests of addresses of Replicator/Address.cc and
-- of strings of LiteCore/Support/StringUtil.cc.
pub mod Time
pub mod Header
pub mod Saved
pub mod Matching
pub mod SavedBack
pub mod Changes
pub mod Tests
use cbl.Prelude.{
  ℕ, suc, ◌+◌, ◌-◌, ◌≡◌, Bool, true, false, not, ◌&&◌, ◌||◌, Option, none, some, List, [], ◌∷◌,
  ◌++◌, Slice, slice_eq, ltb, leb, ◌==◌, if◌then◌else◌, length, take, drop,
}
use cbl.CookieStore.Time.{ℤ, pos, ltz, eqz, zero_time}

-- What the code calls of the C library and of vendor/fleece: whether `strcasecmp` is 0, which is an
-- equivalence, and `slice::hasPrefix`.
pub record Strings : Type 0 where
  pub same_case : Slice → Slice → Bool
  pub has_prefix : Slice → Slice → Bool
  pub same_case_refl : (a : Slice) → same_case a a ≡ true
  pub same_case_sym : (a b : Slice) → same_case a b ≡ true → same_case b a ≡ true
  pub same_case_trans :
      (a b c : Slice) → same_case a b ≡ true → same_case b c ≡ true → same_case a c ≡ true

pub record Cookie : Type 0 where
  pub name : Slice
  pub value : Slice
  pub domain : Slice
  pub path : Slice
  pub created : ℤ
  pub expires : ℤ
  pub secure : Bool

abbrev pub empty_string : Slice → Bool
empty_string [] = true
empty_string (_ ∷ _) = false

abbrev pub valid : Cookie → Bool
valid c = not (empty_string c.name)

abbrev pub persistent : Cookie → Bool
persistent c = ltz zero_time c.expires

-- At a time `now`.
abbrev pub expired : ℤ → Cookie → Bool
expired now c = ltz zero_time c.expires && ltz c.expires now

abbrev pub same_bool : Bool → Bool → Bool
same_bool true b = b
same_bool false b = not b

unfoldable pub same_value_as : Cookie → Cookie → Bool
same_value_as c d =
    slice_eq c.value d.value && eqz c.expires d.expires && same_bool c.secure d.secure

-- `C4Address`, as far as cookies use it.
pub record Address : Type 0 where
  pub scheme : Slice
  pub hostname : Slice
  pub path : Slice

-- "wss", "https" and "blips".
pub is_secure : Address → Bool
is_secure a =
    slice_eq a.scheme (119 ∷ 115 ∷ 115 ∷ [])
    || slice_eq a.scheme (104 ∷ 116 ∷ 116 ∷ 112 ∷ 115 ∷ [])
    || slice_eq a.scheme (98 ∷ 108 ∷ 105 ∷ 112 ∷ 115 ∷ [])

-- The byte at an index; 0 past the end.
abbrev pub byte_at : ℕ → Slice → ℕ
byte_at i s = elim (drop i s) [ [] ↦ 0 | b ∷ _ ↦ b ]

module _ (S : Strings) where
  unfoldable pub matches : Cookie → Cookie → Bool
  matches c d = slice_eq c.name d.name && S.same_case c.domain d.domain && slice_eq c.path d.path

  pub has_suffix_ignoring_case : Slice → Slice → Bool
  has_suffix_ignoring_case s suffix =
      leb (length suffix) (length s) && S.same_case (drop (length s - length suffix) s) suffix

  -- The dot is 46.
  pub domain_contains : Slice → Slice → Bool
  domain_contains base hostname =
      has_suffix_ignoring_case hostname base
      && (length hostname == length base
          || byte_at (length hostname - length base - 1) hostname == 46)

  -- The slash is 47.
  pub path_contains : Slice → Slice → Bool
  path_contains base path =
      if empty_string base
      then true
      else if empty_string path
      then false
      else S.has_prefix path base
        && (length path == length base
            || byte_at (length base) path == 47
            || byte_at (length base - 1) base == 47)

  pub matches_address : Cookie → Address → Bool
  matches_address c a =
      domain_contains c.domain a.hostname
      && path_contains c.path a.path
      && (not c.secure || is_secure a)

pub record CookieStore : Type 0 where
  pub cookies : List Cookie
  pub changed : Bool

abbrev pub new_store : CookieStore
new_store = record { cookies = []; changed = false }

-- `operator<<`: the equals sign is 61.
abbrev pub write_cookie : Cookie → Slice
write_cookie c = c.name ++ 61 ∷ c.value

-- The first cookie that matches, and the others.
abbrev pub behind : Cookie → Option (Cookie × List Cookie) → Option (Cookie × List Cookie)
behind c none = none
behind c (some (found, rest)) = some (found, c ∷ rest)

module _ (S : Strings) where
  unfoldable pub take_match : Cookie → List Cookie → Option (Cookie × List Cookie)
  take_match new [] = none
  take_match new (old ∷ rest) =
      let later = behind old (take_match new rest) in
      if matches S new old then some (old, rest) else later

  -- The end of `_addCookie`.
  unfoldable pub push_cookie : Cookie → List Cookie → Bool → CookieStore
  push_cookie new cookies changed = record {
    cookies = cookies ++ new ∷ [];
    changed = changed || persistent new;
  }

  unfoldable pub replace_match : Cookie → CookieStore → Option (Cookie × List Cookie) → CookieStore
  replace_match new s none = push_cookie new s.cookies s.changed
  replace_match new s (some (old, rest)) =
      if ltz new.created old.created || same_value_as new old
      then s
      else push_cookie new rest (s.changed || persistent old)

  unfoldable pub add_cookie : Cookie → CookieStore → CookieStore
  add_cookie new s = replace_match new s (take_match new s.cookies)

  -- The loop of `merge`.
  unfoldable pub add_cookies : List Cookie → CookieStore → CookieStore
  add_cookies [] s = s
  add_cookies (c ∷ cs) s = add_cookies cs (add_cookie c s)

  -- The semicolon is 59, the space 32.
  pub join_matching : ℤ → Address → Bool → List Cookie → Slice
  join_matching now a later [] = []
  join_matching now a later (c ∷ cs) =
      let separator : Slice = if later then 59 ∷ 32 ∷ [] else [] in
      let here = separator ++ (write_cookie c ++ join_matching now a true cs) in
      let rest = join_matching now a later cs in
      if matches_address S c a && not (expired now c) then here else rest

  pub cookies_for_request : ℤ → Address → CookieStore → Slice
  cookies_for_request now a s = join_matching now a false s.cookies

abbrev pub any_persistent : List Cookie → Bool
any_persistent [] = false
any_persistent (c ∷ cs) = persistent c || any_persistent cs

unfoldable pub clear_cookies : CookieStore → CookieStore
clear_cookies s = record { cookies = []; changed = s.changed || any_persistent s.cookies }

abbrev pub clear_changed : CookieStore → CookieStore
clear_changed s = record s { changed = false }
