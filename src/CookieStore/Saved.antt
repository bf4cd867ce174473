-- ===== src/CookieStore/Saved.antt =====
-- The stored form of a cookie store: its constructor from data, `encode` and `merge`.
use cbl.Prelude.{
  ◌≡◌, refl, Bool, true, false, not, ◌&&◌, ◌||◌, Option, none, some, List, [], ◌∷◌, ◌++◌, Slice,
  if◌then◌else◌,
}
use cbl.CookieStore.{
  Strings, Cookie, CookieStore, new_store, empty_string, valid, persistent, expired, add_cookies,
}
use cbl.CookieStore.Time.{ℤ, zero_time, eqz}

pub data Key : Type 0 where
  name_key value_key domain_key created_key expires_key path_key secure_key : Key

abbrev pub same_key : Key → Key → Bool
same_key name_key name_key = true
same_key value_key value_key = true
same_key domain_key domain_key = true
same_key created_key created_key = true
same_key expires_key expires_key = true
same_key path_key path_key = true
same_key secure_key secure_key = true
same_key _ _ = false

-- The encoder and the decoder of vendor/fleece: values that are strings, numbers and Booleans, the
-- missing value, and the encoded data of an array of dictionaries, with `none` for what is no array.
pub record Values : Type 1 where
  pub Value : Type 0
  pub missing : Value
  pub of_string : Slice → Value
  pub of_int : ℤ → Value
  pub of_bool : Bool → Value
  pub as_string : Value → Slice
  pub as_int : Value → ℤ
  pub as_bool : Value → Bool
  pub string_back : (s : Slice) → as_string (of_string s) ≡ s
  pub int_back : (n : ℤ) → as_int (of_int n) ≡ n
  pub bool_back : (b : Bool) → as_bool (of_bool b) ≡ b
  pub string_missing : as_string missing ≡ []
  pub bool_missing : as_bool missing ≡ false
  pub Data : Type 0
  -- Whether its size is 0.
  pub no_bytes : Data → Bool
  pub encode_array : List (List (Key × Value)) → Data
  pub decode_array : Data → Option (List (List (Key × Value)))
  pub decode-encode :
      (dicts : List (List (Key × Value))) → decode_array (encode_array dicts) ≡ some dicts
  -- The bytes of an array are not none.
  pub encode_some : (dicts : List (List (Key × Value))) → no_bytes (encode_array dicts) ≡ false

module _ (V : Values) where
  abbrev pub Dict : Type 0
  Dict = List (Key × V.Value)

  -- `dict[key]`.
  abbrev pub lookup : Key → Dict → V.Value
  lookup key [] = V.missing
  lookup key ((k, v) ∷ d) = if same_key key k then v else lookup key d

  -- The encoder's `operator<<`.
  unfoldable pub encode_cookie : Cookie → Dict
  encode_cookie c =
      (name_key, V.of_string c.name)
      ∷ (value_key, V.of_string c.value)
      ∷ (domain_key, V.of_string c.domain)
      ∷ (created_key, V.of_int c.created)
      ∷ (expires_key, V.of_int c.expires)
      ∷ ((if empty_string c.path then [] else (path_key, V.of_string c.path) ∷ [])
          ++ (if c.secure then (secure_key, V.of_bool true) ∷ [] else []))

  -- `Cookie(Dict)`: the name is cleared where the domain or a time is missing.
  unfoldable pub decode_cookie : Dict → Cookie
  decode_cookie d =
      let domain = V.as_string (lookup domain_key d) in
      let expires = V.as_int (lookup expires_key d) in
      let created = V.as_int (lookup created_key d) in
      record {
        name =
            if empty_string domain || eqz expires zero_time || eqz created zero_time
            then []
            else V.as_string (lookup name_key d);
        value = V.as_string (lookup value_key d);
        domain = domain;
        path = V.as_string (lookup path_key d);
        created = created;
        expires = expires;
        secure = V.as_bool (lookup secure_key d);
      }

  unfoldable pub to_save : ℤ → List Cookie → List Dict
  to_save now [] = []
  to_save now (c ∷ cs) =
      let rest = to_save now cs in
      if persistent c && not (expired now c) then encode_cookie c ∷ rest else rest

  unfoldable pub encode : ℤ → CookieStore → V.Data
  encode now s = V.encode_array (to_save now s.cookies)

  unfoldable pub loaded : ℤ → List Dict → List Cookie
  loaded now [] = []
  loaded now (d ∷ ds) =
      let c = decode_cookie d in
      let rest = loaded now ds in if valid c && not (expired now c) then c ∷ rest else rest

  -- `CookieStore(data)`.
  unfoldable pub decode : ℤ → V.Data → CookieStore
  decode now bytes =
      let found : CookieStore = elim (V.decode_array bytes) [
        | none ↦ new_store
        | some dicts ↦ record { cookies = loaded now dicts; changed = false }
      ] in
      if V.no_bytes bytes then new_store else found

  pub merge : Strings → ℤ → V.Data → CookieStore → CookieStore
  merge S now bytes s = add_cookies S (decode now bytes).cookies s

  pub decode_fields :
      (name value domain path : Slice) (created expires : ℤ) (secure : Bool)
      → empty_string domain ≡ false
      → eqz expires zero_time ≡ false
      → eqz created zero_time ≡ false
      → decode_cookie (
          encode_cookie (record {
            name = name;
            value = value;
            domain = domain;
            path = path;
            created = created;
            expires = expires;
            secure = secure;
          }))
        ≡ record {
          name = name;
          value = value;
          domain = domain;
          path = path;
          created = created;
          expires = expires;
          secure = secure;
        }
  unfolding decode_cookie encode_cookie
  decode_fields name value domain [] created expires false h k l =
      rw
        (
          V.string_back domain,
          V.int_back expires,
          V.int_back created,
          h,
          k,
          l,
          V.string_back name,
          V.string_back value,
          V.string_missing,
          V.bool_missing,
        )
        refl
  decode_fields name value domain [] created expires true h k l =
      rw
        (
          V.string_back domain,
          V.int_back expires,
          V.int_back created,
          h,
          k,
          l,
          V.string_back name,
          V.string_back value,
          V.string_missing,
          V.bool_back true,
        )
        refl
  decode_fields name value domain (b ∷ path) created expires false h k l =
      rw
        (
          V.string_back domain,
          V.int_back expires,
          V.int_back created,
          h,
          k,
          l,
          V.string_back name,
          V.string_back value,
          V.string_back (b ∷ path),
          V.bool_missing,
        )
        refl
  decode_fields name value domain (b ∷ path) created expires true h k l =
      rw
        (
          V.string_back domain,
          V.int_back expires,
          V.int_back created,
          h,
          k,
          l,
          V.string_back name,
          V.string_back value,
          V.string_back (b ∷ path),
          V.bool_back true,
        )
        refl
