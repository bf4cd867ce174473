-- ===== src/RemoteSequenceSet/Entries.antt =====
-- Lookups in a map of sequences after an insertion or a removal.
use cbl.Prelude.{
  ◌≡◌, refl, sym, true, false, Option, none, some, List, [], ◌∷◌, ◌++◌, Slice, slice_eq,
  slice_eq_iff, slice_eq_refl, if◌then◌else◌, Bool-cases, inl, inr, arith, ap, ◌∙◌, if-cases, subst,
}
use cbl.Fleece.{Fleece}
use cbl.RemoteSequenceSet.{Entry, find, insert, erase}

abbrev pub found : Slice → Entry → Option Entry → Option Entry
found key e other = if slice_eq key e.key then some e else other

entry_or : Entry → Option Entry → Entry
entry_or d none = d
entry_or d (some e) = e

pub some-injective : {a b : Entry} → some a ≡ some b → a ≡ b
unfolding entry_or
some-injective {a} e = ap (entry_or a) e

-- The test of an unsuccessful lookup: the first entry has another key, and so on.
find_missing :
    (key : Slice) (x : Entry) (xs : List Entry)
    → find key (x ∷ xs) ≡ none
    → (slice_eq key x.key ≡ false) × (find key xs ≡ none)
unfolding find
find_missing key x xs n = elim (if-cases (slice_eq key x.key) _ _ n) [ inl (_, z) ↦ cc | inr r ↦ r ]

pub apart :
    (key a b : Slice) → slice_eq a b ≡ false → slice_eq key b ≡ true → slice_eq key a ≡ false
apart key a b differ same = elim (Bool-cases (slice_eq key a)) [
  | inl z ↦
      let clash : slice_eq a b ≡ true =
        (slice_eq_iff a b).1 (sym ((slice_eq_iff key a).0 z) ∙ (slice_eq_iff key b).0 same) in
      cc
  | inr z ↦ z
]

-- Entries with different keys are looked up in any order.
found_commute :
    (key : Slice) (e x : Entry) (other : Option Entry)
    → slice_eq e.key x.key ≡ false
    → (if slice_eq key x.key then some x else found key e other)
      ≡ found key e (if slice_eq key x.key then some x else other)
found_commute key e x other differ = elim (Bool-cases (slice_eq key x.key)) [
  | inl same ↦ rw (same, apart key e.key x.key differ same) refl
  | inr other_key ↦ rw other_key refl
]

-- An entry with a new key is found under it, and nothing else changes.
pub find-insert :
    (F : Fleece) (key : Slice) (e : Entry) (xs : List Entry)
    → find e.key xs ≡ none
    → find key (insert F e xs) ≡ found key e (find key xs)
unfolding find insert
find-insert F key e [] n = refl
find-insert F key e (x ∷ xs) n =
    let (differ, later) = find_missing e.key x xs n in
    elim (Bool-cases (F.slice_less e.key x.key)) [
      | inl less ↦ rw less refl
      | inr more ↦
          rw (more, find-insert F key e xs later) (found_commute key e x (find key xs) differ)
    ]

pub find-append :
    (key : Slice) (e : Entry) (xs : List Entry)
    → find e.key xs ≡ none
    → find key (xs ++ e ∷ []) ≡ found key e (find key xs)
unfolding find
find-append key e [] n = refl
find-append key e (x ∷ xs) n =
    let (differ, later) = find_missing e.key x xs n in
    rw (find-append key e xs later) (found_commute key e x (find key xs) differ)

-- Each entry is found under its key: no two have the same.
abbrev pub IsMap : List Entry → Type 0
IsMap [] = Unit
IsMap (x ∷ xs) = (find x.key xs ≡ none) × IsMap xs

-- A key that is erased is not found any more, and nothing else changes.
pub find-erase :
    (key k : Slice) (xs : List Entry)
    → IsMap xs
    → find key (erase k xs) ≡ (if slice_eq key k then none else find key xs)
unfolding find erase
find-erase key k [] v = ground arith
find-erase key k (x ∷ xs) v = elim (Bool-cases (slice_eq k x.key)) [
  | inl here ↦
      let is : k ≡ x.key = (slice_eq_iff k x.key).0 here in
      elim (Bool-cases (slice_eq key k)) [
        | inl same ↦
            let at : key ≡ x.key = (slice_eq_iff key k).0 same ∙ is in
            rw (here, same) (subst (λ z. find z xs ≡ none) (sym at) v.0)
        | inr other ↦
            let not_x : slice_eq key x.key ≡ false = rw (← is) other in rw (here, other, not_x) refl
      ]
  | inr there ↦ elim (Bool-cases (slice_eq key x.key)) [
    | inl same ↦ rw (there, same, apart key k x.key there same) refl
    | inr other ↦ rw (there, other, find-erase key k xs v.1) refl
  ]
]

pub erase-IsMap : (k : Slice) (xs : List Entry) → IsMap xs → IsMap (erase k xs)
unfolding erase
erase-IsMap k [] v = v
erase-IsMap k (x ∷ xs) v = elim (Bool-cases (slice_eq k x.key)) [
  | inl here ↦ rw here (v.1)
  | inr there ↦ rw there (rw (find-erase x.key k xs v.1, v.0) (ground arith), erase-IsMap k xs v.1)
]

pub insert-IsMap :
    (F : Fleece) (e : Entry) (xs : List Entry)
    → find e.key xs ≡ none
    → IsMap xs
    → IsMap (insert F e xs)
unfolding find insert
insert-IsMap F e [] n v = (refl, tt)
insert-IsMap F e (x ∷ xs) n v =
    let (differ, later) = find_missing e.key x xs n in
    elim (Bool-cases (F.slice_less e.key x.key)) [
      | inl less ↦ rw less ((rw (differ, later) refl), v)
      | inr more ↦ rw more (
        find-insert F x.key e xs later
            ∙ rw (apart x.key e.key x.key differ (slice_eq_refl x.key), v.0) refl,
        insert-IsMap F e xs later v.1,
      )
    ]

-- The entry under a key has that key.
pub find-key : (key : Slice) (e : Entry) (xs : List Entry) → find key xs ≡ some e → key ≡ e.key
unfolding find
find-key key e [] f = cc
find-key key e (x ∷ xs) f = elim (if-cases (slice_eq key x.key) _ _ f) [
  | inl (same, is) ↦ (slice_eq_iff key x.key).0 same ∙ ap (λ z. z.key) (some-injective is)
  | inr (_, later) ↦ find-key key e xs later
]

pub erase_missing : (key : Slice) (xs : List Entry) → find key xs ≡ none → erase key xs ≡ xs
unfolding find erase
erase_missing key [] n = refl
erase_missing key (x ∷ xs) n =
    let (differ, later) = find_missing key x xs n in rw (differ, erase_missing key xs later) refl

pub append-IsMap :
    (e : Entry) (xs : List Entry) → find e.key xs ≡ none → IsMap xs → IsMap (xs ++ e ∷ [])
unfolding find
append-IsMap e [] n v = (refl, tt)
append-IsMap e (x ∷ xs) n v =
    let (differ, later) = find_missing e.key x xs n in
    (
      find-append x.key e xs later
          ∙ rw (apart x.key e.key x.key differ (slice_eq_refl x.key), v.0) refl,
      append-IsMap e xs later v.1,
    )
