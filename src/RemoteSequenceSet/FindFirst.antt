-- ===== src/RemoteSequenceSet/FindFirst.antt =====
-- What the scan of `findFirst` finds.
use cbl.Prelude.{
  ℕ, ◌≡◌, ◌<◌, ◌≤◌, ◌^◌, ◌-◌, refl, sym, false, Option, none, some, List, [], ◌∷◌, ◌==◌, ltb,
  Bool-cases, inl, inr, ◌⊎◌, arith, All, ap, Slice, slice_eq, slice_eq_refl, slice_eq_iff, if-cases,
  subst, ◌∙◌, ◌+◌,
}
use cbl.RemoteSequenceSet.{Entry, find, scan, find_first}
use cbl.RemoteSequenceSet.Entries.{some-injective, IsMap}

-- Among entries that are `y` or come after it, `y` is found.
pub scan_least :
    (m best : ℕ) (acc : Option Slice) (y : Entry) (xs : List Entry)
    → m ≤ y.order
    → All (λ x. (x ≡ y) ⊎ (y.order < x.order)) xs
    → ((find y.key xs ≡ some y) × (y.order < best)) ⊎ ((acc ≡ some y.key) × (best ≡ y.order))
    → scan m best acc xs ≡ some y.key
unfolding scan find
scan_least m best acc y [] low later (inl (is, _)) = cc
scan_least m best acc y [] low later (inr (is, _)) = is
scan_least m best acc y (x ∷ xs) low (inl here, later) start =
    elim (Bool-cases (ltb x.order best)) [
      | inl less ↦ elim (Bool-cases (x.order == m)) [
        | inl stop ↦ rw (less, stop) (ap (λ z. some z.key) here)
        | inr on ↦
            rw (less, on)
              (scan_least m x.order (some x.key) y xs low later
                (inr (ap (λ z. some z.key) here, ap (λ z. z.order) here)))
      ]
      | inr more ↦
          let same : x.order ≡ y.order = ap (λ z. z.order) here in
          elim start [
            | inl (_, lt) ↦ ground arith
            | inr known ↦ rw more (scan_least m best acc y xs low later (inr known))
          ]
    ]
scan_least m best acc y (x ∷ xs) low (inr after, later) (inl (at, lt)) =
    elim (if-cases (slice_eq y.key x.key) _ _ at) [
      | inl (_, is) ↦
          let same : x.order ≡ y.order = ap (λ z. z.order) (some-injective is) in ground arith
      | inr (_, f) ↦ elim (Bool-cases (ltb x.order best)) [
        | inl less ↦
            let on : (x.order == m) ≡ false = ground arith in
            rw (less, on) (scan_least m x.order (some x.key) y xs low later (inl (f, after)))
        | inr more ↦ rw more (scan_least m best acc y xs low later (inl (f, lt)))
      ]
    ]
scan_least m best acc y (x ∷ xs) low (inr after, later) (inr (at, is)) =
    let more : ltb x.order best ≡ false = ground arith in
    rw more (scan_least m best acc y xs low later (inr (at, is)))

-- The earliest entry of a map that has the same entries as a queue is the queue's head.
abbrev pub head_key : List Entry → Option Slice
head_key [] = none
head_key (x ∷ xs) = some x.key

-- The orders rise from `low` on and stay below `high`.
abbrev pub Rises : ℕ → List Entry → ℕ → Type 0
Rises low [] high = low ≤ high
Rises low (x ∷ xs) high = (low ≤ x.order) × Rises (x.order + 1) xs high

pub Rises-le : (low : ℕ) (xs : List Entry) (high : ℕ) → Rises low xs high → low ≤ high
Rises-le low [] high r = r
Rises-le low (x ∷ xs) high r = let le = Rises-le (x.order + 1) xs high r.1 in ground arith

pub find_above :
    (low : ℕ) (xs : List Entry) (high : ℕ) (key : Slice) (e : Entry)
    → Rises low xs high
    → find key xs ≡ some e
    → (low ≤ e.order) × (e.order < high)
unfolding find
find_above low [] high key e r f = cc
find_above low (x ∷ xs) high key e r f = elim (if-cases (slice_eq key x.key) _ _ f) [
  | inl (_, is) ↦
      let same : x.order ≡ e.order = ap (λ z. z.order) (some-injective is) in
      let high_enough = Rises-le (x.order + 1) xs high r.1 in (ground arith, ground arith)
  | inr (_, later) ↦ let s = find_above (x.order + 1) xs high key e r.1 later in (ground arith, s.1)
]

-- What holds of all that a map's lookups find holds of all its entries.
All-found :
    (P : Entry → Type 0) (xs : List Entry)
    → IsMap xs
    → ((key : Slice) (e : Entry) → find key xs ≡ some e → P e)
    → All P xs
unfolding find
All-found P [] v h = tt
All-found P (x ∷ xs) v h = (
  h x.key x (rw (slice_eq_refl x.key) refl),
  All-found P xs v.1 (λ key e f. h key e (elim (Bool-cases (slice_eq key x.key)) [
    | inl same ↦
        let none_here : find key xs ≡ none =
          subst (λ z. find z xs ≡ none) (sym ((slice_eq_iff key x.key).0 same)) v.0 in
        cc
    | inr other ↦ rw other f
  ])),
)

-- The map `xs` has the entries of the queue `q`.
abbrev pub SameEntries : List Entry → List Entry → Type 0
SameEntries xs q = (key : Slice) → find key xs ≡ find key q

-- `findFirst` finds the head of the queue.
pub find_first_lem :
    (m : ℕ) (xs q : List Entry) (high : ℕ)
    → IsMap xs
    → SameEntries xs q
    → Rises m q high
    → high < 2 ^ 64
    → find_first m xs ≡ head_key q
unfolding find_first find scan
find_first_lem m [] [] high v same r big = refl
find_first_lem m (x ∷ xs) [] high v same r big =
    let at : find x.key (x ∷ xs) ≡ some x = rw (slice_eq_refl x.key) refl in
    let never = same x.key in cc
find_first_lem m xs (y ∷ q) high v same r big =
    let at : find y.key (y ∷ q) ≡ some y = rw (slice_eq_refl y.key) refl in
    let high_enough = Rises-le (y.order + 1) q high r.1 in
    scan_least m (2 ^ 64 - 1) none y xs r.0
      (All-found (λ x. (x ≡ y) ⊎ (y.order < x.order)) xs v
        (λ key e f. elim (if-cases (slice_eq key y.key) _ _ (sym (same key) ∙ f)) [
          | inl (_, is) ↦ inl (sym (some-injective is))
          | inr (_, later) ↦
              let (above, _) = find_above (y.order + 1) q high key e r.1 later in inr (ground arith)
        ]))
      (inl (same y.key ∙ at, ground arith))
