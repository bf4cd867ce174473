-- ===== src/RevTree/Lookup.antt =====
-- What a lookup by ID tells about the tree.
use cbl.Prelude.{
  ℕ, ◌≡◌, ◌≢◌, refl, inl, inr, Bool, true, false, Option, none, some, List, [], ◌∷◌, Slice, arith,
  has, ◌==◌, ==_iff, Bool-cases, if-cases, ok, ok-injective, slice_eq, slice_eq_iff, slice_eq_refl,
  subst,
}
use cbl.Fleece.{Fleece}
use cbl.RevTree.{Rev, RevTree, get, first_such, found_or_known}
use cbl.RevTree.WellFormed.{IsTree}

first_such-some :
    (test : Rev → Bool) (h : ℕ → Rev) (xs : List ℕ) {a : ℕ}
    → first_such test h xs ≡ some a
    → (has a xs ≡ true) × (test (h a) ≡ true)
unfolding first_such
first_such-some test h [] e = cc
first_such-some test h (x ∷ xs) {a} e = elim (Bool-cases (test (h x))) [
  | inl hit ↦ ground arith
  | inr miss ↦ ground (arith, first_such-some test h xs {a = a})
]

first_such-none :
    (test : Rev → Bool) (h : ℕ → Rev) (xs : List ℕ) (b : ℕ)
    → first_such test h xs ≡ none
    → has b xs ≡ true
    → test (h b) ≡ false
unfolding first_such
first_such-none test h [] b e m = cc
first_such-none test h (x ∷ xs) b e m = elim (if-cases (test (h x)) _ _ e) [
  | inl (_, bad) ↦ cc
  | inr (miss, rest) ↦ elim (Bool-cases (b == x)) [
    | inl hit ↦ rw ((==_iff b x).0 hit) miss
    | inr other ↦ first_such-none test h xs b rest (rw other at m)
  ]
]

found_or_known-some :
    (t : RevTree) (o : Option ℕ) (a : ℕ) → found_or_known t o ≡ ok (some a) → o ≡ some a
unfolding found_or_known
found_or_known-some t (some b) a e = ok-injective e
found_or_known-some t none a e = ground arith

found_or_known-none : (t : RevTree) (o : Option ℕ) → found_or_known t o ≡ ok none → o ≡ none
unfolding found_or_known
found_or_known-none t (some b) e = ok-injective e
found_or_known-none t none e = refl

-- What `get` finds is in the vector and has the ID.
pub get-some :
    (id : Slice) (t : RevTree) {a : ℕ}
    → get id t ≡ ok (some a)
    → (has a t.revs ≡ true) × ((t.heap a).rev_id ≡ id)
unfolding get
get-some id t {a} e =
    let (m, h) =
      first_such-some (λ r. slice_eq r.rev_id id) t.heap t.revs
        (found_or_known-some t (first_such (λ r. slice_eq r.rev_id id) t.heap t.revs) a e) in
    (m, (slice_eq_iff _ id).0 h)

-- Where it finds nothing no revision has the ID.
pub get-none :
    (id : Slice) (t : RevTree) (b : ℕ)
    → get id t ≡ ok none
    → has b t.revs ≡ true
    → (t.heap b).rev_id ≢ id
unfolding get
get-none id t b e m same =
    let miss =
      first_such-none (λ r. slice_eq r.rev_id id) t.heap t.revs b
        (found_or_known-none t (first_such (λ r. slice_eq r.rev_id id) t.heap t.revs) e) m in
    cc (miss, slice_eq_refl id, same)

first_such-exists :
    (test : Rev → Bool) (h : ℕ → Rev) (xs : List ℕ) (b : ℕ)
    → has b xs ≡ true
    → test (h b) ≡ true
    → (a : ℕ) × (first_such test h xs ≡ some a)
unfolding first_such
first_such-exists test h [] b m e = cc
first_such-exists test h (x ∷ xs) b m e = elim (Bool-cases (test (h x))) [
  | inl hit ↦ (x, rw hit)
  | inr miss ↦ elim (Bool-cases (b == x)) [
    | inl same ↦ absurd (cc (subst (λ y. test (h y) ≡ true) ((==_iff b x).0 same) e, miss))
    | inr other ↦ rw miss (first_such-exists test h xs b (rw other at m) e)
  ]
]

-- In a well-formed tree `get` finds a member by its ID.
pub get_member :
    (F : Fleece) (t : RevTree) (b : ℕ)
    → IsTree F t
    → has b t.revs ≡ true
    → get (t.heap b).rev_id t ≡ ok (some b)
unfolding get found_or_known
get_member F t b v m =
    let (a, e) =
      first_such-exists (λ r. slice_eq r.rev_id (t.heap b).rev_id) t.heap t.revs b m
        (slice_eq_refl (t.heap b).rev_id) in
    let (n, h) = first_such-some (λ r. slice_eq r.rev_id (t.heap b).rev_id) t.heap t.revs e in
    rw (e, v.unique a b n m ((slice_eq_iff _ _).0 h)) refl
