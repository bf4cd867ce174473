-- ===== src/RevTree/InsertChecked.antt =====
-- `insert`: what each outcome means, and that it keeps a tree well formed.
use cbl.Prelude.{
  ℕ, ◌+◌, ◌<◌, ◌≡◌, ◌≢◌, refl, sym, ap, ◌∙◌, subst, ◌⊎◌, inl, inr, Bool, true, false, not, ◌&&◌,
  Option, none, some, Slice, arith, has, ◌==◌, ==_iff, if◌then◌else◌, ok, ◌>>=◌, >>=-eq-ok,
  ok-injective, if-cases, ◌%◌, ◌^◌,
}
use cbl.Fleece.{Fleece}
use cbl.RevId.{generation, get_gen_and_digest}
use cbl.RevTree.{Flags, RevTree, get}
use cbl.RevTree.Insert.{
  insert_rev, insert, insert_fresh, insert_unless, conflict_free, parent_generation, Outcome,
  refuse,
}
use cbl.RevTree.Inserted.{insert_rev-IsTree, Under}
use cbl.RevTree.Lookup.{get-none}
use cbl.RevTree.WellFormed.{gen_of, IsTree}

-- The parent that a caller passes is a revision of the tree.
abbrev pub IsParent : Option ℕ → RevTree → Type 0
IsParent p t = (q : ℕ) → p ≡ some q → has q t.revs ≡ true

-- What a call of `insert` that returns has done. Nothing changes unless it made a revision, and then
-- the ID was valid and new, it was a conflict only if that was allowed, and its generation is one
-- above the parent's.
pub record Accepted (F : Fleece) (fuel : ℕ) (id : Slice) (body : Option Slice) (flags : Flags)
    (p : Option ℕ) (allow mark : Bool) (t : RevTree) (o : Outcome) (a : ℕ) : Type 0 where
  pub fresh : get id t ≡ ok none
  pub allowed : (allow ≡ true) ⊎ (conflict_free p t ≡ true)
  pub parent_gen : ℕ
  pub parent_generation : parent_generation F p t ≡ ok parent_gen
  pub new_gen : generation F id ≡ ok (parent_gen + 1)
  pub made : insert_rev fuel id body p flags mark t ≡ ok (a, o.tree)
  pub status : o.status ≡ (if flags.deleted then 200 else 201)

abbrev pub Reason : Fleece → Slice → Option ℕ → Bool → RevTree → Outcome → Type 0
Reason F id p allow t o =
    ((o.status ≡ 400) × (generation F id ≡ ok 0))
    ⊎ ((o.status ≡ 200) × ((a : ℕ) × (get id t ≡ ok (some a))))
    ⊎ ((o.status ≡ 409) × (allow ≡ false) × (conflict_free p t ≡ false))
    ⊎ ((o.status ≡ 400)
        × ((g : ℕ) × (h : ℕ) × (generation F id ≡ ok h)
            × (parent_generation F p t ≡ ok g)
            × (h ≢ g + 1)))

abbrev pub Refused : Fleece → Slice → Option ℕ → Bool → RevTree → Outcome → Type 0
Refused F id p allow t o = (o.tree ≡ t) × Reason F id p allow t o

module _ (F : Fleece) where
  pub generation-gen_of : (id : Slice) {g : ℕ} → generation F id ≡ ok g → gen_of F id ≡ g
  unfolding gen_of
  generation-gen_of id e = rw e refl

  pub generation-lt : (id : Slice) {g : ℕ} → generation F id ≡ ok g → g < 2 ^ 32
  unfolding generation
  generation-lt id {g} e =
      let (r, _, last) = >>=-eq-ok (get_gen_and_digest F id) _ e in
      let last' : r.0 % 2 ^ 32 ≡ g = ok-injective last in omega arith

  parent_generation-lt :
      (p : Option ℕ) (t : RevTree) {g : ℕ} → parent_generation F p t ≡ ok g → g < 2 ^ 32
  unfolding parent_generation
  parent_generation-lt none t e = let e' = ok-injective e in omega arith
  parent_generation-lt (some p) t e = generation-lt (t.heap p).rev_id e

  module _ (fuel : ℕ) (id : Slice) (body : Option Slice) (flags : Flags) (p : Option ℕ)
      (allow mark : Bool) (t : RevTree) (o : Outcome) where
    abbrev pub Outcomes : Type 0
    Outcomes =
        ((o.rev ≡ none) × Refused F id p allow t o)
        ⊎ ((a : ℕ) × (o.rev ≡ some a) × Accepted F fuel id body flags p allow mark t o a)

    of_outcome : {o' : Outcome} → ok o' ≡ ok o → o' ≡ o
    of_outcome e = ok-injective e

    -- A refusal with this status, and the reason for it.
    refused : (n : ℕ) → ok (refuse n t) ≡ ok o → (o.status ≡ n → Reason F id p allow t o) → Outcomes
    refused n e reason =
        let e' = of_outcome e in
        inl (
          sym (ap (λ x. x.rev) e'),
          (sym (ap (λ x. x.tree) e'), reason (sym (ap (λ x. x.status) e'))),
        )

    made_outcome :
        (g : ℕ)
        → get id t ≡ ok none
        → (allow ≡ true) ⊎ (conflict_free p t ≡ true)
        → parent_generation F p t ≡ ok g
        → generation F id ≡ ok (g + 1)
        → (insert_rev fuel id body p flags mark t >>= λ (a, t₁).
            ok (record { rev = some a; status = if flags.deleted then 200 else 201; tree = t₁ }))
          ≡ ok o
        → Outcomes
    made_outcome g fresh allowed pg gen e =
        let (made, ins, last) = >>=-eq-ok (insert_rev fuel id body p flags mark t) _ e in
        let last' = of_outcome last in
        inr (
          made.0,
          sym (ap (λ x. x.rev) last'),
          record {
            fresh = fresh;
            allowed = allowed;
            parent_gen = g;
            parent_generation = pg;
            new_gen = gen;
            made = ins ∙ ap (λ u. ok (made.0, u)) (ap (λ x. x.tree) last');
            status = sym (ap (λ x. x.status) last');
          },
        )

    fresh_outcomes :
        (new_gen : ℕ)
        → generation F id ≡ ok new_gen
        → new_gen ≢ 0
        → get id t ≡ ok none
        → insert_fresh F fuel id body flags p allow mark new_gen t ≡ ok o
        → Outcomes
    unfolding insert_fresh
    fresh_outcomes new_gen gen pos fresh e =
        elim (if-cases (not allow && not (conflict_free p t)) _ _ e) [
          | inl (c, r) ↦ refused 409 r (λ n. inr (inr (inl (n, ground arith, ground arith))))
          | inr (c, rest) ↦
              let (g, pg, next) = >>=-eq-ok (parent_generation F p t) _ rest in
              let small = parent_generation-lt p t pg in
              let small' = generation-lt id gen in
              elim (if-cases (new_gen == (g + 1) % 2 ^ 32) _ _ next) [
                | inl (hit, last) ↦
                    let same = (==_iff new_gen ((g + 1) % 2 ^ 32)).0 hit in
                    let same' : new_gen ≡ g + 1 = omega arith in
                    made_outcome g fresh (ground arith) pg (gen ∙ ap ok same') last
                | inr (miss, r) ↦
                    refused 400 r
                      (λ n. inr (inr (inr (n, (g, new_gen, gen, pg, λ h. absurd (ground arith))))))
              ]
        ]

    lookup_outcomes :
        (new_gen : ℕ)
        → generation F id ≡ ok new_gen
        → new_gen ≢ 0
        → (old : Option ℕ) → get id t ≡ ok old
        → insert_unless F old (insert_fresh F fuel id body flags p allow mark new_gen t) t ≡ ok o
        → Outcomes
    unfolding insert_unless
    lookup_outcomes new_gen gen pos none found e = fresh_outcomes new_gen gen pos found e
    lookup_outcomes new_gen gen pos (some a) found e =
        refused 200 e (λ n. inr (inl (n, (a, found))))

    pub insert_outcomes : insert F fuel id body flags p allow mark t ≡ ok o → Outcomes
    unfolding insert
    insert_outcomes e =
        let (g, gen, rest) = >>=-eq-ok (generation F id) _ e in
        elim (if-cases (g == 0) _ _ rest) [
          | inl (z, r) ↦ refused 400 r (λ n. inl (n, gen ∙ ap ok ((==_iff g 0).0 z)))
          | inr (pos, more) ↦
              let (old, found, last) = >>=-eq-ok (get id t) _ more in
              lookup_outcomes g gen (λ z. ground arith) old found last
        ]

    parent_generation-Under :
        (g : ℕ)
        → IsParent p t
        → parent_generation F p t ≡ ok g
        → generation F id ≡ ok (g + 1)
        → Under F id p t
    parent_generation-Under g known pg gen q is_q =
        let at_q : parent_generation F (some q) t ≡ ok g =
          subst (λ x. parent_generation F x t ≡ ok g) is_q pg in
        let low : gen_of F (t.heap q).rev_id ≡ g =
          generation-gen_of (t.heap q).rev_id (unfold parent_generation in at_q) in
        (known q is_q, omega (arith, generation-gen_of id gen))

    -- `insert` under a parent in the tree, or under none, keeps the tree well formed, whatever its
    -- outcome.
    pub insert-IsTree :
        IsTree F t
        → IsParent p t
        → insert F fuel id body flags p allow mark t ≡ ok o
        → IsTree F o.tree
    insert-IsTree v known e = elim (insert_outcomes e) [
      | inl (_, r) ↦ subst (IsTree F) (sym r.0) v
      | inr (a, _, c) ↦
          insert_rev-IsTree F fuel id body p flags mark t o.tree a v
            (parent_generation-Under c.parent_gen known c.parent_generation c.new_gen)
            (λ b. get-none id t b c.fresh) c.made
    ]
