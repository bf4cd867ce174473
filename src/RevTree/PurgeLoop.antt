-- ===== src/RevTree/PurgeLoop.antt =====
-- The loop of `purge` returns, counts what it marks and leaves every other branch alone.
use cbl.Prelude.{
  ℕ, zero, suc, ◌+◌, ◌<◌, ◌≡◌, ◌≢◌, refl, ap, ◌∙◌, subst, inl, inr, true, false, ◌||◌, some, List,
  [], ◌∷◌, arith, has, Distinct, ◌==◌, ==_iff, Bool-cases, Option-cases, ok, length,
}
use cbl.Fleece.{Fleece}
use cbl.RevTree.{Rev, RevTree, update, modify, has_child, confirm_leaf}
use cbl.RevTree.Purging.{
  Live, Purging, unlink, unlinked_tree, root-Purging, shared-Purging, alone-Purging, leafed,
  leafed-at, parent_inner, leafed-parts, parent_same,
}
use cbl.RevTree.Remove.{purge_up, unpurged}
use cbl.RevTree.WellFormed.{gen_of}

unpurged-cong :
    (h g : ℕ → Rev) (xs : List ℕ)
    → ((b : ℕ) → has b xs ≡ true → (h b).purge ≡ (g b).purge)
    → unpurged h xs ≡ unpurged g xs
unfolding unpurged
unpurged-cong h g [] e = refl
unpurged-cong h g (x ∷ xs) e =
    rw (e x (ground arith), unpurged-cong h g xs (λ b m. e b (ground arith))) refl

update_self : (h : ℕ → Rev) (a : ℕ) → (update h a unlink a).purge ≡ true
unfolding update
update_self h a = ground arith

update_other :
    (h : ℕ → Rev) (a b : ℕ) → (b == a) ≡ false → (update h a unlink b).purge ≡ (h b).purge
unfolding update
update_other h a b miss = rw miss refl

update_id : (h : ℕ → Rev) (a b : ℕ) → (update h a unlink b).rev_id ≡ (h b).rev_id
unfolding update
update_id h a b = ground arith

update_ne : (h : ℕ → Rev) (a b : ℕ) → b ≢ a → update h a unlink b ≡ h b
unfolding update
update_ne h a b ne = elim (Bool-cases (b == a)) [
  | inl hit ↦ absurd (ne ((==_iff b a).0 hit))
  | inr miss ↦ rw miss refl
]

-- To mark a member takes one off.
unpurged-mark :
    (h : ℕ → Rev) (a : ℕ) (xs : List ℕ)
    → Distinct xs
    → has a xs ≡ true
    → (h a).purge ≡ false
    → length (unpurged (update h a unlink) xs) + 1 ≡ length (unpurged h xs)
unfolding unpurged
unpurged-mark h a [] d m live = cc
unpurged-mark h a (x ∷ xs) d m live = elim (Bool-cases (a == x)) [
  | inl hit ↦
      let same : a ≡ x = (==_iff a x).0 hit in
      let rest : unpurged (update h a unlink) xs ≡ unpurged h xs =
        unpurged-cong (update h a unlink) h xs (λ b n. spared same b n) in
      rw (← same, update_self h a, live, rest) (omega arith)
  | inr miss ↦
      let here = update_other h a x (ground arith) in
      let rest = unpurged-mark h a xs d.1 (rw miss at m) live in
      rw here (elim (Bool-cases (h x).purge) [
        | inl marked ↦ rw marked rest
        | inr plain ↦ rw plain (omega (arith, rest))
      ])
]
  where
    spared : a ≡ x → (b : ℕ) → has b xs ≡ true → (update h a unlink b).purge ≡ (h b).purge
    spared same b n = elim (Bool-cases (b == a)) [
      | inl hit ↦ cc (subst (λ c. has c xs ≡ true) ((==_iff b a).0 hit ∙ same) n, d.0)
      | inr miss' ↦ update_other h a b miss'
    ]

-- What the loop has done to the tree, from the leaf `a` on.
pub record Purged (F : Fleece) (a : ℕ) (t u : RevTree) (n m : ℕ) : Type 0 where
  pub invariant : Purging F u
  pub revs : u.revs ≡ t.revs
  pub allocated : u.allocated ≡ t.allocated
  pub remote_revs : u.remote_revs ≡ t.remote_revs
  pub ids : (b : ℕ) → (u.heap b).rev_id ≡ (t.heap b).rev_id
  pub count : length (unpurged u.heap u.revs) + m ≡ length (unpurged t.heap t.revs) + n
  pub marked : (b : ℕ) → (t.heap b).purge ≡ true → (u.heap b).purge ≡ true
  pub gone : (u.heap a).purge ≡ true
  -- Every other leaf stays as it is.
  pub kept : (b : ℕ) → b ≢ a → Live t b → (t.heap b).leaf ≡ true → u.heap b ≡ t.heap b

module _ (F : Fleece) where
  last_round :
      (n a : ℕ) (t : RevTree)
      → Purging F (unlinked_tree a t)
      → Distinct t.revs
      → Live t a
      → Purged F a t (unlinked_tree a t) n (n + 1)
  unfolding modify
  last_round n a t w d l = record {
    invariant = w;
    revs = refl;
    allocated = refl;
    remote_revs = refl;
    ids = update_id t.heap a;
    count = omega (arith, unpurged-mark t.heap a t.revs d l.0 l.1);
    marked = λ b was. elim (Bool-cases (b == a)) [
      | inl hit ↦ rw ((==_iff b a).0 hit) (update_self t.heap a)
      | inr miss ↦ update_other t.heap a b miss ∙ was
    ];
    gone = update_self t.heap a;
    kept = λ b ne m leaf. update_ne t.heap a b ne;
  }

  next_round :
      (n m a p : ℕ) (t u : RevTree) (w : Purging F t) (l : Live t a) (leaf : (t.heap a).leaf ≡ true)
      → Distinct t.revs
      → (t.heap a).parent ≡ some p
      → Purged F p (leafed F a t w l leaf p) u (n + 1) m
      → Purged F a t u n m
  unfolding modify
  next_round n m a p t u w l leaf d e q = record {
    invariant = q.invariant;
    revs = q.revs;
    allocated = q.allocated;
    remote_revs = q.remote_revs;
    ids = λ b. q.ids b ∙ (parts b).2 ∙ update_id t.heap a b;
    count = omega (
      arith,
      q.count,
      unpurged-mark t.heap a t.revs d l.0 l.1,
      ap length (
          unpurged-cong (leafed F a t w l leaf p).heap (update t.heap a unlink) t.revs
            (λ b _. (parts b).1)),
    );
    marked = λ b was. q.marked b ((parts b).1 ∙ still_marked b was);
    gone = q.marked a ((parts a).1 ∙ update_self t.heap a);
    kept = λ b ne m leaf_b.
        let same = update_ne t.heap a b ne in
        let off : b ≢ p = λ is_p. cc (
          subst (λ c. (update t.heap a unlink c).leaf ≡ true) is_p (ap (λ r. r.leaf) same ∙ leaf_b),
          parent_inner F a t w l leaf p e,
        ) in
        q.kept b off (m.0, (parts b).1 ∙ ap (λ r. r.purge) same ∙ m.1)
          (ap (λ r. r.leaf) (at_b b off ∙ same) ∙ leaf_b)
        ∙ at_b b off
        ∙ same;
  }
    where
      parts :
          (b : ℕ)
          → (((leafed F a t w l leaf p).heap b).parent ≡ (update t.heap a unlink b).parent)
            × (((leafed F a t w l leaf p).heap b).purge ≡ (update t.heap a unlink b).purge)
            × (((leafed F a t w l leaf p).heap b).rev_id ≡ (update t.heap a unlink b).rev_id)
            × (((leafed F a t w l leaf p).heap b).leaf
                ≡ ((b == p) || (update t.heap a unlink b).leaf))
      parts b = leafed-parts F a t w l leaf p b

      still_marked : (b : ℕ) → (t.heap b).purge ≡ true → (update t.heap a unlink b).purge ≡ true
      still_marked b was = elim (Bool-cases (b == a)) [
        | inl hit ↦ rw ((==_iff b a).0 hit) (update_self t.heap a)
        | inr miss ↦ update_other t.heap a b miss ∙ was
      ]

      at_b : (b : ℕ) → b ≢ p → (leafed F a t w l leaf p).heap b ≡ update t.heap a unlink b
      at_b b off = leafed-at F a t w l leaf p b ∙ elim (Bool-cases (b == p)) [
        | inl hit ↦ absurd (off ((==_iff b p).0 hit))
        | inr miss ↦ rw miss refl
      ]

  pub purge_up-Purged :
      (fuel n a : ℕ) (t : RevTree)
      → Purging F t
      → Distinct t.revs
      → Live t a
      → (t.heap a).leaf ≡ true
      → gen_of F (t.heap a).rev_id < fuel
      → (m : ℕ) × (u : RevTree) × (purge_up fuel n a t ≡ ok (m, u)) × Purged F a t u n m
  unfolding purge_up
  purge_up-Purged zero n a t w d l leaf low = absurd (omega arith)
  purge_up-Purged (suc fuel) n a t w d l leaf low = elim (Option-cases (t.heap a).parent) [
    | inl root ↦ (
      n + 1,
      unlinked_tree a t,
      rw (root, purge_up) refl,
      last_round n a t (root-Purging F a t w l leaf root) d l,
    )
    | inr (p, e) ↦ elim (Bool-cases (has_child (update t.heap a unlink) p t.revs)) [
      | inl more ↦ (
        n + 1,
        unlinked_tree a t,
        rw (e, purge_up) (rw (more, confirm_leaf) refl),
        last_round n a t (shared-Purging F a t w l leaf p e more) d l,
      )
      | inr alone ↦
          let t₂ : RevTree = leafed F a t w l leaf p in
          let (up, lower) = w.parents a p l e in
          let parts = leafed-parts F a t w l leaf p p in
          let was = parent_same F a t w l leaf p e in
          let (m, u, is, q) =
            purge_up-Purged fuel (n + 1) p t₂ (alone-Purging F a t w l leaf p e alone) d
              (up.0, parts.1 ∙ ap (λ r. r.purge) was ∙ up.1) (parts.3 ∙ ground arith)
              (rw (parts.2 ∙ ap (λ r. r.rev_id) was) (omega arith)) in
          (
            m,
            u,
            rw (e, purge_up) (rw (alone, confirm_leaf) is),
            next_round n m a p t u w l leaf d e q,
          )
    ]
  ]
