-- ===== src/RevTree/InsertTotal.antt =====
-- `insert` returns: with fuel above the generations of a well-formed tree, no loop runs out.
use cbl.Prelude.{
  ℕ, ◌+◌, ◌≡◌, refl, sym, subst, ◌∙◌, inl, inr, Bool, true, false, not, ◌&&◌, ◌||◌, Option, none,
  some, Slice, arith, has, ◌==◌, ==_iff, Bool-cases, if◌then◌else◌, ok, >>=_total, if_total, ◌%◌,
  ◌^◌, Result,
}
use cbl.Fleece.{Fleece}
use cbl.RevId.{generation}
use cbl.RevTree.{Flags, Rev, RevTree, update, get, found_or_known}
use cbl.RevTree.Added.{not_has-stored}
use cbl.RevTree.Insert.{
  keep_new, unleaf, allocate, insert_rev, insertable, new_rev, makes_conflict, insert, insert_fresh,
  insert_unless, conflict_free, parent_generation, Outcome,
}
use cbl.RevTree.InsertChecked.{IsParent, Outcomes, insert_outcomes, insert-IsTree}
use cbl.RevTree.Walks.{Ends, Enough, IsTree-Ends, keep_body_total}
use cbl.RevTree.WellFormed.{IsTree}

-- The storage of a new revision leaves the parents of the others.
unleaf-parent :
    (p : Option ℕ) (r : Rev) (t : RevTree) (b : ℕ)
    → (b == t.allocated) ≡ false
    → ((unleaf p (allocate r t)).heap b).parent ≡ (t.heap b).parent
unfolding unleaf allocate
unleaf-parent none r t b n = rw (n, update) refl
unleaf-parent (some p) r t b n = ground arith

unleaf_new :
    (p : Option ℕ) (r : Rev) (t : RevTree)
    → ((unleaf p (allocate r t)).heap t.allocated).parent ≡ r.parent
unfolding unleaf allocate
unleaf_new none r t = ground arith
unleaf_new (some p) r t = ground arith

old_differs :
    (F : Fleece) (t : RevTree) (b : ℕ)
    → IsTree F t
    → has b t.revs ≡ true
    → (b == t.allocated) ≡ false
old_differs F t b v m = elim (Bool-cases (b == t.allocated)) [
  | inl e ↦ cc (
    subst (λ x. has x t.revs ≡ true) ((==_iff b t.allocated).0 e) m,
    not_has-stored t.allocated t.revs v.stored,
  )
  | inr e ↦ e
]

keep_new_total :
    (F : Fleece) (fuel : ℕ) (keep : Bool) (p : Option ℕ) (r : Rev) (t : RevTree)
    → IsTree F t
    → Enough F fuel t
    → IsParent p t
    → r.parent ≡ p
    → (u : RevTree) × (keep_new fuel keep p t.allocated (unleaf p (allocate r t)) ≡ ok u)
unfolding keep_new
keep_new_total F fuel false p r t v enough known is = (_, refl)
keep_new_total F fuel true none r t v enough known is = (_, refl)
keep_new_total F fuel true (some q) r t v enough known is =
    let h = (unleaf (some q) (allocate r t)).heap in
    let ends : Ends fuel h (some q) =
      IsTree-Ends F t h fuel (some q) v
        (λ b m. unleaf-parent (some q) r t b (old_differs F t b v m))
        (λ a e. (known a e, enough a (known a e))) in
    keep_body_total fuel t.allocated (unleaf (some q) (allocate r t))
      (subst (Ends fuel h) (sym (unleaf_new (some q) r t ∙ is)) ends)

else_total :
    {A : Type 0} (b : Bool) (x y : Result A)
    → b ≡ false
    → ((a : A) × (y ≡ ok a))
    → (a : A) × ((if b then x else y) ≡ ok a)
else_total true x y e h = cc
else_total false x y e h = h

assertions :
    (flags : Flags) (t : RevTree)
    → t.unknown ≡ false
    → (flags.closed && not flags.deleted) ≡ false
    → (((insertable flags).closed && not (insertable flags).deleted) || t.unknown) ≡ false
unfolding insertable
assertions flags t sure plain = ground arith

insert_rev_total :
    (F : Fleece) (fuel : ℕ) (id : Slice) (body : Option Slice) (p : Option ℕ) (flags : Flags)
    (mark : Bool) (t : RevTree)
    → IsTree F t
    → Enough F fuel t
    → IsParent p t
    → t.unknown ≡ false
    → (flags.closed && not flags.deleted) ≡ false
    → (out : ℕ × RevTree) × (insert_rev fuel id body p flags mark t ≡ ok out)
unfolding insert_rev insertable new_rev
insert_rev_total F fuel id body p flags mark t v enough known sure plain =
    let (u, kept) =
      keep_new_total F fuel flags.keep_body p
        (new_rev id body p (insertable flags) (makes_conflict mark p t)) t v enough known refl in
    else_total _ _ _ (assertions flags t sure plain) (>>=_total _ _ u kept (_, refl))

found_or_known_total : (t : RevTree) (o : Option ℕ) → t.unknown ≡ false → found_or_known t o ≡ ok o
unfolding found_or_known
found_or_known_total t (some a) sure = refl
found_or_known_total t none sure = rw sure refl

get_total : (id : Slice) (t : RevTree) → t.unknown ≡ false → (o : Option ℕ) × (get id t ≡ ok o)
unfolding get
get_total id t sure = (_, found_or_known_total t _ sure)

insert_fresh_total :
    (F : Fleece) (fuel : ℕ) (id : Slice) (body : Option Slice) (flags : Flags) (p : Option ℕ)
    (allow mark : Bool) (g parent_gen : ℕ) (t : RevTree)
    → IsTree F t
    → Enough F fuel t
    → IsParent p t
    → t.unknown ≡ false
    → (flags.closed && not flags.deleted) ≡ false
    → parent_generation F p t ≡ ok parent_gen
    → (o : Outcome) × (insert_fresh F fuel id body flags p allow mark g t ≡ ok o)
unfolding insert_fresh
insert_fresh_total F fuel id body flags p allow mark g parent_gen t v enough known sure plain at =
    let (out, made) = insert_rev_total F fuel id body p flags mark t v enough known sure plain in
    if_total (not allow && not (conflict_free p t)) _ _ (_, refl)
      (>>=_total _ _ parent_gen at (
        if_total (g == (parent_gen + 1) % 2 ^ 32) _ _ (>>=_total _ _ out made (_, refl)) (_, refl)))

insert_unless_total :
    (F : Fleece) (old : Option ℕ) (fresh : Result Outcome) (t : RevTree)
    → ((o : Outcome) × (fresh ≡ ok o))
    → (o : Outcome) × (insert_unless F old fresh t ≡ ok o)
unfolding insert_unless
insert_unless_total F none fresh t r = r
insert_unless_total F (some a) fresh t r = (_, refl)

-- `insert` returns, with one of its outcomes, and the tree is well formed after it, in a well-formed
-- tree whose revisions are all known, with fuel above its generations, if the ID can be read, the
-- parent is none or a revision of the tree with a readable ID, and a closed revision is a deletion.
pub insert_total :
    (F : Fleece) (fuel : ℕ) (id : Slice) (body : Option Slice) (flags : Flags) (p : Option ℕ)
    (allow mark : Bool) (g parent_gen : ℕ) (t : RevTree)
    → IsTree F t
    → Enough F fuel t
    → IsParent p t
    → t.unknown ≡ false
    → (flags.closed && not flags.deleted) ≡ false
    → generation F id ≡ ok g
    → parent_generation F p t ≡ ok parent_gen
    → (o : Outcome) × (insert F fuel id body flags p allow mark t ≡ ok o)
      × Outcomes F fuel id body flags p allow mark t o
      × IsTree F o.tree
unfolding insert
insert_total F fuel id body flags p allow mark g parent_gen t v enough known sure plain readable
      at =
    let (old, found) = get_total id t sure in
    let inserted =
      insert_unless_total F old (insert_fresh F fuel id body flags p allow mark g t) t (
        insert_fresh_total F fuel id body flags p allow mark g parent_gen t v enough known sure
          plain at) in
    let (o, returned) =
      >>=_total (generation F id) _ g readable
        (if_total (g == 0) _ _ (_, refl) (>>=_total (get id t) _ old found inserted)) in
    (
      o,
      returned,
      insert_outcomes F fuel id body flags p allow mark t o returned,
      insert-IsTree F fuel id body flags p allow mark t o v known returned,
    )
