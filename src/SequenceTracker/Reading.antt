-- ===== src/SequenceTracker/Reading.antt =====
-- What an observer reads, and what is then still pending for it.
use mathlib.Core.List.{append_assoc}
use cbl.Prelude.{
  ℕ, suc, ◌+◌, ◌≤◌, ◌≡◌, ◌⊎◌, inl, inr, refl, sym, ap, subst, ◌∙◌, Bool, true, false, not, ◌&&◌,
  none, some, List, [], ◌∷◌, ◌++◌, ok, arith, ltb, length, All, Bool-cases,
}
use cbl.SequenceTracker.{
  Entry, is_placeholder, SequenceTracker, in_transaction, min_changes_to_keep, trim,
  remove_obsolete_entries, split, after_placeholder, Change, read_loop, read_found, first_external,
}
use cbl.SequenceTracker.Placeholders.{read_changes}
use cbl.SequenceTracker.Pending.{
  Proper, documents, documents-append, after-trim, read_loop_lem, Parts, split-Parts, split-append,
  split-none, split-front,
}

All-left : (xs ys : List Entry) → All Proper (xs ++ ys) → All Proper xs
All-left [] ys v = tt
All-left (x ∷ xs) ys v = (v.0, All-left xs ys v.1)

All-right : (xs ys : List Entry) → All Proper (xs ++ ys) → All Proper ys
All-right [] ys v = v
All-right (x ∷ xs) ys v = All-right xs ys v.1

All-append : (xs ys : List Entry) → All Proper xs → All Proper ys → All Proper (xs ++ ys)
All-append [] ys v w = w
All-append (x ∷ xs) ys v w = (v.0, All-append xs ys v.1 w)

-- If only placeholders have observers, removing the old entries leaves what is pending for every
-- observer.
pub after-remove_obsolete_entries :
    (obs : ℕ) (t : SequenceTracker)
    → All Proper t.changes
    → after_placeholder (split obs (remove_obsolete_entries t).changes)
      ≡ after_placeholder (split obs t.changes)
unfolding remove_obsolete_entries
after-remove_obsolete_entries obs t v = elim (Bool-cases (in_transaction t)) [
  | inl inside ↦ rw inside refl
  | inr outside ↦ rw outside (after-trim obs (min_changes_to_keep + t.num_placeholders) t.changes v)
]

no_changes : (out : List Change) → ltb 0 (length out) ≡ false → out ≡ []
no_changes [] h = refl
no_changes (c ∷ out) h = absurd (ground arith)

-- What is pending once the placeholder was moved past a batch.
moved_lem :
    (obs : ℕ) (t : SequenceTracker) (front : List Entry) (p : Entry)
    (after passed left : List Entry)
    → All Proper t.changes
    → Parts obs t.changes front p after
    → split obs after ≡ none
    → after ≡ passed ++ left
    → after_placeholder (
        split obs
          (remove_obsolete_entries (record t { changes = front ++ (passed ++ p ∷ left) })).changes)
      ≡ left
moved_lem obs t front p after passed left v parts once cut =
    let moved = record t { changes = front ++ (passed ++ p ∷ left) } in
    let old : All Proper (front ++ p ∷ (passed ++ left)) =
      subst (All Proper) (parts.whole ∙ ap (λ l. front ++ p ∷ l) cut) v in
    let (p_proper, rest) = All-right front (p ∷ (passed ++ left)) old in
    let proper : All Proper (front ++ (passed ++ p ∷ left)) =
      All-append front (passed ++ p ∷ left) (All-left front (p ∷ (passed ++ left)) old) (
        All-append passed (p ∷ left) (All-left passed left rest)
          (p_proper, All-right passed left rest)) in
    let clear : split obs passed ≡ none =
      split-front obs passed left (ap (λ l. split obs l) (sym cut) ∙ once) in
    after-remove_obsolete_entries obs moved proper
    ∙ ap (λ l. after_placeholder (split obs l)) (sym (append_assoc front passed (p ∷ left)))
    ∙ ap after_placeholder (
        split-append obs (front ++ passed) left p (split-none obs front passed parts.before clear)
          parts.here)

-- If an observer has one placeholder, and only placeholders have observers, then reading at most `max`
-- changes returns; it gives at most that many, and they and what is then still pending are, in order,
-- what was pending before: no change is lost, and none is read twice.
pub read_changes_lem :
    (obs max : ℕ) (t : SequenceTracker) (front : List Entry) (p : Entry) (after : List Entry)
    → All Proper t.changes
    → split obs t.changes ≡ some (front, p, after)
    → split obs after ≡ none
    → (out : List Change) × (external : Bool) × (t₁ : SequenceTracker) × (read_changes obs max t
        ≡ ok (out, external, t₁))
      × (length out ≤ max)
      × (documents after ≡ out ++ documents (after_placeholder (split obs t₁.changes)))
unfolding read_changes read_found
read_changes_lem obs max t front p after v found once =
    let b = read_loop max none after in
    let (cut, out, most) = read_loop_lem max none after in
    let parts = split-Parts obs t.changes (front, p, after) found in
    elim (Bool-cases (ltb 0 (length b.out))) [
      | inl some_read ↦ (
        b.out,
        first_external after,
        remove_obsolete_entries (record t { changes = front ++ (b.passed ++ p ∷ b.left) }),
        rw (found, read_changes, read_found, some_read) refl,
        most,
        ap documents cut
            ∙ documents-append b.passed b.left
            ∙ ap (λ l. l ++ documents b.left) (sym out)
            ∙ ap (λ l. b.out ++ documents l)
                (sym (moved_lem obs t front p after b.passed b.left v parts once cut)),
      )
      | inr none_read ↦ (
        b.out,
        false,
        t,
        rw (found, read_changes, read_found, none_read) refl,
        most,
        ap (λ q. documents (after_placeholder q)) (sym found)
            ∙ ap (λ l. l ++ documents (after_placeholder (split obs t.changes)))
                (sym (no_changes b.out none_read)),
      )
    ]

fits : (room n : ℕ) (p : Bool) → (ltb room n && not p) ≡ false → p ≡ false → n ≤ room
fits room n p h e = ground arith

trim-bound :
    (room : ℕ) (es : List Entry)
    → (length (trim room es) ≤ room)
      ⊎ ((e : Entry) × (rest : List Entry) × (trim room es ≡ e ∷ rest) × (is_placeholder e ≡ true))
unfolding trim
trim-bound room [] = inl (omega arith)
trim-bound room (e ∷ es) =
    elim (Bool-cases (ltb room (suc (length es)) && not (is_placeholder e))) [
      | inl goes ↦ rw goes (trim-bound room es)
      | inr stays ↦ elim (Bool-cases (is_placeholder e)) [
        | inl p ↦ inr (e, es, rw stays refl, p)
        | inr p ↦ inl (rw stays (fits room (suc (length es)) (is_placeholder e) stays p))
      ]
    ]

-- After the old entries were removed outside of a transaction, there are at most 100 entries and as many
-- more as there are placeholders, or the first entry is a placeholder.
pub remove_obsolete_entries-bound :
    (t : SequenceTracker)
    → in_transaction t ≡ false
    → (length (remove_obsolete_entries t).changes ≤ 100 + t.num_placeholders)
      ⊎ ((e : Entry) × (rest : List Entry) × ((remove_obsolete_entries t).changes ≡ e ∷ rest)
          × (is_placeholder e ≡ true))
unfolding remove_obsolete_entries
remove_obsolete_entries-bound t outside =
    rw outside (trim-bound (100 + t.num_placeholders) t.changes)
