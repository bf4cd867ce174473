-- ===== src/SequenceTracker/Pending.antt =====
-- What is pending for an observer: the entries after its placeholder.

use cbl.Prelude.{
  ℕ, zero, suc, ◌≤◌, ◌≡◌, inl, inr, refl, sym, ap, subst, some-none, some_injective, ◌∙◌, Bool,
  true, false, not, ◌&&◌, Option, none, some, List, [], ◌∷◌, ◌++◌, arith, ltb, ◌==◌, if◌then◌else◌,
  length, All, Bool-cases,
}
use cbl.SequenceTracker.{
  Entry, is_placeholder, is_of, trim, has_value, split, put_behind, after_placeholder, Change,
  change_of, differs, read_loop,
}

-- An entry with a database's observer is a placeholder.
abbrev pub Proper : Entry → Type 0
Proper e = (has_value e.database_observer && not (is_placeholder e)) ≡ false

-- The changes of documents among some entries.
pub documents : List Entry → List Change
documents [] = []
documents (e ∷ es) =
    let rest = documents es in if is_placeholder e then rest else change_of e ∷ rest

pub documents-append : (es fs : List Entry) → documents (es ++ fs) ≡ documents es ++ documents fs
unfolding documents
documents-append [] fs = refl
documents-append (e ∷ es) fs = elim (Bool-cases (is_placeholder e)) [
  | inl p ↦ rw p (documents-append es fs)
  | inr p ↦ rw p (ap (λ cs. change_of e ∷ cs) (documents-append es fs))
]

documents_nil : documents [] ≡ []
unfolding documents
documents_nil = refl

documents_skip :
    (e : Entry) (es : List Entry) → is_placeholder e ≡ true → documents (e ∷ es) ≡ documents es
unfolding documents
documents_skip e es p = rw p refl

documents_take :
    (e : Entry) (es : List Entry)
    → is_placeholder e ≡ false
    → documents (e ∷ es) ≡ change_of e ∷ documents es
unfolding documents
documents_take e es p = rw p refl

-- Whether a notifier is the one of a placeholder, if there is one.
abbrev is_one : ℕ → Option ℕ → Bool
is_one obs none = false
is_one obs (some o) = o == obs

not_of :
    (obs : ℕ) (o : Option ℕ) (p : Bool)
    → (has_value o && not p) ≡ false
    → p ≡ false
    → is_one obs o ≡ false
not_of obs none p h e = refl
not_of obs (some o) p h e = absurd (ground arith)

second_false : (a p : Bool) → (a && not p) ≡ true → p ≡ false
second_false true true e = absurd cc
second_false true false e = refl
second_false false p e = absurd cc

put_behind-none :
    (e : Entry) (o : Option (List Entry × Entry × List Entry)) → put_behind e o ≡ none → o ≡ none
put_behind-none e none h = refl
put_behind-none e (some _) h = absurd (some-none h)

after-put_behind :
    (e : Entry) (o : Option (List Entry × Entry × List Entry))
    → after_placeholder (put_behind e o) ≡ after_placeholder o
after-put_behind e none = refl
after-put_behind e (some _) = refl

-- What is pending does not change when old entries are removed.
pub after-trim :
    (obs room : ℕ) (es : List Entry)
    → All Proper es
    → after_placeholder (split obs (trim room es)) ≡ after_placeholder (split obs es)
unfolding trim split
after-trim obs room [] v = refl
after-trim obs room (e ∷ es) (proper, v) =
    elim (Bool-cases (ltb room (suc (length es)) && not (is_placeholder e))) [
      | inr stays ↦ rw stays refl
      | inl goes ↦
          let other : is_of obs e ≡ false =
            not_of obs e.database_observer (is_placeholder e) proper
              (second_false (ltb room (suc (length es))) (is_placeholder e) goes) in
          rw (goes, other) (after-trim obs room es v ∙ sym (after-put_behind e (split obs es)))
    ]

-- What the loop of `readChanges` passes.
pub read_loop_lem :
    (max : ℕ) (external : Option Bool) (es : List Entry)
    → (es ≡ (read_loop max external es).passed ++ (read_loop max external es).left)
      × ((read_loop max external es).out ≡ documents (read_loop max external es).passed)
      × (length (read_loop max external es).out ≤ max)
unfolding read_loop
read_loop_lem zero external es = (refl, sym documents_nil, omega arith)
read_loop_lem (suc room) external [] = (refl, sym documents_nil, omega arith)
read_loop_lem (suc room) external (e ∷ es) = elim (Bool-cases (is_placeholder e)) [
  | inl p ↦
      let (parts, out, most) = read_loop_lem (suc room) external es in
      (
        rw p (ap (λ l. e ∷ l) parts),
        rw p (out ∙ sym (documents_skip e (read_loop (suc room) external es).passed p)),
        rw p most,
      )
  | inr p ↦ elim (Bool-cases (differs external e)) [
    | inl d ↦ (rw (p, d) refl, rw (p, d) (sym documents_nil), rw (p, d) (omega arith))
    | inr d ↦
        let (parts, out, most) = read_loop_lem room (some e.external) es in
        (
          rw (p, d) (ap (λ l. e ∷ l) parts),
          rw (p, d)
              (ap (λ l. change_of e ∷ l) out
                ∙ sym (documents_take e (read_loop room (some e.external) es).passed p)),
          rw (p, d) (omega arith),
        )
  ]
]

-- Where a notifier's placeholder is.
pub record Parts (obs : ℕ) (es front : List Entry) (p : Entry) (after : List Entry) : Type 0 where
  pub whole : es ≡ front ++ p ∷ after
  pub before : split obs front ≡ none
  pub here : is_of obs p ≡ true

put_behind-parts :
    (e : Entry) (o : Option (List Entry × Entry × List Entry)) (q : List Entry × Entry × List Entry)
    → put_behind e o ≡ some q
    → (front : List Entry) × (p : Entry) × (after : List Entry) × (o ≡ some (front, p, after))
      × (q ≡ (e ∷ front, p, after))
put_behind-parts e none q h = absurd cc
put_behind-parts e (some (front, p, after)) q h = (front, p, after, refl, sym (some_injective h))

pub split-Parts :
    (obs : ℕ) (es : List Entry) (q : List Entry × Entry × List Entry)
    → split obs es ≡ some q
    → Parts obs es q.0 q.1 q.2
unfolding split
split-Parts obs [] q h = absurd cc
split-Parts obs (e ∷ es) q h = elim (Bool-cases (is_of obs e)) [
  | inl m ↦
      subst (λ q. Parts obs (e ∷ es) q.0 q.1 q.2) (some_injective (rw m at h))
        (record { whole = refl; before = refl; here = m })
  | inr m ↦
      let (front, p, after, f, g) = put_behind-parts e (split obs es) q (rw m at h) in
      let rec = split-Parts obs es (front, p, after) f in
      subst (λ q. Parts obs (e ∷ es) q.0 q.1 q.2) (sym g)
        (record {
          whole = ap (λ l. e ∷ l) rec.whole;
          before = rw (m, rec.before) refl;
          here = rec.here;
        })
]

pub split-append :
    (obs : ℕ) (xs ys : List Entry) (p : Entry)
    → split obs xs ≡ none
    → is_of obs p ≡ true
    → split obs (xs ++ p ∷ ys) ≡ some (xs, p, ys)
unfolding split
split-append obs [] ys p h m = rw m refl
split-append obs (e ∷ xs) ys p h m = elim (Bool-cases (is_of obs e)) [
  | inl here ↦ absurd (some-none (rw here at h))
  | inr other ↦
      rw (other, split-append obs xs ys p (put_behind-none e (split obs xs) (rw other at h)) m) refl
]

pub split-none :
    (obs : ℕ) (xs ys : List Entry)
    → split obs xs ≡ none
    → split obs ys ≡ none
    → split obs (xs ++ ys) ≡ none
unfolding split
split-none obs [] ys h k = k
split-none obs (e ∷ xs) ys h k = elim (Bool-cases (is_of obs e)) [
  | inl here ↦ absurd (some-none (rw here at h))
  | inr other ↦
      rw (other, split-none obs xs ys (put_behind-none e (split obs xs) (rw other at h)) k) refl
]

pub split-front : (obs : ℕ) (xs ys : List Entry) → split obs (xs ++ ys) ≡ none → split obs xs ≡ none
unfolding split
split-front obs [] ys h = refl
split-front obs (e ∷ xs) ys h = elim (Bool-cases (is_of obs e)) [
  | inl here ↦ absurd (some-none (rw here at h))
  | inr other ↦
      rw (other, split-front obs xs ys (put_behind-none e (split obs (xs ++ ys)) (rw other at h)))
        refl
]
