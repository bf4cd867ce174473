-- ===== src/Checkpoint/AutosaveSafe.antt =====
-- What holds of a checkpoint whatever its threads do: each step keeps it.
use cbl.Prelude.{
  ℕ, suc, ◌+◌, ◌≡◌, inl, inr, refl, sym, Bool, true, false, not, ◌||◌, Option, none, some, Slice,
  ok, ltb, if-cases, if◌then◌else◌, arith, ok-injective, ap, subst,
}
use cbl.Checkpoint.{
  Json, Checkpoint, new_checkpoint, Save, set, encode, enable_autosave, stop_autosave, save, finish,
  fire_after, schedule, is_some,
}
use cbl.Checkpoint.Autosave.{System, new_system, run_save, run_finish}

abbrev pub is_on : Option Bool → Bool
is_on none = false
is_on (some on) = on

pub record IsSafe (J : Json) (s : System) : Type 0 where
  -- Without a timer there is no change to save.
  pub off : is_some s.checkpoint.timer ≡ false → s.checkpoint.changed ≡ false
  -- A change is going to be saved.
  pub on_the_way :
      s.checkpoint.changed ≡ true
      → (s.checkpoint.saving || (is_on s.checkpoint.timer || ltb 0 s.pending)) ≡ true
  -- There is one callback at a time.
  pub one : s.in_flight ≡ (if s.checkpoint.saving then 1 else 0)
  -- Without a change, what was saved last is the present state.
  pub current :
      is_some s.checkpoint.timer ≡ true
      → s.checkpoint.changed ≡ false
      → s.latest ≡ encode J s.checkpoint

schedule-is_some :
    (saving : Bool) (timer : Option Bool) → is_some (schedule saving timer) ≡ is_some timer
unfolding schedule
schedule-is_some saving none = refl
schedule-is_some true (some on) = refl
schedule-is_some false (some true) = refl
schedule-is_some false (some false) = refl

-- When `set` is through, its change waits for the save in progress or for the timer.
schedule-is_on :
    (saving : Bool) (timer : Option Bool)
    → is_some timer ≡ true
    → (saving || is_on (schedule saving timer)) ≡ true
unfolding schedule
schedule-is_on saving none e = cc
schedule-is_on true (some on) e = refl
schedule-is_on false (some true) e = refl
schedule-is_on false (some false) e = refl

module _ (J : Json) where
  pub new_system-IsSafe : (json : Slice) → IsSafe J (new_system json)
  unfolding new_checkpoint
  new_system-IsSafe json = record {
    off = λ _. refl;
    on_the_way = λ e. cc;
    one = refl;
    current = λ e _. cc;
  }

  pub set-IsSafe :
      (l : Option ℕ) (r : Option (Option Slice)) (s : System)
      → IsSafe J s
      → IsSafe J (record s { checkpoint = set l r s.checkpoint })
  unfolding set schedule
  set-IsSafe l r s v = record {
    off = ground (arith, schedule-is_some s.checkpoint.saving s.checkpoint.timer, v.off);
    on_the_way = ground (arith, schedule-is_on s.checkpoint.saving s.checkpoint.timer, v.off);
    one = v.one;
    current = ground (arith, schedule-is_some s.checkpoint.saving s.checkpoint.timer);
  }

  pub enable-IsSafe :
      (s : System)
      → IsSafe J s
      → s.checkpoint.timer ≡ none
      → IsSafe J
          (record s { checkpoint = enable_autosave s.checkpoint; latest = encode J s.checkpoint })
  unfolding enable_autosave encode
  enable-IsSafe s v e = record {
    off = λ z. cc;
    on_the_way = λ c. let z : s.checkpoint.changed ≡ false = v.off (rw e refl) in cc;
    one = v.one;
    current = λ _ _. refl;
  }

  pub stop-IsSafe :
      (s : System) → IsSafe J s → IsSafe J (record s { checkpoint = stop_autosave s.checkpoint })
  unfolding stop_autosave
  stop-IsSafe s v = record {
    off = λ _. refl;
    on_the_way = λ e. cc;
    one = v.one;
    current = λ e _. cc;
  }

  pub call-IsSafe : (s : System) → IsSafe J s → IsSafe J (record s { pending = s.pending + 1 })
  call-IsSafe s v = record {
    off = v.off;
    on_the_way = ground arith;
    one = v.one;
    current = v.current;
  }

  pub fire-IsSafe :
      (s : System)
      → IsSafe J s
      → s.checkpoint.timer ≡ some true
      → IsSafe J (record s {
        checkpoint = record (s.checkpoint) { timer = some false };
        pending = s.pending + 1;
      })
  unfolding encode
  fire-IsSafe s v e = record {
    off = λ z. cc;
    on_the_way = ground arith;
    one = v.one;
    current = λ _ c. v.current (rw e refl) c;
  }

  pub run_save-IsSafe :
      (s : System) (n : ℕ) (w : Save)
      → IsSafe J s
      → save J s.checkpoint ≡ w
      → IsSafe J (run_save n w s)
  unfolding save run_save encode
  run_save-IsSafe s n w v e =
      let k = s.checkpoint in
      elim (if-cases (not k.changed || not (is_some k.timer)) _ _ e) [
        | inl (idle, r) ↦
            subst (λ x. IsSafe J (run_save n x s)) r
              (record {
                off = v.off;
                on_the_way = ground (arith, v.off);
                one = v.one;
                current = v.current;
              })
        | inr (busy, more) ↦ elim (if-cases k.saving _ _ more) [
          | inl (wait, r) ↦
              subst (λ x. IsSafe J (run_save n x s)) r
                (record {
                  off = v.off;
                  on_the_way = ground arith;
                  one = v.one;
                  current = v.current;
                })
          | inr (go, r) ↦
              subst (λ x. IsSafe J (run_save n x s)) r
                (record {
                  off = λ _. refl;
                  on_the_way = λ z. refl;
                  one = ground (arith, v.one);
                  current = λ _ _. refl;
                })
        ]
      ]

  fired :
      (k c : Checkpoint) (now : Bool) (timer : Option Bool)
      → fire_after k timer ≡ ok (now, c)
      → (now ≡ false) × (record k { timer = some true } ≡ c)
  unfolding fire_after
  fired k c now none e = cc
  fired k c now (some on) e = let f = ok-injective e in (sym (ap (λ x. x.0) f), ap (λ x. x.1) f)

  pub finish-IsSafe :
      (s : System) (n : ℕ) (now : Bool) (c : Checkpoint)
      → IsSafe J s
      → s.in_flight ≡ suc n
      → finish s.checkpoint ≡ ok (now, c)
      → IsSafe J (run_finish n now c s)
  unfolding finish run_finish encode
  finish-IsSafe s n now c v e f =
      let k = s.checkpoint in
      let Safely : Bool × Checkpoint → Type 0 = λ x. IsSafe J (run_finish n x.0 x.1 s) in
      elim (if-cases (not k.saving) _ _ f) [
        | inl (idle, _) ↦ ground (arith, v.one)
        | inr (busy, more) ↦ elim (if-cases k.overdue _ _ more) [
          | inl (_, r) ↦ subst Safely (ok-injective r) (record {
            off = v.off;
            on_the_way = ground arith;
            one = ground (arith, v.one);
            current = v.current;
          })
          | inr (_, rest) ↦ elim (if-cases k.changed _ _ rest) [
            | inl (change, r) ↦
                let (never, at) = fired (record k { saving = false }) c now k.timer r in
                rw never (
                  subst (λ x. Safely (false, x)) at
                    (record {
                      off = λ z. cc;
                      on_the_way = λ _. refl;
                      one = ground (arith, v.one);
                      current = λ _ z. cc;
                    }))
            | inr (still, r) ↦ subst Safely (ok-injective r) (record {
              off = v.off;
              on_the_way = λ z. cc;
              one = ground (arith, v.one);
              current = v.current;
            })
          ]
        ]
      ]
