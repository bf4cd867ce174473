-- ===== src/Prelude/Results.antt =====
-- Calls that may throw: litecore::error values (LiteCore/Support/Error.hh) as results.
use mathlib.Core.Path.{◌≡◌, refl, ap}
use mathlib.Core.Bool.{Bool, true, false}
use cbl.Prelude.Tests.{if◌then◌else◌}

-- The last two are the model's own: a read outside of a buffer (undefined behaviour), and a loop that ran
-- out of fuel.
pub data Error : Type 0 where
  assertion_failed corrupt_revision_data bad_revision_id unsupported_encryption crypto_error : Error
  corrupt_data sqlite_error null_pointer bad_read out_of_fuel : Error

pub data Result {ℓ} (A : Type ℓ) : Type ℓ where
  ok : A → Result A
  throws : Error → Result A

module _ {ℓ} {A : Type ℓ} where
  abbrev pub value_or : A → Result A → A
  value_or other (throws _) = other
  value_or other (ok result) = result

  pub ok-injective : {a b : A} → ok a ≡ ok b → a ≡ b
  ok-injective {a} e = ap (value_or a) e

module _ {ℓ κ} {A : Type ℓ} {B : Type κ} where
  infixl 5 ◌>>=◌
  abbrev pub ◌>>=◌ : Result A → (A → Result B) → Result B
  throws why >>= next = throws why
  ok result >>= next = next result

  -- A block that returns: its first step returned, and so did the rest.
  pub >>=-eq-ok :
      (first : Result A) (next : A → Result B) {last : B}
      → (first >>= next) ≡ ok last
      → (mid : A) × (first ≡ ok mid) × (next mid ≡ ok last)
  >>=-eq-ok (throws why) next returns = cc
  >>=-eq-ok (ok mid) next returns = (mid, refl, returns)

  -- A block returns if its first step does and then the rest.
  pub >>=_total :
      (first : Result A) (next : A → Result B) (mid : A)
      → first ≡ ok mid
      → ((last : B) × (next mid ≡ ok last))
      → (last : B) × ((first >>= next) ≡ ok last)
  >>=_total first next mid e (last, returns) = (last, rw e returns)

-- A conditional returns if both branches do.
pub if_total {ℓ} :
    {A : Type ℓ} (b : Bool) (x y : Result A)
    → ((a : A) × (x ≡ ok a))
    → ((a : A) × (y ≡ ok a))
    → (a : A) × ((if b then x else y) ≡ ok a)
if_total true x y h k = h
if_total false x y h k = k
