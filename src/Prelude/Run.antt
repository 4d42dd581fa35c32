-- ===== src/Prelude/Run.antt =====
-- How a call of the program ends: with a value, or in a fault. A fault is a failed assert, an
-- access out of the bounds of an array, a read through NULL, a call of abort(), or the end of
-- the fuel that the model gives a loop.
use mathlib.Core.Path.{◌≡◌, refl}
use mathlib.Core.Bool.{Bool, true, false}
use byo_redis.Prelude.Tests.{if◌then◌else◌}

pub data Fault : Type 0 where
  assert_failed out_of_bounds null_pointer aborted out_of_fuel : Fault

pub data Run {ℓ} (A : Type ℓ) : Type ℓ where
  ok : A → Run A
  fault : Fault → Run A

-- `assert(b)`, then the rest.
abbrev pub check {ℓ} : {A : Type ℓ} → Bool → Fault → Run A → Run A
check true e r = r
check false e r = fault e

infixl 5 ◌>>=◌
abbrev pub ◌>>=◌ {ℓ κ} : {A : Type ℓ} {B : Type κ} → Run A → (A → Run B) → Run B
fault why >>= rest = fault why
ok result >>= rest = rest result

-- The run ends without a fault, in a value that satisfies `P`.
abbrev pub Returns {ℓ κ} : {A : Type ℓ} (run : Run A) (Post : A → Type κ) → Type (ℓ ⊔ κ)
Returns {A} run Post = (result : A) × (run ≡ ok result) × Post result

module _ {ℓ κ} {A : Type ℓ} {P : A → Type κ} where
  pub Returns-map {κ'} :
      {Q : A → Type κ'} {r : Run A} → Returns r P → ((a : A) → P a → Q a) → Returns r Q
  Returns-map (a, e, p) k = (a, e, k a p)

  pub Returns-if :
      {x y : Run A} (b : Bool)
      → (b ≡ true → Returns x P)
      → (b ≡ false → Returns y P)
      → Returns (if b then x else y) P
  Returns-if true p q = p refl
  Returns-if false p q = q refl
