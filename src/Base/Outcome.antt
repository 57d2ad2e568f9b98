-- ===== src/Base/Outcome.antt =====
-- How a call can end. `throw` is a C++ exception with its message, `fatal` the abort of a failed
-- CHECK or, in System/Memory, undefined behaviour; `out_of_fuel` has no counterpart in the program.
use mathlib.Core.Path.{◌≡◌, refl}
use mathlib.Core.Logic.{◌≢◌}
use r4r.Base.Text.{Str}

pub data Result {ℓ} (A : Type ℓ) : Type ℓ where
  fatal : Result A
  out_of_fuel : Result A
  throw : Str → Result A
  ok : A → Result A

module _ {ℓ κ} {A : Type ℓ} {B : Type κ} where
  -- What follows is run only after a normal return.
  infixl 5 ◌>>=◌
  abbrev pub ◌>>=◌ : Result A → (A → Result B) → Result B
  fatal >>= next = fatal
  out_of_fuel >>= next = out_of_fuel
  throw message >>= next = throw message
  ok value >>= next = next value

  -- A sequence that returned normally did so in both parts.
  pub bind-eq-ok :
      (first : Result A) (next : A → Result B) {result : B}
      → (first >>= next) ≡ ok result
      → (value : A) × (first ≡ ok value) × (next value ≡ ok result)
  bind-eq-ok fatal next returned = cc
  bind-eq-ok out_of_fuel next returned = cc
  bind-eq-ok (throw message) next returned = cc
  bind-eq-ok (ok value) next returned = (value, refl, returned)

pub ok-injective {ℓ} : {A : Type ℓ} {a b : A} → ok a ≡ ok b → a ≡ b
ok-injective e = cc

module _ {ℓ κ} {A : Type ℓ} {B : Type κ} where
  -- A sequence ends when both parts do.
  pub bind-ne-out_of_fuel :
      (first : Result A) (next : A → Result B)
      → first ≢ out_of_fuel
      → ((value : A) → first ≡ ok value → next value ≢ out_of_fuel)
      → (first >>= next) ≢ out_of_fuel
  bind-ne-out_of_fuel fatal next ends later = λ e. cc
  bind-ne-out_of_fuel out_of_fuel next ends later = λ e. ends refl
  bind-ne-out_of_fuel (throw message) next ends later = λ e. cc
  bind-ne-out_of_fuel (ok value) next ends later = later value refl
