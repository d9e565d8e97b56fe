-- ===== src/Base/Results.antt =====
-- Code that throws, as values: `ok`, or `err` with the thrown Error object.
use Prim.Native.String.{String}
use mathlib.Core.Path.{◌≡◌, refl, ap}
use mathlib.Core.Bool.{Bool, true, false}
use mathlib.Core.Option.{Option, none, some}

-- The fields of an Error object that the program reads: `message`, `code`, `retryable`.
pub record Failure : Type 0 where
  pub message : String
  pub code : Option String
  pub retryable : Option Bool

pub data Result {ℓ} (A : Type ℓ) : Type ℓ where
  ok : A → Result A
  err : Failure → Result A

-- `throw new Error(message)`
abbrev pub throw {ℓ} : {A : Type ℓ} → String → Result A
throw m = err (record { message = m; code = none; retryable = none })

-- `error.code = code; throw error`
abbrev pub throw_code {ℓ} : {A : Type ℓ} → String → String → Result A
throw_code m c = err (record { message = m; code = some c; retryable = none })

-- Sequencing: an exception passes the rest by.
infixl 5 ◌>>=◌ ◌>>◌
module _ {ℓ κ} {A : Type ℓ} {B : Type κ} where
  abbrev pub ◌>>=◌ : Result A → (A → Result B) → Result B
  ◌>>=◌ (err thrown) rest = err thrown
  ◌>>=◌ (ok value) rest = rest value

abbrev pub ◌>>◌ {ℓ} : {B : Type ℓ} → Result (Unit {0}) → Result B → Result B
check >> rest = check >>= λ done. rest

-- `if (bad) throw new Error(message)`
abbrev pub throw_if : Bool → String → Result (Unit {0})
throw_if true m = throw m
throw_if false m = ok tt

-- `if (bad) { error.code = code; throw error; }`
abbrev pub throw_code_if : Bool → String → String → Result (Unit {0})
throw_code_if true m c = throw_code m c
throw_code_if false m c = ok tt

-- What a block that did not throw went through: its first action gave a value, and the rest went
-- on from it.
module _ {ℓ κ} {A : Type ℓ} {B : Type κ} where
  pub bind_inversion :
      (first : Result A) (rest : A → Result B) {result : B}
      → first >>= rest ≡ ok result
      → (got : A) × (first ≡ ok got) × (rest got ≡ ok result)
  bind_inversion (err thrown) rest h = cc
  bind_inversion (ok got) rest h = (got, refl, h)

abbrev pub is_ok {ℓ} : {A : Type ℓ} → Result A → Bool
is_ok (ok a) = true
is_ok (err e) = false

pub ok-injective {ℓ} : {A : Type ℓ} {a b : A} → ok a ≡ ok b → a ≡ b
ok-injective {A} {a} {b} h = ap (λ r. value_or r a) h
  where
    value_or : Result A → A → A
    value_or (ok x) d = x
    value_or (err e) d = d

pub throw_if-bind {ℓ} :
    {B : Type ℓ} (bad : Bool) (m : String) (k : Result B) {b : B}
    → (throw_if bad m >> k) ≡ ok b
    → (bad ≡ false) × (k ≡ ok b)
throw_if-bind true m k h = cc
throw_if-bind false m k h = (refl, h)

pub throw_if-ok : (bad : Bool) (m : String) → throw_if bad m ≡ ok tt → bad ≡ false
throw_if-ok true m h = cc
throw_if-ok false m h = refl
