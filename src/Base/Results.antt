-- ===== src/Base/Results.antt =====
-- Go's `error` results: a value, or an error with its message.
use Prim.Native.String.{String}
use mathlib.Core.Path.{◌≡◌, refl, ap}
use mathlib.Core.Bool.{Bool, true, false}
use mathlib.Core.Logic.{◌⊎◌, inl, inr}
use mathlib.Core.Option.{Option, none, some}

pub data Result {ℓ} (A : Type ℓ) : Type ℓ where
  err : (message : String) → Result A
  ok : (value : A) → Result A

-- `if test { return errors.New(message) }`
abbrev pub fail_if : Bool → String → Result (Unit {0})
fail_if true message = err message
fail_if false message = ok tt

-- `if err != nil { return errors.New(message) }`
abbrev pub or_fail {ℓ} : {A : Type ℓ} → Option A → String → Result A
or_fail none message = err message
or_fail (some a) message = ok a

module _ {κ} {B : Type κ} where
  -- A call whose error is returned at once.
  infixl 5 ◌>>=◌
  abbrev pub ◌>>=◌ {ℓ} : {A : Type ℓ} (step : Result A) (rest : A → Result B) → Result B
  err message >>= rest = err message
  ok value >>= rest = rest value

  infixl 5 ◌>>◌
  abbrev pub ◌>>◌ : (check : Result (Unit {0})) (rest : Result B) → Result B
  check >> rest = check >>= (λ _. rest)

abbrev pub is_ok {ℓ} : {A : Type ℓ} → Result A → Bool
is_ok (ok a) = true
is_ok (err e) = false

-- The success of a chain, taken apart one step at a time.
module _ {ℓ κ} {A : Type ℓ} {B : Type κ} {f : A → Result B} {b : B} where
  pub with_ok {μ} :
      (P : Type μ) (m : Result A) → (m >>= f) ≡ ok b → ((a : A) → m ≡ ok a → f a ≡ ok b → P) → P
  with_ok P (ok a) h k = k a refl h
  with_ok P (err e) h k = cc

pub Result-cases {ℓ} :
    {A : Type ℓ} (r : Result A) → ((a : A) × (r ≡ ok a)) ⊎ ((e : String) × (r ≡ err e))
Result-cases (ok a) = inl (a, refl)
Result-cases (err e) = inr (e, refl)

pub ok-injective {ℓ} : {A : Type ℓ} {a b : A} → ok a ≡ ok b → a ≡ b
ok-injective e = cc

pub fail_if-ok : (b : Bool) (message : String) {u : Unit {0}} → fail_if b message ≡ ok u → b ≡ false
fail_if-ok true message h = cc
fail_if-ok false message h = refl

pub or_fail-some {ℓ} :
    {A : Type ℓ} (o : Option A) (message : String) {a : A} → or_fail o message ≡ ok a → o ≡ some a
or_fail-some none message h = cc
or_fail-some (some b) message h = ap some (ok-injective h)
