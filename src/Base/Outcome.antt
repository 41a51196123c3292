-- ===== src/Base/Outcome.antt =====
-- A call that may raise: its value, or the exception.
use mathlib.Core.Path.{◌≡◌, refl}
use mathlib.Core.Logic.{◌⊎◌, inl, inr}
use mathlib.Core.Option.{Option, none, some}
use mathlib.Core.Bool.{Bool, true, false}

-- Either the exception that left the call or the value that it returned.
pub data Result {ℓ κ} (E : Type ℓ) (A : Type κ) : Type (ℓ ⊔ κ) where
  err : E → Result E A
  ok : A → Result E A

pub ok-injective {ℓ κ} :
    {E : Type ℓ} {A : Type κ} {a b : A} → ◌≡◌ {A = Result E A} (ok a) (ok b) → a ≡ b
ok-injective e = cc

pub Result-cases {ℓ κ} :
    {E : Type ℓ} {A : Type κ} (r : Result E A)
    → ((raised : E) × (r ≡ err raised)) ⊎ ((value : A) × (r ≡ ok value))
Result-cases (err raised) = inl (raised, refl)
Result-cases (ok value) = inr (value, refl)

module _ {ℓ κ μ} {E : Type ℓ} {A : Type κ} {B : Type μ} where
  infixl 5 ◌>>=◌
  abbrev pub ◌>>=◌ : Result E A → (A → Result E B) → Result E B
  err raised >>= next = err raised
  ok value >>= next = next value

  -- A chain that returned went through a value of its first call.
  pub returned-bind :
      (first : Result E A) (next : A → Result E B) {out : B}
      → (first >>= next) ≡ ok out
      → (value : A) × (next value ≡ ok out) × (first ≡ ok value)
  returned-bind (err raised) next returned = cc
  returned-bind (ok value) next returned = (value, returned, refl)

  pub returns-bind :
      (first : Result E A) (next : A → Result E B)
      → (a : A) × (first ≡ ok a)
      → ((a : A) → (b : B) × (next a ≡ ok b))
      → (b : B) × ((first >>= next) ≡ ok b)
  returns-bind (err raised) next (a, h) then_returns = cc
  returns-bind (ok value) next (a, h) then_returns = then_returns value

module _ {ℓ κ} {E : Type ℓ} {A : Type κ} where
  pub bind-ok : (r : Result E A) → (r >>= λ a. ok a) ≡ r
  bind-ok (err raised) = refl
  bind-ok (ok value) = refl

module _ {ℓ κ} {E : Type ℓ} {B : Type κ} where
  infixl 5 ◌>>◌
  abbrev pub ◌>>◌ : Result E (Unit {0}) → Result E B → Result E B
  check >> next = check >>= λ passed. next

module _ {ℓ κ} {E : Type ℓ} {A : Type κ} where
  -- `if value is None: raise e`
  abbrev pub or_raise : Option A → E → Result E A
  or_raise none raised = err raised
  or_raise (some value) raised = ok value

module _ {ℓ} {E : Type ℓ} where
  -- `if b: raise e`
  abbrev pub raise_if : Bool → E → Result E (Unit {0})
  raise_if true raised = err raised
  raise_if false raised = ok tt

  pub raise_if-false : (b : Bool) (raised : E) → raise_if b raised ≡ ok tt → b ≡ false
  raise_if-false true raised h = cc
  raise_if-false false raised h = refl
