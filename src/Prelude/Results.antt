-- ===== src/Prelude/Results.antt =====
-- A call that may raise: what it raised, or its value.
use mathlib.Core.Path.{◌≡◌, refl}
use mathlib.Core.Logic.{◌⊎◌, inl, inr}

pub data Result {ℓ κ} (Fault : Type ℓ) (Value : Type κ) : Type (ℓ ⊔ κ) where
  err : Fault → Result Fault Value
  ok : Value → Result Fault Value

module _ {ℓ κ μ} {Fault : Type ℓ} {V : Type κ} {W : Type μ} where
  -- The next statement of a block, which runs only if the one before raised nothing.
  infixl 5 ◌>>=◌
  abbrev pub ◌>>=◌ : Result Fault V → (V → Result Fault W) → Result Fault W
  err fault >>= next = err fault
  ok value >>= next = next value

  -- So, where a block has come to its end, its first statement had a value.
  pub first_value :
      (first : Result Fault V) (next : V → Result Fault W) {w : W}
      → (first >>= next) ≡ ok w
      → (v : V) × (first ≡ ok v) × (next v ≡ ok w)
  first_value (err fault) next ended = cc
  first_value (ok value) next ended = (value, refl, ended)

module _ {ℓ κ μ} {Fault : Type ℓ} {V : Type κ} {W : Type μ} where
  -- Where a block has raised, its first statement has, or what came after it.
  pub first_fault :
      (first : Result Fault V) (next : V → Result Fault W) {x : Fault}
      → (first >>= next) ≡ err x
      → (first ≡ err x) ⊎ ((v : V) × (first ≡ ok v) × (next v ≡ err x))
  first_fault (err fault) next raised = inl cc
  first_fault (ok value) next raised = inr (value, refl, raised)

pub err-injective {ℓ κ} :
    {Fault : Type ℓ} {V : Type κ} {x y : Fault} → ◌≡◌ {A = Result Fault V} (err x) (err y) → x ≡ y
err-injective e = cc

pub ok-injective {ℓ κ} :
    {Fault : Type ℓ} {V : Type κ} {v w : V} → ◌≡◌ {A = Result Fault V} (ok v) (ok w) → v ≡ w
ok-injective e = cc
