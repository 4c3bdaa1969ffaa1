-- ===== src/Prelude/Queries.antt =====
-- The queries that the workers put to a table, over a list of rows: WHERE, UPDATE, ORDER BY with
-- LIMIT 1, COUNT, MAX; and Python's stable `sorted`.
use Prim.Native.Nat.{ℕ, suc, max}
use mathlib.Core.Path.{◌≡◌, refl}
use mathlib.Core.Logic.{inl, inr}
use mathlib.Core.Bool.{Bool, true, false, ◌||◌}
use mathlib.Core.Option.{Option, none, some}
use mathlib.Core.List.{List, [], ◌∷◌}
use native.Mathlib.Omega.{arith}
use albedo.Prelude.Tests.{if◌then◌else◌, Bool-cases}
use albedo.Prelude.Lists.{length, All}

module _ {ℓ} {A : Type ℓ} where
  -- SELECT ... WHERE
  unfoldable pub select : (A → Bool) → List A → List A
  select p [] = []
  select p (x ∷ xs) = let rest = select p xs in if p x then x ∷ rest else rest

  -- UPDATE ... SET ... WHERE
  unfoldable pub update : (A → Bool) → (A → A) → List A → List A
  update p f [] = []
  update p f (x ∷ xs) = (if p x then f x else x) ∷ update p f xs

  -- The first element that passes, as `next((x for x in xs if p(x)), None)`.
  unfoldable pub find? : (A → Bool) → List A → Option A
  find? p [] = none
  find? p (x ∷ xs) = if p x then some x else find? p xs

  unfoldable pub any : (A → Bool) → List A → Bool
  any p [] = false
  any p (x ∷ xs) = p x || any p xs

  unfoldable pub count : (A → Bool) → List A → ℕ
  count p [] = 0
  count p (x ∷ xs) = if p x then suc (count p xs) else count p xs

  -- ORDER BY ... LIMIT 1: the first row that no other is before.
  unfoldable pub pick : (A → A → Bool) → A → Option A → A
  pick before x none = x
  pick before x (some y) = if before y x then y else x

  unfoldable pub first_by : (A → A → Bool) → List A → Option A
  unfolding pick
  first_by before [] = none
  first_by before (x ∷ xs) = some (pick before x (first_by before xs))

  -- Python's `sorted`, with `before` the strict order of the keys: equal keys keep their order.
  unfoldable pub insert_by : (A → A → Bool) → A → List A → List A
  insert_by before x [] = x ∷ []
  insert_by before x (y ∷ ys) =
      let later = y ∷ insert_by before x ys in if before y x then later else x ∷ y ∷ ys

  unfoldable pub sort_by : (A → A → Bool) → List A → List A
  unfolding insert_by
  sort_by before [] = []
  sort_by before (x ∷ xs) = insert_by before x (sort_by before xs)

  -- COALESCE(MAX(key), 0)
  unfoldable pub max_of : (A → ℕ) → List A → ℕ
  max_of key [] = 0
  max_of key (x ∷ xs) = max (key x) (max_of key xs)

  pub length-sort_by :
      (before : A → A → Bool) (xs : List A) → length (sort_by before xs) ≡ length xs
  unfolding sort_by
  length-sort_by before [] = refl
  length-sort_by before (x ∷ xs) =
      omega (arith, length-insert_by x (sort_by before xs), length-sort_by before xs)
    where
      length-insert_by : (x : A) (ys : List A) → length (insert_by before x ys) ≡ suc (length ys)
      length-insert_by x [] = refl
      length-insert_by x (y ∷ ys) = ground (arith, length-insert_by x ys)

  -- What a WHERE leaves passes its test.
  pub All-select : (p : A → Bool) (xs : List A) → All (λ x. p x ≡ true) (select p xs)
  unfolding select
  All-select p [] = tt
  All-select p (x ∷ xs) = elim (Bool-cases (p x)) [
    | inl kept ↦ rw kept (kept, All-select p xs)
    | inr out ↦ rw out (All-select p xs)
  ]
