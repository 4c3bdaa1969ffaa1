-- ===== src/Prelude/Sorting.antt =====
-- What `sort_by` keeps.
use Prim.Native.Nat.{ℕ, ◌+◌}
use mathlib.Core.Path.{◌≡◌, refl, sym}
use mathlib.Core.Logic.{◌≢◌, inl, inr}
use mathlib.Core.Bool.{Bool}
use mathlib.Core.List.{List, [], ◌∷◌}
use native.Mathlib.Omega.{arith}
use albedo.Prelude.Tests.{Bool-cases}
use albedo.Prelude.Lists.{sum_of, All}
use albedo.Prelude.Queries.{insert_by, sort_by}
use albedo.Prelude.Updates.{IsKeyed}

module _ {A : Type 0} (before : A → A → Bool) where
  sum_of-insert_by :
      (f : A → ℕ) (x : A) (xs : List A) → sum_of f (insert_by before x xs) ≡ f x + sum_of f xs
  unfolding insert_by
  sum_of-insert_by f x [] = refl
  sum_of-insert_by f x (y ∷ ys) = ground (arith, sum_of-insert_by f x ys)

  -- Sorting keeps every sum, every property of the rows, and distinct keys.
  pub sum_of-sort_by : (f : A → ℕ) (xs : List A) → sum_of f (sort_by before xs) ≡ sum_of f xs
  unfolding sort_by
  sum_of-sort_by f [] = refl
  sum_of-sort_by f (x ∷ xs) =
      omega (arith, sum_of-insert_by f x (sort_by before xs), sum_of-sort_by f xs)

  All-insert_by :
      (P : A → Type 0) (x : A) (xs : List A) → P x → All P xs → All P (insert_by before x xs)
  unfolding insert_by
  All-insert_by P x [] px h = (px, tt)
  All-insert_by P x (y ∷ ys) px h = elim (Bool-cases (before y x)) [
    | inl after ↦ rw after (h.0, All-insert_by P x ys px h.1)
    | inr here ↦ rw here (px, h)
  ]

  pub All-sort_by : (P : A → Type 0) (xs : List A) → All P xs → All P (sort_by before xs)
  unfolding sort_by
  All-sort_by P [] h = tt
  All-sort_by P (x ∷ xs) h = All-insert_by P x _ h.0 (All-sort_by P xs h.1)

  insert_by-IsKeyed :
      (key : A → ℕ) (x : A) (xs : List A)
      → All (λ y. key y ≢ key x) xs
      → IsKeyed key xs
      → IsKeyed key (insert_by before x xs)
  unfolding insert_by
  insert_by-IsKeyed key x [] other h = (tt, tt)
  insert_by-IsKeyed key x (y ∷ ys) other h = elim (Bool-cases (before y x)) [
    | inl after ↦ rw after (
      All-insert_by (λ z. key z ≢ key y) x ys (λ e. other.0 (sym e)) h.0,
      insert_by-IsKeyed key x ys other.1 h.1,
    )
    | inr here ↦ rw here (other, h)
  ]

  pub sort_by-IsKeyed :
      (key : A → ℕ) (xs : List A) → IsKeyed key xs → IsKeyed key (sort_by before xs)
  unfolding sort_by
  sort_by-IsKeyed key [] h = tt
  sort_by-IsKeyed key (x ∷ xs) h =
      insert_by-IsKeyed key x _ (All-sort_by (λ y. key y ≢ key x) xs h.0)
        (sort_by-IsKeyed key xs h.1)
