-- ===== src/Prelude/Keeps.antt =====
-- What an INSERT and an UPDATE keep of a test on the rows.
use mathlib.Core.Path.{◌≡◌, refl}
use mathlib.Core.Logic.{inl, inr}
use mathlib.Core.Bool.{Bool, true}
use mathlib.Core.List.{List, [], ◌∷◌, ◌++◌}
use native.Mathlib.Omega.{arith}
use albedo.Prelude.Tests.{if◌then◌else◌, Bool-cases}
use mathlib.Core.Option.{some}
use albedo.Prelude.Queries.{update, any, count, find?}

module _ {A : Type 0} (q : A → Bool) where
  pub any-append : (xs ys : List A) → any q xs ≡ true → any q (xs ++ ys) ≡ true
  unfolding any
  any-append [] ys h = cc
  any-append (x ∷ xs) ys h = ground (arith, any-append xs ys)

  pub any_last : (xs : List A) (x : A) → q x ≡ true → any q (xs ++ x ∷ []) ≡ true
  unfolding any
  any_last [] x h = rw h refl
  any_last (y ∷ xs) x h = ground (arith, any_last xs x h)

  pub any-update :
      (p : A → Bool) (f : A → A) (xs : List A)
      → ((x : A) → q x ≡ true → q (f x) ≡ true)
      → any q xs ≡ true
      → any q (update p f xs) ≡ true
  unfolding any update
  any-update p f [] keep h = h
  any-update p f (x ∷ xs) keep h = elim (Bool-cases (q x)) [
    | inl hit ↦
        let head : q (if p x then f x else x) ≡ true = elim (Bool-cases (p x)) [
          | inl e ↦ rw e (keep x hit)
          | inr e ↦ rw e hit
        ] in
        rw head refl
    | inr miss ↦
        let rest : any q (update p f xs) ≡ true = any-update p f xs keep (rw miss at h) in
        ground (arith, rest)
  ]

  -- An UPDATE that leaves a test alone keeps the count.
  pub count-update :
      (p : A → Bool) (f : A → A) (xs : List A)
      → ((x : A) → q (f x) ≡ q x)
      → count q (update p f xs) ≡ count q xs
  unfolding count update
  count-update p f [] same = refl
  count-update p f (x ∷ xs) same = elim (Bool-cases (p x)) [
    | inl hit ↦ rw (hit, same x, count-update p f xs same) refl
    | inr miss ↦ rw (miss, count-update p f xs same) refl
  ]

  pub find?-some : (xs : List A) → any q xs ≡ true → (x : A) × (find? q xs ≡ some x)
  unfolding any find?
  find?-some [] h = absurd (cc h)
  find?-some (x ∷ xs) h = elim (Bool-cases (q x)) [
    | inl e ↦ (x, rw e refl)
    | inr e ↦ rw e (find?-some xs (rw e at h))
  ]
