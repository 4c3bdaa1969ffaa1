-- ===== src/Prelude/Rows.antt =====
-- Lemmas on the queries: where a row that they return comes from, and what an UPDATE changes.
use mathlib.Core.Path.{subst, ◌≡◌, refl, sym, ap, ◌∙◌}
use mathlib.Core.Logic.{◌⊎◌, inl, inr}
use mathlib.Core.Bool.{Bool, true, false}
use mathlib.Core.Option.{some-injective, some, Option, none}
use mathlib.Core.List.{List, [], ◌∷◌, ◌++◌}
use albedo.Prelude.Tests.{Bool-cases, Option-cases}
use albedo.Prelude.Queries.{select, first_by, pick, find?, count, max_of}
use Prim.Native.Nat.{ℕ, ◌+◌, ◌≤◌}
use native.Mathlib.Omega.{arith}
use albedo.Prelude.Lists.{All, All-map}

module _ {A : Type 0} where
  -- `x` is a row of the table.
  abbrev pub In : A → List A → Type 0
  In x [] = ⊥
  In x (y ∷ ys) = (x ≡ y) ⊎ In x ys

  pub In-select : {x : A} (p : A → Bool) (xs : List A) → In x (select p xs) → In x xs × (p x ≡ true)
  unfolding select
  In-select p [] h = absurd h
  In-select p (y ∷ ys) h = elim (Bool-cases (p y)) [
    | inl kept ↦ elim (rw kept at h) [
      | inl e ↦ (inl e, rw e kept)
      | inr later ↦ let (found, passed) = In-select p ys later in (inr found, passed)
    ]
    | inr out ↦ let (found, passed) = In-select p ys (rw out at h) in (inr found, passed)
  ]

  pub select-In : {x : A} (p : A → Bool) (xs : List A) → In x xs → p x ≡ true → In x (select p xs)
  unfolding select
  select-In p [] h e = absurd h
  select-In p (y ∷ ys) (inl same) e = rw (rw same at e) (inl same)
  select-In p (y ∷ ys) (inr later) e = elim (Bool-cases (p y)) [
    | inl kept ↦ rw kept (inr (select-In p ys later e))
    | inr out ↦ rw out (select-In p ys later e)
  ]

  pick_cases :
      (before : A → A → Bool) (x : A) (o : Option A)
      → (pick before x o ≡ x) × ((z : A) → o ≡ some z → before z x ≡ false)
        ⊎ ((y : A) × (o ≡ some y) × (pick before x o ≡ y) × (before y x ≡ true))
  unfolding pick
  pick_cases before x none = inl (refl, λ z e. cc)
  pick_cases before x (some y) = elim (Bool-cases (before y x)) [
    | inl wins ↦ inr (y, refl, rw wins, wins)
    | inr loses ↦ inl (rw loses, λ z e. rw (some-injective _ _ e) at loses)
  ]

  pub first_by-In :
      {x : A} (before : A → A → Bool) (xs : List A) → first_by before xs ≡ some x → In x xs
  unfolding first_by
  first_by-In before [] h = cc
  first_by-In before (y ∷ ys) h = elim (pick_cases before y (first_by before ys)) [
    | inl (e, _) ↦ inl (sym (some-injective _ _ h) ∙ e)
    | inr (z, found, e, _) ↦ inr (first_by-In before ys (found ∙ ap some (sym e) ∙ h))
  ]

  pub find?-In : {x : A} (p : A → Bool) (xs : List A) → find? p xs ≡ some x → In x xs × (p x ≡ true)
  unfolding find?
  find?-In p [] h = cc
  find?-In p (y ∷ ys) h = elim (Bool-cases (p y)) [
    | inl kept ↦ let e = some-injective _ _ (rw kept at h) in (inl (sym e), rw e at kept)
    | inr out ↦ let (found, passed) = find?-In p ys (rw out at h) in (inr found, passed)
  ]

  pub All-In : (P : A → Type 0) {x : A} (xs : List A) → All P xs → In x xs → P x
  All-In P [] h m = absurd m
  All-In P (y ∷ ys) h (inl e) = subst P (sym e) h.0
  All-In P (y ∷ ys) h (inr m) = All-In P ys h.1 m

  pub All-of_In : (P : A → Type 0) (xs : List A) → ((x : A) → In x xs → P x) → All P xs
  All-of_In P [] h = tt
  All-of_In P (y ∷ ys) h = (h y (inl refl), All-of_In P ys (λ x m. h x (inr m)))

  pub count-append : (p : A → Bool) (xs ys : List A) → count p (xs ++ ys) ≡ count p xs + count p ys
  unfolding count
  count-append p [] ys = omega arith
  count-append p (x ∷ xs) ys = ground (arith, count-append p xs ys)

  pub select-append :
      (p : A → Bool) (xs ys : List A) → select p (xs ++ ys) ≡ select p xs ++ select p ys
  unfolding select
  select-append p [] ys = refl
  select-append p (x ∷ xs) ys = ground (arith, select-append p xs ys)

  pub max_of-le : {x : A} (key : A → ℕ) (xs : List A) → In x xs → key x ≤ max_of key xs
  unfolding max_of
  max_of-le key [] h = absurd h
  max_of-le key (y ∷ ys) (inl e) = rw e (omega arith)
  max_of-le key (y ∷ ys) (inr m) = omega (arith, max_of-le key ys m)

  -- A last row that comes before all others is the one that ORDER BY ... LIMIT 1 returns.
  pub first_by_last :
      (before : A → A → Bool) (xs : List A) (z : A)
      → All (λ x. before z x ≡ true) xs
      → first_by before (xs ++ z ∷ []) ≡ some z
  unfolding first_by pick
  first_by_last before [] z h = refl
  first_by_last before (x ∷ xs) z h = rw (first_by_last before xs z h.1) (rw h.0)

  pub select_none : (p : A → Bool) (xs : List A) → All (λ x. p x ≡ false) xs → select p xs ≡ []
  unfolding select
  select_none p [] h = refl
  select_none p (x ∷ xs) h = rw (h.0, select_none p xs h.1)

  pub first_by-none : (before : A → A → Bool) (xs : List A) → first_by before xs ≡ none → xs ≡ []
  unfolding first_by
  first_by-none before [] h = refl
  first_by-none before (x ∷ xs) h = cc

module _ {A : Type 0} (before : A → A → Bool)
    (asym : (a b : A) → before a b ≡ true → before b a ≡ false)
    (trans : (a b c : A) → before a b ≡ false → before b c ≡ false → before a c ≡ false) where
  irreflexive : (a : A) → before a a ≡ false
  irreflexive a = elim (Bool-cases (before a a)) [ inl e ↦ asym a a e | inr e ↦ e ]

  -- What ORDER BY ... LIMIT 1 returns, no row comes before, if the order is a strict weak one.
  pub first_by-first :
      (xs : List A) {x : A} → first_by before xs ≡ some x → All (λ y. before y x ≡ false) xs
  unfolding first_by
  first_by-first [] h = cc
  first_by-first (y ∷ ys) {x} h = elim (pick_cases before y (first_by before ys)) [
    | inl (stays, others) ↦
        let e : y ≡ x = sym stays ∙ some-injective _ _ h in
        let rest : All (λ w. before w y ≡ false) ys = elim (Option-cases (first_by before ys)) [
          | inl nothing ↦ rw (first_by-none before ys nothing) tt
          | inr (z, found) ↦
              All-map (λ w (p : before w z ≡ false). trans w z y p (others z found)) ys
                (first_by-first ys found)
        ] in
        (rw e (irreflexive x), rw e at rest)
    | inr (z, found, e, wins) ↦
        let e' : z ≡ x = sym e ∙ some-injective _ _ h in
        (rw (← e') (asym z y wins), first_by-first ys (found ∙ ap some e'))
  ]

module _ {A : Type 0} (P : A → Type 0) (p : A → Bool) where
  pub select-All : (xs : List A) → All P xs → All P (select p xs)
  unfolding select
  select-All [] h = tt
  select-All (x ∷ xs) h = elim (Bool-cases (p x)) [
    | inl kept ↦ rw kept (h.0, select-All xs h.1)
    | inr out ↦ rw out (select-All xs h.1)
  ]
