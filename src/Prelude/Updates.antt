-- ===== src/Prelude/Updates.antt =====
-- What an UPDATE does to a table, and to the keys of its rows.
use Prim.Native.Nat.{ℕ, suc}
use mathlib.Core.Path.{◌≡◌, refl, sym, ap, ◌∙◌}
use mathlib.Core.Logic.{◌≢◌, inl, inr}
use mathlib.Core.Bool.{Bool, true, false}
use mathlib.Core.List.{List, [], ◌∷◌, ◌++◌}
use native.Mathlib.Omega.{arith}
use albedo.Prelude.Tests.{◌==◌, if◌then◌else◌, ==_refl, ==_ne, Bool-cases}
use albedo.Prelude.Lists.{All, All-append, All-map}
use albedo.Prelude.Queries.{update, any, count}
use albedo.Prelude.Rows.{In, All-In}

module _ {A : Type 0} where
  -- The column `key` holds no value twice, as a primary key.
  abbrev pub IsKeyed : {K : Type 0} → (A → K) → List A → Type 0
  IsKeyed key [] = Unit
  IsKeyed key (x ∷ xs) = All (λ y. key y ≢ key x) xs × IsKeyed key xs

  -- An UPDATE of no row changes nothing.
  pub update_none :
      (p : A → Bool) (f : A → A) (xs : List A) → All (λ x. p x ≡ false) xs → update p f xs ≡ xs
  unfolding update
  update_none p f [] h = refl
  update_none p f (x ∷ xs) h = rw (h.0, update_none p f xs h.1)

  -- A row under the WHERE of an UPDATE is there as the UPDATE makes it.
  pub In-update :
      {x : A} (p : A → Bool) (f : A → A) (xs : List A)
      → In x xs
      → p x ≡ true
      → In (f x) (update p f xs)
  unfolding update
  In-update p f [] m e = absurd m
  In-update p f (y ∷ ys) (inl same) e = rw (← same, e) (inl refl)
  In-update p f (y ∷ ys) (inr later) e = inr (In-update p f ys later e)

  pub any-In : {x : A} (p : A → Bool) (xs : List A) → In x xs → p x ≡ true → any p xs ≡ true
  unfolding any
  any-In p [] m e = absurd m
  any-In p (y ∷ ys) (inl same) e = rw (← same, e) refl
  any-In p (y ∷ ys) (inr later) e = ground (arith, any-In p ys later e)

  -- An UPDATE by the key of one row counts one row less where that row alone stops to pass.
  pub count-update_key :
      {x : A} (p : A → Bool) (key : A → ℕ) (k : ℕ) (f : A → A) (xs : List A)
      → ((y : A) → p (f y) ≡ false)
      → IsKeyed key xs
      → In x xs
      → key x ≡ k
      → p x ≡ true
      → suc (count p (update (λ y. key y == k) f xs)) ≡ count p xs
  unfolding count update
  count-update_key p key k f [] clears keyed m named e = absurd m
  count-update_key {x} p key k f (y ∷ ys) clears keyed (inl same) named e =
      let here : key y ≡ k = sym (ap key same) ∙ named in
      let hit : p y ≡ true = ap p (sym same) ∙ e in
      let rest : update (λ z. key z == k) f ys ≡ ys =
        update_none (λ z. key z == k) f ys
          (All-map (λ (z : A) (other : key z ≢ key y). ==_ne (key z) k (λ q. other (q ∙ sym here)))
            ys keyed.0) in
      rw (here, ==_refl k, clears y, hit, rest)
  count-update_key {x} p key k f (y ∷ ys) clears keyed (inr m) named e =
      let other : key y ≢ k = λ q. All-In (λ z. key z ≢ key y) ys keyed.0 m (named ∙ sym q) in
      let rest = count-update_key p key k f ys clears keyed.1 m named e in
      rw (==_ne (key y) k other) (ground (arith, rest))

  pub All-update :
      (P : A → Type 0) (p : A → Bool) (f : A → A) (xs : List A)
      → ((x : A) → P x → P (f x))
      → All P xs
      → All P (update p f xs)
  unfolding update
  All-update P p f [] keep h = tt
  All-update P p f (x ∷ xs) keep h = elim (Bool-cases (p x)) [
    | inl hit ↦ rw hit (keep x h.0, All-update P p f xs keep h.1)
    | inr miss ↦ rw miss (h.0, All-update P p f xs keep h.1)
  ]

  -- What an UPDATE sets holds of the rows that its WHERE is about.
  pub update-All :
      (P : A → Type 0) (p : A → Bool) (f : A → A) (xs : List A)
      → ((x : A) → p x ≡ true → P (f x))
      → ((x : A) → p x ≡ false → P x)
      → All P (update p f xs)
  unfolding update
  update-All P p f [] done left = tt
  update-All P p f (x ∷ xs) done left = elim (Bool-cases (p x)) [
    | inl hit ↦ rw hit (done x hit, update-All P p f xs done left)
    | inr miss ↦ rw miss (left x miss, update-All P p f xs done left)
  ]

  -- An UPDATE that leaves the key alone, and an INSERT under a new key, keep the keys distinct.
  pub update-IsKeyed :
      {K : Type 0} (key : A → K) (p : A → Bool) (f : A → A) (xs : List A)
      → ((x : A) → key (f x) ≡ key x)
      → IsKeyed key xs
      → IsKeyed key (update p f xs)
  unfolding update
  update-IsKeyed key p f [] same h = tt
  update-IsKeyed key p f (x ∷ xs) same h = (
    All-update (λ y. key y ≢ key (if p x then f x else x)) p f xs
        (λ y other. ground (arith, other, same y))
        (All-map (λ (y : A) (other : key y ≢ key x). ground (arith, other, same x)) xs h.0),
    update-IsKeyed key p f xs same h.1,
  )

  pub append-IsKeyed :
      {K : Type 0} (key : A → K) (xs : List A) (z : A)
      → IsKeyed key xs
      → All (λ y. key y ≢ key z) xs
      → IsKeyed key (xs ++ z ∷ [])
  append-IsKeyed key [] z h other = (tt, tt)
  append-IsKeyed key (x ∷ xs) z h other = (
    All-append (λ y. key y ≢ key x) xs (z ∷ []) h.0 ((λ e. other.0 (sym e)), tt),
    append-IsKeyed key xs z h.1 other.1,
  )

module _ {A : Type 0} (p : A → Bool) (f g : A → A) where
  -- Two UPDATEs under one WHERE are one, if the first keeps its rows under it.
  pub update-update :
      (xs : List A)
      → ((x : A) → p (f x) ≡ p x)
      → update p g (update p f xs) ≡ update p (λ x. g (f x)) xs
  unfolding update
  update-update [] same = refl
  update-update (x ∷ xs) same = elim (Bool-cases (p x)) [
    | inl hit ↦ rw (hit, same x, hit, update-update xs same)
    | inr miss ↦ rw (miss, miss, update-update xs same)
  ]

module _ {A K : Type 0} (key : A → K) where
  -- Two rows with one key are one row.
  pub keyed_unique :
      {x y : A} (xs : List A) → IsKeyed key xs → In x xs → In y xs → key x ≡ key y → x ≡ y
  keyed_unique [] keyed m n e = absurd m
  keyed_unique (z ∷ zs) keyed (inl same) (inl same') e = same ∙ sym same'
  keyed_unique (z ∷ zs) keyed (inl same) (inr n) e =
      absurd (All-In (λ y. key y ≢ key z) zs keyed.0 n (sym e ∙ ap key same))
  keyed_unique (z ∷ zs) keyed (inr m) (inl same) e =
      absurd (All-In (λ y. key y ≢ key z) zs keyed.0 m (e ∙ ap key same))
  keyed_unique (z ∷ zs) keyed (inr m) (inr n) e = keyed_unique zs keyed.1 m n e

module _ {A : Type 0} where
  -- An UPDATE keeps what its SET keeps of the rows that are there.
  pub All-update-In :
      (P : A → Type 0) (p : A → Bool) (f : A → A) (xs : List A)
      → ((x : A) → In x xs → p x ≡ true → P x → P (f x))
      → All P xs
      → All P (update p f xs)
  unfolding update
  All-update-In P p f [] keep h = tt
  All-update-In P p f (x ∷ xs) keep h =
      let rest = All-update-In P p f xs (λ y m. keep y (inr m)) h.1 in
      elim (Bool-cases (p x)) [
        | inl hit ↦ rw hit (keep x (inl refl) hit h.0, rest)
        | inr miss ↦ rw miss (h.0, rest)
      ]
