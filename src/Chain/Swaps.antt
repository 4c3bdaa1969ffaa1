-- ===== src/Chain/Swaps.antt =====
-- What `find_swaps` finds, and what `record_swaps` keeps (src/chain_guard/).
use albedo.Prelude.{
  ◌==◌, ==_refl, Bool-cases, All, All-append, All-map, In, All-In, ℕ, String, ◌≡◌, refl, sym, ap,
  ◌∙◌, ◌↔◌, inl, inr, false, ◌&&◌, not, Option, none, some, List, [], ◌∷◌, ◌++◌, arith, str_eq,
}
use mathlib.Core.Path.{subst}
use albedo.Chain.{SwapEvent, prior_of, swap_of, find_swaps}

abbrev pub Prior : Type 0
Prior = List (ℕ × (String × Option ℕ))

abbrev pub Snapshot : Type 0
Snapshot = List (ℕ × (String × ℕ))

-- The uid is held by another hotkey with the block of registration that it had.
abbrev pub IsSwap : Prior → Snapshot → SwapEvent → Type 0
IsSwap prior current s =
    In (s.uid, (s.new_hotkey, s.registration_block)) current
    × ((prior_of prior s.uid ≡ some (s.old_hotkey, some s.registration_block))
        × (str_eq s.old_hotkey s.new_hotkey ≡ false))

In-append_l : {A : Type 0} (x : A) (xs ys : List A) → In x xs → In x (xs ++ ys)
In-append_l x [] ys m = absurd m
In-append_l x (y ∷ xs) ys (inl same) = inl same
In-append_l x (y ∷ xs) ys (inr m) = inr (In-append_l x xs ys m)

In-append_r : {A : Type 0} (x : A) (xs ys : List A) → In x ys → In x (xs ++ ys)
In-append_r x [] ys m = m
In-append_r x (y ∷ xs) ys m = inr (In-append_r x xs ys m)

swap_of-All :
    (prior : Prior) (uid : ℕ) (hotkey : String) (block : ℕ) (current : Snapshot)
    (o : Option (String × Option ℕ))
    → prior_of prior uid ≡ o
    → All (IsSwap prior ((uid, (hotkey, block)) ∷ current)) (swap_of o uid hotkey block)
unfolding swap_of
swap_of-All prior uid hotkey block current none found = tt
swap_of-All prior uid hotkey block current (some (old, none)) found = tt
swap_of-All prior uid hotkey block current (some (old, some registered)) found =
    elim (Bool-cases (not (str_eq old hotkey) && (block == registered))) [
      | inl hit ↦
          let other : str_eq old hotkey ≡ false = ground (arith, hit) in
          let same : block ≡ registered = ground (arith, hit) in
          rw hit ((inl refl, (found ∙ ap (λ b. some (old, some b)) (sym same), other)), tt)
      | inr miss ↦ rw miss tt
    ]

-- `find_swaps` finds the swaps, and no other.
find_swaps-All :
    (prior : Prior) (current : Snapshot) → All (IsSwap prior current) (find_swaps prior current)
unfolding find_swaps
find_swaps-All prior [] = tt
find_swaps-All prior ((uid, (hotkey, block)) ∷ current) =
    All-append (IsSwap prior ((uid, (hotkey, block)) ∷ current))
      (swap_of (prior_of prior uid) uid hotkey block) (find_swaps prior current)
      (swap_of-All prior uid hotkey block current (prior_of prior uid) refl)
      (All-map (λ (s : SwapEvent) (swap : IsSwap prior current s). (inr swap.0, swap.1))
        (find_swaps prior current) (find_swaps-All prior current))

In-swap_of :
    (o : Option (String × Option ℕ)) (s : SwapEvent)
    → o ≡ some (s.old_hotkey, some s.registration_block)
    → str_eq s.old_hotkey s.new_hotkey ≡ false
    → In s (swap_of o s.uid s.new_hotkey s.registration_block)
unfolding swap_of
In-swap_of o s found other = rw (swap_of, found, other, ==_refl s.registration_block) (inl refl)

In-find_swaps :
    (prior : Prior) (current : Snapshot) (s : SwapEvent)
    → IsSwap prior current s
    → In s (find_swaps prior current)
unfolding find_swaps swap_of
In-find_swaps prior [] s swap = absurd swap.0
In-find_swaps prior ((uid, (hotkey, block)) ∷ current) s (inl same, (found, other)) =
    In-append_l s (swap_of (prior_of prior uid) uid hotkey block) (find_swaps prior current) (
      subst (λ k. In s (swap_of (prior_of prior (k.0)) (k.0) (k.1.0) (k.1.1))) same
        (In-swap_of (prior_of prior s.uid) s found other))
In-find_swaps prior ((uid, (hotkey, block)) ∷ current) s (inr m, rest) =
    In-append_r s (swap_of (prior_of prior uid) uid hotkey block) (find_swaps prior current)
      (In-find_swaps prior current s (m, rest))

-- The events of `find_swaps` are the rows of the snapshot whose uid was held by another hotkey with the
-- same block of registration, each with that hotkey.
pub find_swaps_iff :
    (prior : Prior) (current : Snapshot) (s : SwapEvent)
    → In s (find_swaps prior current) ↔ IsSwap prior current s
find_swaps_iff prior current s = (
  All-In (IsSwap prior current) (find_swaps prior current) (find_swaps-All prior current),
  In-find_swaps prior current s,
)
