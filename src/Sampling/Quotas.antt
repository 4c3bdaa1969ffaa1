-- ===== src/Sampling/Quotas.antt =====
-- `_apportion` and `_family_grid`. A share of the count is the float `count * share / total`; its
-- floor is taken here of the exact quotient, with which it agrees below 2 ** 52, and the order of
-- the fractions, which the rounding of the floats decides where they tie, is a parameter.
use albedo.Prelude.{
  ◌==◌, if◌then◌else◌, length, take, sum_of, All, length-take, length-map, map-All_of, All-take,
  All-map, All-sort_by, update, find?, count, sort_by, length-sort_by, ℕ, ◌+◌, ◌-◌, ◌*◌, ◌/◌, ◌≤◌,
  ◌<◌, String, ◌≡◌, refl, ◌∙◌, Bool, false, Option, none, some, List, [], ◌∷◌, map, arith, str_eq,
}
use native.Mathlib.Nat.{
  le_of_mul-le-mul_left, mul_comm, mul-zero, mul-add, mul-div-le, lt-mul-div-succ, mul-one,
}
use mathlib.Core.Option

unfoldable pub add_one : String → List (String × ℕ) → List (String × ℕ)
add_one name out = update (λ p. str_eq p.0 name) (λ p. (p.0, p.1 + 1)) out

-- for _, (name, _) in order: out[name] += 1
unfoldable pub add_ones : List (String × ℕ) → List (String × ℕ) → List (String × ℕ)
unfolding add_one
add_ones [] out = out
add_ones ((name, _) ∷ order) out = add_ones order (add_one name out)

unfoldable pub floors : List (String × ℕ) → ℕ → ℕ → List (String × ℕ)
floors spec count total = map (λ s. (s.0, count * s.1 / total)) spec

abbrev pub step_trim : List (String × ℕ)
step_trim = ("cold", 65) ∷ ("pre_edit", 15) ∷ ("at_edit", 20) ∷ []

abbrev pub family_mix : List (String × ℕ)
family_mix = ("pr", 50) ∷ ("lm", 15) ∷ ("combine", 10) ∷ ("mechanical", 25) ∷ []

-- out[name], for a dict that has the name
unfoldable pub value_of : String → List (String × ℕ) → ℕ
value_of name out = elim (find? (λ s. str_eq s.0 name) out) [ none ↦ 0 | some (_, n) ↦ n ]

-- Whether `a / total` has the larger fraction than `b / total`: by_fraction total a b.
module _ (by_fraction : ℕ → ℕ → ℕ → Bool) where
  -- The order of `-(exact % 1)`; the index of the source's key is the stability of the sort.
  unfoldable pub by_remainder : ℕ → String × ℕ → String × ℕ → Bool
  by_remainder total a b = by_fraction total a.1 b.1

  unfoldable pub apportion : List (String × ℕ) → ℕ → Option (List (String × ℕ))
  unfolding floors by_remainder add_ones
  apportion spec count =
      let total = sum_of (λ s. s.1) spec in
      if total == 0
      then none
      else (let out = floors spec count total in
          let remainder = count - sum_of (λ s. s.1) out in
          let order = sort_by (by_remainder total) (map (λ s. (s.0, count * s.1)) spec) in
          some (add_ones (take remainder order) out))

  -- The loop of `_family_grid` over the phases.
  unfoldable pub grid_rows :
      List (String × ℕ) → ℕ → List (String × ℕ) → Option (List (String × List (String × ℕ)))
  unfolding apportion value_of
  grid_rows [] cumulative allocated = some []
  grid_rows ((phase, phase_want) ∷ phases) cumulative allocated =
      elim (apportion family_mix (cumulative + phase_want)) [
        | none ↦ none
        | some target ↦
            let row = map (λ s. (s.0, value_of s.0 target - value_of s.0 allocated)) family_mix in
            let allocated' = map (λ s. (s.0, s.1 + value_of s.0 row)) allocated in
            Option.map (λ rows. (phase, row) ∷ rows)
              (grid_rows phases (cumulative + phase_want) allocated')
      ]

  unfoldable pub family_grid : ℕ → List (String × ℕ) → Option (List (String × List (String × ℕ)))
  unfolding grid_rows
  family_grid count trim = elim (apportion trim count) [
    | none ↦ none
    | some phases ↦ grid_rows phases 0 (map (λ s. (s.0, 0)) family_mix)
  ]

-- Every name of the shares stands there once, as it does for the constants of the source.
abbrev pub IsNamed : List (String × ℕ) → Type 0
IsNamed spec = All (λ s. count (λ t. str_eq t.0 s.0) spec ≡ 1) spec

sum_of-add_one :
    (name : String) (out : List (String × ℕ))
    → sum_of (λ s. s.1) (add_one name out)
      ≡ sum_of (λ s. s.1) out + count (λ t. str_eq t.0 name) out
unfolding add_one update count
sum_of-add_one name [] = omega arith
sum_of-add_one name (s ∷ out) = ground (arith, sum_of-add_one name out)

count-add_one :
    (name other : String) (out : List (String × ℕ))
    → count (λ t. str_eq t.0 other) (add_one name out) ≡ count (λ t. str_eq t.0 other) out
unfolding add_one update count
count-add_one name other [] = refl
count-add_one name other (s ∷ out) = ground (arith, count-add_one name other out)

sum_of-add_ones :
    (order out : List (String × ℕ))
    → All (λ s. count (λ t. str_eq t.0 s.0) out ≡ 1) order
    → sum_of (λ s. s.1) (add_ones order out) ≡ sum_of (λ s. s.1) out + length order
unfolding add_ones
sum_of-add_ones [] out h = omega arith
sum_of-add_ones ((name, n) ∷ order) out h = omega (
  arith,
  sum_of-add_ones order (add_one name out) (
      All-map (λ s (e : count (λ t. str_eq t.0 s.0) out ≡ 1). count-add_one name s.0 out ∙ e) order
        h.1),
  sum_of-add_one name out,
  h.0,
)

count-floors :
    (spec : List (String × ℕ)) (n total : ℕ) (name : String)
    → count (λ t. str_eq t.0 name) (floors spec n total) ≡ count (λ t. str_eq t.0 name) spec
unfolding floors count
count-floors [] n total name = refl
count-floors (s ∷ spec) n total name = ground (arith, count-floors spec n total name)

-- The floors fall short of the exact shares by less than one each.
floors-low :
    (spec : List (String × ℕ)) (n total : ℕ)
    → 0 < total
    → total * sum_of (λ s. s.1) (floors spec n total) ≤ n * sum_of (λ s. s.1) spec
unfolding floors
floors-low [] n total h = omega (arith, mul-zero total, mul-zero n)
floors-low (s ∷ spec) n total h = omega (
  arith,
  mul-div-le (n * s.1) total,
  floors-low spec n total h,
  mul-add n s.1 (sum_of (λ t. t.1) spec),
  mul-add total (n * s.1 / total) (sum_of (λ t. t.1) (floors spec n total)),
)

floors-high :
    (spec : List (String × ℕ)) (n total : ℕ)
    → 0 < total
    → n * sum_of (λ s. s.1) spec ≤ total * (sum_of (λ s. s.1) (floors spec n total) + length spec)
unfolding floors
floors-high [] n total h = omega (arith, mul-zero total, mul-zero n)
floors-high (s ∷ spec) n total h = omega (
  arith,
  lt-mul-div-succ (n * s.1) h,
  floors-high spec n total h,
  mul-add n s.1 (sum_of (λ t. t.1) spec),
  mul-add total (n * s.1 / total) 1,
  mul-one total,
  mul-add total (n * s.1 / total + 1) (sum_of (λ t. t.1) (floors spec n total) + length spec),
)

module _ (by_fraction : ℕ → ℕ → ℕ → Bool) where
  -- Whatever order the rounding of the fractions gives, shares under distinct names that are not all
  -- nothing are given the whole count between them.
  pub apportion-whole :
      (spec : List (String × ℕ)) (n : ℕ)
      → IsNamed spec
      → 0 < sum_of (λ s. s.1) spec
      → (quotas : List (String × ℕ)) × (apportion by_fraction spec n ≡ some quotas)
        × (sum_of (λ s. s.1) quotas ≡ n)
  unfolding apportion
  apportion-whole spec n named h =
      let total = sum_of (λ s. s.1) spec in
      let low : sum_of (λ s. s.1) (floors spec n total) ≤ n =
        le_of_mul-le-mul_left (omega (arith, floors-low spec n total h, mul_comm n total)) h in
      let high : n ≤ sum_of (λ s. s.1) (floors spec n total) + length spec =
        le_of_mul-le-mul_left (omega (arith, floors-high spec n total h, mul_comm n total)) h in
      let order = sort_by (by_remainder by_fraction total) (map (λ s. (s.0, n * s.1)) spec) in
      let rest = n - sum_of (λ s. s.1) (floors spec n total) in
      let once : All (λ s. count (λ t. str_eq t.0 s.0) (floors spec n total) ≡ 1) order =
        All-sort_by (by_remainder by_fraction total) _ _ (
          map-All_of _ (λ s. (s.0, n * s.1)) spec
            (All-map
              (λ s (e : count (λ t. str_eq t.0 s.0) spec ≡ 1). count-floors spec n total s.0 ∙ e)
              spec named)) in
      let names : length order ≡ length spec =
        length-sort_by (by_remainder by_fraction total) _ ∙ length-map (λ s. (s.0, n * s.1)) spec in
      let zero_no : (total == 0) ≡ false = ground (arith, h) in
      rw zero_no (
        _,
        refl,
        omega (
          arith,
          sum_of-add_ones (take rest order) (floors spec n total) (
              All-take (λ s. count (λ t. str_eq t.0 s.0) (floors spec n total) ≡ 1) rest order
                once),
          length-take rest order,
          names,
          low,
          high,
        ),
      )
