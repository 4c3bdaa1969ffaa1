-- ===== src/Sampling/Feasible.antt =====
-- What the loop over the pool leaves where a stratum stays short: no entry that it could take.
use albedo.Prelude.{
  leb, ◌==◌, leb→le, Bool-cases, All, ℕ, ◌≤◌, ◌<◌, String, ◌≡◌, refl, ◌⊎◌, inl, inr, Bool, true,
  ◌||◌, List, [], ◌∷◌, arith,
}
use albedo.Sampling.{Draw, Entry, is_passed_over, take_entry, turn_idx, visit, visit_pool}

-- The caps have only become tighter.
pub record Tighter {R : Type 0} (st st' : Draw R) : Type 0 where
  counts : (r : String) → st.repo_counts r ≤ st'.repo_counts r
  budget : st'.other_language_budget ≤ st.other_language_budget
  taken : st.taken ≤ st'.taken

-- An entry that the stratum cannot take: one of its tests fails, or the conversation is too short for the
-- turn that is drawn.
abbrev pub IsUnfit : {R : Type 0} → (R → Bool × R) → String → String → Draw R → Entry → Type 0
IsUnfit {R} flip phase family st e =
    (is_passed_over phase family st e ≡ true)
    ⊎ ((rng : R) × (e.asst ≤ (turn_idx flip phase e rng).0))

module _ {R : Type 0} where
  then-Tighter : {st st' st'' : Draw R} → Tighter st st' → Tighter st' st'' → Tighter st st''
  then-Tighter f g = record {
    counts = λ r. omega (arith, f.counts r, g.counts r);
    budget = omega (arith, f.budget, g.budget);
    taken = omega (arith, f.taken, g.taken);
  }

  same-Tighter : (st : Draw R) (rng : R) → Tighter st (record st { rng = rng })
  same-Tighter st rng = record {
    counts = λ r. omega arith;
    budget = omega arith;
    taken = omega arith;
  }

  Tighter-IsUnfit :
      (flip : R → Bool × R) (phase family : String) (st st' : Draw R) (e : Entry)
      → Tighter st st'
      → IsUnfit flip phase family st e
      → IsUnfit flip phase family st' e
  unfolding is_passed_over
  Tighter-IsUnfit flip phase family st st' e t (inr short) = inr short
  Tighter-IsUnfit flip phase family st st' e t (inl out) =
      inl (ground (arith, out, t.counts e.repo, t.budget))

module _ {R : Type 0} (flip : R → Bool × R) (phase family : String) (want : ℕ) where
  take_entry-Tighter :
      (turn : ℕ) (rng : R) (e : Entry) (st : Draw R) → Tighter st (take_entry turn rng e st)
  unfolding take_entry
  take_entry-Tighter turn rng e st = record {
    counts = λ r. ground arith;
    budget = ground arith;
    taken = omega arith;
  }

  visit_lem :
      (e : Entry) (st : Draw R)
      → Tighter st (visit flip phase family want e st).1
        × ((visit flip phase family want e st).1.taken < want
            → IsUnfit flip phase family
                (visit flip phase family want e st).1
                (visit flip phase family want e st).0)
  unfolding visit is_passed_over
  visit_lem e st = elim (Bool-cases ((st.taken == want) || is_passed_over phase family st e)) [
    | inl out ↦ rw out (
      same-Tighter st st.rng,
      λ few.
          let over : is_passed_over phase family st e ≡ true = ground (arith, out, few) in inl over,
    )
    | inr fits ↦ rw fits (elim (Bool-cases (leb e.asst (turn_idx flip phase e st.rng).0)) [
      | inl short ↦ rw short (same-Tighter st _, λ few. inr (st.rng, leb→le _ _ short))
      | inr long ↦ rw long (take_entry-Tighter _ _ e st, λ few. inl refl)
    ])
  ]

  pub visit_pool_lem :
      (es : List Entry) (st : Draw R)
      → Tighter st (visit_pool flip phase family want es st).1
        × ((visit_pool flip phase family want es st).1.taken < want
            → All
                (IsUnfit flip phase family (visit_pool flip phase family want es st).1)
                (visit_pool flip phase family want es st).0)
  unfolding visit_pool
  visit_pool_lem [] st = (same-Tighter st st.rng, λ few. tt)
  visit_pool_lem (e ∷ es) st =
      let (first, unfit) = visit_lem e st in
      let (rest, unfits) = visit_pool_lem es (visit flip phase family want e st).1 in
      (
        then-Tighter first rest,
        λ few. (
          Tighter-IsUnfit flip phase family (visit flip phase family want e st).1 _
              (visit flip phase family want e st).0 rest (unfit (omega (arith, rest.taken, few))),
          unfits few,
        ),
      )
