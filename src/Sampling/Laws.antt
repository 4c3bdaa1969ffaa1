-- ===== src/Sampling/Laws.antt =====
-- What the loop that selects the samples keeps.
use albedo.Prelude.{
  leb, ◌==◌, Bool-cases, length, All, length-append, All-append, count, ℕ, ◌+◌, ◌≤◌, ◌<◌, String,
  ◌≡◌, refl, ◌∙◌, inl, inr, Bool, true, false, ◌&&◌, ◌||◌, List, [], ◌∷◌, map, arith, str_eq,
  str_eq_iff,
}
use albedo.Sampling.{
  Draw, Entry, is_other_language, is_passed_over, repo_cap, take_entry, turn_idx, visit, visit_pool,
  SampleId,
}

-- An entry that was taken from one repository; one in another language than Python.
abbrev pub taken_from : String → Entry → Bool
taken_from r e = e.used && str_eq r e.repo

abbrev pub taken_other : Entry → Bool
taken_other e = e.used && is_other_language e

abbrev pub is_used : Entry → Bool
is_used e = e.used

-- An entry without its mark.
abbrev pub unmark : Entry → Entry
unmark e = record e { used = false }

-- What `P` says of the samples that an entry can give.
abbrev pub Gives : (SampleId → Type 0) → Entry → Type 0
Gives P e =
    (turn : ℕ)
    → 1 ≤ turn
    → turn < e.asst
    → P (record { shard = e.shard; row = e.row; turn_idx = turn })

-- The marks in the pool and the variables of the loop change together.
pub record Grows {R : Type 0} (es es' : List Entry) (st st' : Draw R) : Type 1 where
  pub picks : length st'.selected + count is_used es ≡ length st.selected + count is_used es'
  pub quota : st'.taken + count is_used es ≡ st.taken + count is_used es'
  pub repos :
      (r : String)
      → st'.repo_counts r + count (taken_from r) es ≡ st.repo_counts r + count (taken_from r) es'
  pub languages :
      st'.other_language_budget + count taken_other es'
      ≡ st.other_language_budget + count taken_other es
  pub caps :
      ((r : String) → st.repo_counts r ≤ repo_cap) → (r : String) → st'.repo_counts r ≤ repo_cap
  pub same : map unmark es' ≡ map unmark es
  pub rows : (P : SampleId → Type 0) → All (Gives P) es → All (Gives P) es'
  pub drawn : (P : SampleId → Type 0) → All (Gives P) es → All P st.selected → All P st'.selected

module _ {R : Type 0} where
  same-Grows : (es : List Entry) (st : Draw R) (rng : R) → Grows es es st (record st { rng = rng })
  same-Grows es st rng = record {
    picks = refl;
    quota = refl;
    repos = λ r. refl;
    languages = refl;
    caps = λ h. h;
    same = refl;
    rows = λ P give. give;
    drawn = λ P give h. h;
  }

  then-Grows :
      {es es' es'' : List Entry} {st st' st'' : Draw R}
      → Grows es es' st st'
      → Grows es' es'' st' st''
      → Grows es es'' st st''
  then-Grows g h = record {
    picks = omega (arith, g.picks, h.picks);
    quota = omega (arith, g.quota, h.quota);
    repos = λ r. omega (arith, g.repos r, h.repos r);
    languages = omega (arith, g.languages, h.languages);
    caps = λ below. h.caps (g.caps below);
    same = h.same ∙ g.same;
    rows = λ P give. h.rows P (g.rows P give);
    drawn = λ P give had. h.drawn P (g.rows P give) (g.drawn P give had);
  }

  cons-Grows :
      {e e' : Entry} {es es' : List Entry} {st st' st'' : Draw R}
      → Grows (e ∷ []) (e' ∷ []) st st'
      → Grows es es' st' st''
      → Grows (e ∷ es) (e' ∷ es') st st''
  unfolding count
  cons-Grows g h = record {
    picks = ground (arith, g.picks, h.picks);
    quota = ground (arith, g.quota, h.quota);
    repos = λ r. ground (arith, g.repos r, h.repos r);
    languages = ground (arith, g.languages, h.languages);
    caps = λ below. h.caps (g.caps below);
    same = cc (g.same, h.same);
    rows = λ P give. ((g.rows P (give.0, tt)).0, h.rows P give.1);
    drawn = λ P give had. h.drawn P give.1 (g.drawn P (give.0, tt) had);
  }

  take_entry-Grows :
      (phase family : String) (turn : ℕ) (rng : R) (e : Entry) (st : Draw R)
      → is_passed_over phase family st e ≡ false
      → 1 ≤ turn
      → turn < e.asst
      → Grows (e ∷ []) (record e { used = true } ∷ []) st (take_entry turn rng e st)
  unfolding count take_entry is_passed_over
  take_entry-Grows phase family turn rng e st h from below_asst = record {
    picks = ground (
      arith,
      length-append st.selected (record { shard = e.shard; row = e.row; turn_idx = turn } ∷ []),
    );
    quota = ground arith;
    repos = λ r. ground arith;
    languages = ground arith;
    caps = λ below r. elim (Bool-cases (str_eq r e.repo)) [
      | inl here ↦
          let room : leb repo_cap (st.repo_counts e.repo) ≡ false = ground arith in
          rw here (rw ((str_eq_iff r e.repo).0 here) (ground arith))
      | inr elsewhere ↦ rw elsewhere (below r)
    ];
    same = refl;
    rows = λ P give. give;
    drawn = λ P give had. All-append P st.selected _ had (give.0 turn from below_asst, tt);
  }

module _ {R : Type 0} (flip : R → Bool × R) (phase family : String) (want : ℕ) where
  turn_idx-positive : (e : Entry) (rng : R) → 1 ≤ (turn_idx flip phase e rng).0
  unfolding turn_idx
  turn_idx-positive e rng = ground arith

  visit-Grows :
      (e : Entry) (st : Draw R)
      → Grows
          (e ∷ [])
          ((visit flip phase family want e st).0 ∷ [])
          st
          (visit flip phase family want e st).1
  unfolding visit
  visit-Grows e st = elim (Bool-cases ((st.taken == want) || is_passed_over phase family st e)) [
    | inl out ↦ rw out (same-Grows (e ∷ []) st st.rng)
    | inr fits ↦ rw fits (elim (Bool-cases (leb e.asst (turn_idx flip phase e st.rng).0)) [
      | inl short ↦ rw short (same-Grows (e ∷ []) st _)
      | inr long ↦ rw long (
          take_entry-Grows phase family _ _ e st (ground arith) (turn_idx-positive e st.rng)
            (ground arith))
    ])
  ]

  pub visit_pool-Grows :
      (es : List Entry) (st : Draw R)
      → Grows es
          (visit_pool flip phase family want es st).0
          st
          (visit_pool flip phase family want es st).1
  unfolding visit_pool
  visit_pool-Grows [] st = same-Grows [] st st.rng
  visit_pool-Grows (e ∷ es) st =
      cons-Grows (visit-Grows e st) (visit_pool-Grows es (visit flip phase family want e st).1)

  visit-taken :
      (e : Entry) (st : Draw R)
      → st.taken ≤ want
      → (visit flip phase family want e st).1.taken ≤ want
  unfolding visit take_entry
  visit-taken e st h = ground arith

  -- The loop never takes more than is wanted.
  pub visit_pool-taken :
      (es : List Entry) (st : Draw R)
      → st.taken ≤ want
      → (visit_pool flip phase family want es st).1.taken ≤ want
  unfolding visit_pool
  visit_pool-taken [] st h = h
  visit_pool-taken (e ∷ es) st h =
      visit_pool-taken es (visit flip phase family want e st).1 (visit-taken e st h)
