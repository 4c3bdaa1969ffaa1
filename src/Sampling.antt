-- ===== src/Sampling.antt =====
-- The choice of the evaluation's samples (src/albedo_eval_service/shared/sampling.py): the quotas of
-- `_family_grid`, and the loop of `multi_source_manifest_sample_ids` that fills them from a pool.
pub mod Laws
pub mod Selection
pub mod Quotas
pub mod Tests
pub mod Manifest
pub mod Feasible
pub mod Stuck
use albedo.Prelude.{
  ltb, leb, ◌==◌, if◌then◌else◌, Result, ◌>>=◌, ok, err, ℕ, ◌+◌, ◌-◌, max, String, Bool, true, ◌&&◌,
  ◌||◌, not, List, [], ◌∷◌, ◌++◌, str_eq,
}

-- One row of a dataset. The counts of a manifest are natural numbers.
pub record Entry : Type 0 where
  pub asst : ℕ
  pub first_edit : ℕ
  pub family : String
  pub repo : String
  pub language : String
  pub chars_at : ℕ
  pub chars_pre : ℕ
  pub shard : String
  pub row : ℕ
  pub used : Bool

-- f"{shard}:{row}:{turn_idx}", before it is put into a string.
pub record SampleId : Type 0 where
  pub shard : String
  pub row : ℕ
  pub turn_idx : ℕ

abbrev pub repo_cap : ℕ
repo_cap = 2

abbrev pub max_prefix_chars : ℕ
max_prefix_chars = 54000

unfoldable pub prefix_chars : String → Entry → ℕ
prefix_chars phase e =
    if str_eq phase "cold" then 0 else if str_eq phase "at_edit" then e.chars_at else e.chars_pre

-- entry["language"] != BENCHMARK_LANGUAGE
unfoldable pub is_other_language : Entry → Bool
is_other_language e = not (str_eq e.language "python")

-- The variables of the loops, over the state `R` of `random.Random`. `repo_counts` is a defaultdict.
pub record Draw (R : Type 0) : Type 0 where
  pub taken : ℕ
  pub other_language_budget : ℕ
  pub repo_counts : String → ℕ
  pub rng : R
  pub selected : List SampleId

-- What stops the loop: a stratum with the number of its entries that were feasible.
pub record Infeasible : Type 0 where
  pub phase : String
  pub family : String
  pub want : ℕ
  pub taken : ℕ

-- The tests of the loop that come before the turn is drawn.
unfoldable pub is_passed_over : {R : Type 0} → String → String → Draw R → Entry → Bool
unfolding prefix_chars is_other_language
is_passed_over phase family st e =
    e.used
    || not (str_eq e.family family)
    || leb repo_cap (st.repo_counts e.repo)
    || ltb max_prefix_chars (prefix_chars phase e)
    || (is_other_language e && (st.other_language_budget == 0))

-- The end of the loop's body, which takes the entry.
unfoldable pub take_entry : {R : Type 0} → ℕ → R → Entry → Draw R → Draw R
unfolding is_other_language
take_entry turn_idx rng e st = record {
  taken = st.taken + 1;
  other_language_budget = st.other_language_budget - (if is_other_language e then 1 else 0);
  repo_counts = λ r. if str_eq r e.repo then st.repo_counts r + 1 else st.repo_counts r;
  rng = rng;
  selected = st.selected ++ record { shard = e.shard; row = e.row; turn_idx = turn_idx } ∷ [];
}

-- `flip` is `rng.choice((1, 2)) == 1`, with the state that it leaves.
module _ {R : Type 0} (flip : R → Bool × R) where
  unfoldable pub turn_idx : String → Entry → R → ℕ × R
  turn_idx phase e rng =
      if str_eq phase "cold"
      then (let (first, rng') = flip rng in (if first then 1 else 2, rng'))
      else if e.first_edit == 0
      then (1, rng)
      else if str_eq phase "pre_edit"
      then (max 1 (e.first_edit - 2), rng)
      else (e.first_edit, rng)

  -- The body of the loop over the pool. Once `taken` is `want` the source leaves the loop; the
  -- entries that are left are not changed here either.
  unfoldable pub visit : String → String → ℕ → Entry → Draw R → Entry × Draw R
  unfolding is_passed_over turn_idx take_entry
  visit phase family want e st =
      if (st.taken == want) || is_passed_over phase family st e
      then (e, st)
      else (let (turn, rng) = turn_idx phase e st.rng in
          if leb e.asst turn
          then (e, record st { rng = rng })
          else (record e { used = true }, take_entry turn rng e st))

  unfoldable pub visit_pool : String → String → ℕ → List Entry → Draw R → List Entry × Draw R
  unfolding visit
  visit_pool phase family want [] st = ([], st)
  visit_pool phase family want (e ∷ es) st =
      let (e', st') = visit phase family want e st in
      let (es', st'') = visit_pool phase family want es st' in (e' ∷ es', st'')

  -- One stratum: `want` entries of a family for a phase, or the ValueError.
  unfoldable pub fill :
      String → String × ℕ → List Entry × Draw R → Result Infeasible (List Entry × Draw R)
  unfolding visit_pool
  fill phase (family, want) (pool, st) =
      let (pool', st') = visit_pool phase family want pool (record st { taken = 0 }) in
      if ltb st'.taken want
      then err (record { phase = phase; family = family; want = want; taken = st'.taken })
      else ok (pool', st')

  unfoldable pub fill_row :
      String → List (String × ℕ) → List Entry × Draw R → Result Infeasible (List Entry × Draw R)
  fill_row phase [] s = ok s
  fill_row phase (w ∷ wants) s = fill phase w s >>= fill_row phase wants

  unfoldable pub fill_grid :
      List (String × List (String × ℕ))
      → List Entry × Draw R
      → Result Infeasible (List Entry × Draw R)
  fill_grid [] s = ok s
  fill_grid ((phase, wants) ∷ grid) s = fill_row phase wants s >>= fill_grid grid

  -- The loops as a whole, from a fresh pool. `budget` is round(sample_count * 0.30).
  unfoldable pub select_samples :
      List (String × List (String × ℕ)) → ℕ → List Entry → R → Result Infeasible (List SampleId)
  unfolding fill_grid
  select_samples grid budget pool rng =
      fill_grid grid (
        pool,
        record {
          taken = 0;
          other_language_budget = budget;
          repo_counts = λ r. 0;
          rng = rng;
          selected = [];
        },
      )
      >>= λ s. ok s.1.selected
