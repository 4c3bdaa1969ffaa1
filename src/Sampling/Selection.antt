-- ===== src/Sampling/Selection.antt =====
-- What the selection of the samples promises.
use albedo.Prelude.{
  ltb, Bool-cases, length, sum_of, All, count, first_value, ok-injective, In, All-of_In, ok, err, ℕ,
  ◌+◌, ◌≤◌, ◌<◌, String, ◌≡◌, refl, ◌∙◌, inl, inr, Bool, ◌&&◌, List, [], ◌∷◌, map, arith, str_eq,
}
use albedo.Sampling.{
  Draw, Entry, SampleId, fill, fill_grid, fill_row, repo_cap, visit_pool, select_samples,
  is_other_language,
}
use albedo.Sampling.Laws.{
  Gives, is_used, taken_from, taken_other, visit_pool-Grows, visit_pool-taken, Grows, unmark,
}

-- `n` entries more are marked, and as many samples are selected.
pub record Fills {R : Type 0} (n : ℕ) (s s' : List Entry × Draw R) : Type 1 where
  picks : length s'.1.selected ≡ length s.1.selected + n
  marks : count is_used s'.0 ≡ count is_used s.0 + n
  pub repos :
      (r : String)
      → s'.1.repo_counts r + count (taken_from r) s.0
        ≡ s.1.repo_counts r + count (taken_from r) s'.0
  pub languages :
      s'.1.other_language_budget + count taken_other s'.0
      ≡ s.1.other_language_budget + count taken_other s.0
  caps :
      ((r : String) → s.1.repo_counts r ≤ repo_cap) → (r : String) → s'.1.repo_counts r ≤ repo_cap
  pub same : map unmark s'.0 ≡ map unmark s.0
  rows : (P : SampleId → Type 0) → All (Gives P) s.0 → All (Gives P) s'.0
  drawn : (P : SampleId → Type 0) → All (Gives P) s.0 → All P s.1.selected → All P s'.1.selected

-- The entries that the strata ask for.
abbrev pub wanted : List (String × List (String × ℕ)) → ℕ
wanted grid = sum_of (λ row. sum_of (λ w. w.1) row.1) grid

module _ {R : Type 0} where
  none-Fills : (s : List Entry × Draw R) → Fills 0 s s
  none-Fills s = record {
    picks = omega arith;
    marks = omega arith;
    repos = λ r. refl;
    languages = refl;
    caps = λ h. h;
    same = refl;
    rows = λ P give. give;
    drawn = λ P give had. had;
  }

  then-Fills :
      {m n : ℕ} {s s' s'' : List Entry × Draw R}
      → Fills m s s'
      → Fills n s' s''
      → Fills (m + n) s s''
  then-Fills f g = record {
    picks = omega (arith, f.picks, g.picks);
    marks = omega (arith, f.marks, g.marks);
    repos = λ r. omega (arith, f.repos r, g.repos r);
    languages = omega (arith, f.languages, g.languages);
    caps = λ below. g.caps (f.caps below);
    same = g.same ∙ f.same;
    rows = λ P give. g.rows P (f.rows P give);
    drawn = λ P give had. g.drawn P (f.rows P give) (f.drawn P give had);
  }

  Grows-Fills :
      (want : ℕ) (pool pool' : List Entry) (st st' : Draw R)
      → Grows pool pool' (record st { taken = 0 }) st'
      → st'.taken ≡ want
      → Fills want (pool, st) (pool', st')
  Grows-Fills want pool pool' st st' g full = record {
    picks = omega (arith, g.picks, g.quota, full);
    marks = omega (arith, g.quota, full);
    repos = g.repos;
    languages = g.languages;
    caps = g.caps;
    same = g.same;
    rows = g.rows;
    drawn = g.drawn;
  }

module _ {R : Type 0} (flip : R → Bool × R) where
  pub fill-Fills :
      (phase : String) (w : String × ℕ) (s s' : List Entry × Draw R)
      → fill flip phase w s ≡ ok s'
      → Fills w.1 s s'
  unfolding fill
  fill-Fills phase (family, want) (pool, st) s' e =
      let start = record st { taken = 0 } in
      let g = visit_pool-Grows flip phase family want pool start in
      let most = visit_pool-taken flip phase family want pool start (omega arith) in
      elim (Bool-cases (ltb (visit_pool flip phase family want pool start).1.taken want)) [
        | inl few ↦ let wrong : err _ ≡ ok s' = rw (fill, few) at e in cc
        | inr full ↦
            let same : visit_pool flip phase family want pool start ≡ s' =
              ok-injective (rw (fill, full) at e) in
            rw (← same) (Grows-Fills want pool _ st _ g (ground arith))
      ]

  pub fill_row-Fills :
      (phase : String) (wants : List (String × ℕ)) (s s' : List Entry × Draw R)
      → fill_row flip phase wants s ≡ ok s'
      → Fills (sum_of (λ w. w.1) wants) s s'
  unfolding fill_row
  fill_row-Fills phase [] s s' e = rw (ok-injective e) (none-Fills s')
  fill_row-Fills phase (w ∷ wants) s s' e =
      let (mid, first, rest) = first_value (fill flip phase w s) (fill_row flip phase wants) e in
      then-Fills (fill-Fills phase w s mid first) (fill_row-Fills phase wants mid s' rest)

  pub fill_grid-Fills :
      (grid : List (String × List (String × ℕ))) (s s' : List Entry × Draw R)
      → fill_grid flip grid s ≡ ok s'
      → Fills (wanted grid) s s'
  unfolding fill_grid
  fill_grid-Fills [] s s' e = rw (ok-injective e) (none-Fills s')
  fill_grid-Fills ((phase, wants) ∷ grid) s s' e =
      let (mid, first, rest) = first_value (fill_row flip phase wants s) (fill_grid flip grid) e in
      then-Fills (fill_row-Fills phase wants s mid first) (fill_grid-Fills grid mid s' rest)

-- A sample is a turn of an entry of the pool, before the end of the entry's conversation.
abbrev pub IsDrawn : List Entry → SampleId → Type 0
IsDrawn pool id =
    (e : Entry) × In e pool
    × (id.shard ≡ e.shard)
    × (id.row ≡ e.row)
    × (1 ≤ id.turn_idx)
    × (id.turn_idx < e.asst)

-- `ids` are as many as wanted, and the entries that were taken for them keep the caps.
pub record IsSelection (pool : List Entry) (want budget : ℕ) (ids : List SampleId) : Type 0 where
  -- the pool, but for its marks
  pub marked : List Entry
  pub same : map unmark marked ≡ map unmark pool
  pub full : length ids ≡ want
  pub once : count is_used marked ≡ want
  pub repos : (r : String) → count (taken_from r) marked ≤ repo_cap
  pub languages : count taken_other marked ≤ budget
  pub drawn : All (IsDrawn pool) ids

pub count_used-le :
    (q : Entry → Bool) (es : List Entry) → count (λ e. e.used && q e) es ≤ count is_used es
unfolding count
count_used-le q [] = omega arith
count_used-le q (e ∷ es) = ground (arith, count_used-le q es)

-- If the pool is unmarked and the loops end without an error, there is a sample for each entry that the
-- strata ask for; as many entries of the pool were taken, each once, at most two from a repository and
-- at most `budget` in another language than Python; and every sample is a turn of an entry of the
-- pool, before the end of the entry's conversation.
pub select_samples-IsSelection :
    {R : Type 0} (flip : R → Bool × R) (grid : List (String × List (String × ℕ))) (budget : ℕ)
    (pool : List Entry) (rng : R) (ids : List SampleId)
    → count is_used pool ≡ 0
    → select_samples flip grid budget pool rng ≡ ok ids
    → IsSelection pool (wanted grid) budget ids
unfolding select_samples
select_samples-IsSelection flip grid budget pool rng ids fresh e =
    let (s, filled, ends) = first_value (fill_grid flip grid _) (λ s. ok s.1.selected) e in
    let f = fill_grid-Fills flip grid _ s filled in
    let same : s.1.selected ≡ ids = ok-injective ends in
    let gives : All (Gives (IsDrawn pool)) pool =
      All-of_In (Gives (IsDrawn pool)) pool
        (λ x row turn from below. (x, row, refl, refl, from, below)) in
    record {
      marked = s.0;
      same = f.same;
      full = rw (← same) (omega (arith, f.picks));
      once = omega (arith, f.marks, fresh);
      repos = λ r. omega (
        arith,
        f.repos r,
        f.caps (λ q. omega arith) r,
        count_used-le (λ e. str_eq r e.repo) pool,
        fresh,
      );
      languages = omega (arith, f.languages, count_used-le is_other_language pool, fresh);
      drawn = rw (← same) (f.drawn (IsDrawn pool) gives tt);
    }
