-- ===== src/Sampling/Stuck.antt =====
-- When the selection gives up: which stratum stopped it, and that no entry of the pool was left that the
-- stratum could take.
use albedo.Prelude.{
  ltb, leb, ◌==◌, ltb→lt, leb→le, Bool-cases, All, All-map, count, first_fault, err-injective, ok,
  err, ℕ, ◌+◌, ◌≤◌, ◌<◌, String, ◌≡◌, refl, sym, ap, ◌∙◌, ◌⊎◌, inl, inr, Bool, true, false, ◌&&◌,
  List, [], ◌∷◌, ◌++◌, arith, str_eq,
}
use albedo.Sampling.Laws.{is_used, taken_from, taken_other, visit_pool-Grows}
use albedo.Sampling.{
  Draw, Entry, Infeasible, fill, fill_grid, fill_row, is_other_language, is_passed_over,
  max_prefix_chars, prefix_chars, select_samples, turn_idx, visit_pool,
}
use albedo.Sampling.Feasible.{IsUnfit, visit_pool_lem}
use albedo.Sampling.Selection.{count_used-le, fill_grid-Fills}
use albedo.Private.Again.{later}

abbrev pub Grid : Type 0
Grid = List (String × List (String × ℕ))

-- Why an entry cannot be taken, by the marks in the pool: it is taken, of another family, of a
-- repository that gave two entries, too long, in another language while the budget is spent, or too
-- short for a turn that is drawn.
abbrev pub IsRefused :
    {R : Type 0} → (R → Bool × R) → String → String → ℕ → List Entry → Entry → Type 0
IsRefused {R} flip phase family budget left e =
    (e.used ≡ true)
    ⊎ (str_eq e.family family ≡ false)
    ⊎ (2 ≤ count (taken_from e.repo) left)
    ⊎ (54000 < prefix_chars phase e)
    ⊎ ((is_other_language e ≡ true) × (budget ≤ count taken_other left))
    ⊎ ((rng : R) × (e.asst ≤ (turn_idx flip phase e rng).0))

-- The loop over the strata came to the stratum, whose loop over the pool took too few.
pub record StuckAt {R : Type 0} (flip : R → Bool × R) (grid : Grid) (s : List Entry × Draw R)
    (x : Infeasible) : Type 0 where
  pub before : Grid
  pub firsts : List (String × ℕ)
  pub rest : List (String × ℕ)
  pub after : Grid
  pub split : grid ≡ before ++ (x.phase, firsts ++ (x.family, x.want) ∷ rest) ∷ after
  pub here : List Entry × Draw R
  pub reached : fill_grid flip (before ++ (x.phase, firsts) ∷ []) s ≡ ok here
  pub taken :
      (visit_pool flip x.phase x.family x.want (here.0) (record here.1 { taken = 0 })).1.taken
      ≡ x.taken
  pub few : x.taken < x.want

record RowStuck {R : Type 0} (flip : R → Bool × R) (wants : List (String × ℕ))
    (s : List Entry × Draw R) (x : Infeasible) : Type 0 where
  firsts : List (String × ℕ)
  rest : List (String × ℕ)
  split : wants ≡ firsts ++ (x.family, x.want) ∷ rest
  here : List Entry × Draw R
  reached : fill_row flip x.phase firsts s ≡ ok here
  taken :
      (visit_pool flip x.phase x.family x.want (here.0) (record here.1 { taken = 0 })).1.taken
      ≡ x.taken
  few : x.taken < x.want

module _ {R : Type 0} (flip : R → Bool × R) where
  fill-stops :
      (phase : String) (w : String × ℕ) (s : List Entry × Draw R) (x : Infeasible)
      → fill flip phase w s ≡ err x
      → (x.phase ≡ phase)
        × ((x.family, x.want) ≡ w)
        × (x.taken < x.want)
        × ((visit_pool flip x.phase x.family x.want (s.0) (record s.1 { taken = 0 })).1.taken
            ≡ x.taken)
  unfolding fill
  fill-stops phase (family, want) (pool, st) x e =
      let end = visit_pool flip phase family want pool (record st { taken = 0 }) in
      elim (Bool-cases (ltb end.1.taken want)) [
        | inr full ↦ let clash : ok _ ≡ err x = rw (fill, full) at e in cc
        | inl few ↦
            let same : ◌≡◌ {A = Infeasible}
                (record { phase = phase; family = family; want = want; taken = end.1.taken }) x =
              err-injective (rw (fill, few) at e) in
            rw (← same) (refl, refl, ltb→lt _ _ few, refl)
      ]

  fill_row-stops :
      (phase : String) (wants : List (String × ℕ)) (s : List Entry × Draw R) (x : Infeasible)
      → fill_row flip phase wants s ≡ err x
      → (x.phase ≡ phase) × RowStuck flip wants s x
  unfolding fill_row
  fill_row-stops phase [] s x e = cc
  fill_row-stops phase (w ∷ wants) s x e =
      elim (first_fault (fill flip phase w s) (fill_row flip phase wants) e) [
        | inl now ↦
            let (named, stratum, few, taken) = fill-stops phase w s x now in
            (
              named,
              record {
                firsts = [];
                rest = wants;
                split = ap (λ k. k ∷ wants) (sym stratum);
                here = s;
                reached = refl;
                taken = taken;
                few = few;
              },
            )
        | inr (mid, first, later) ↦
            let (named, stuck) = fill_row-stops phase wants mid x later in
            (
              named,
              record {
                firsts = w ∷ stuck.firsts;
                rest = stuck.rest;
                split = ap (λ l. w ∷ l) stuck.split;
                here = stuck.here;
                reached = rw (ap (λ p. fill flip p w s) named ∙ first) stuck.reached;
                taken = stuck.taken;
                few = stuck.few;
              },
            )
      ]

  fill_grid-stops :
      (grid : Grid) (s : List Entry × Draw R) (x : Infeasible)
      → fill_grid flip grid s ≡ err x
      → StuckAt flip grid s x
  unfolding fill_grid
  fill_grid-stops [] s x e = cc
  fill_grid-stops ((phase, wants) ∷ grid) s x e =
      elim (first_fault (fill_row flip phase wants s) (fill_grid flip grid) e) [
        | inl now ↦
            let (named, stuck) = fill_row-stops phase wants s x now in
            record {
              before = [];
              firsts = stuck.firsts;
              rest = stuck.rest;
              after = grid;
              split = cc (named, stuck.split);
              here = stuck.here;
              reached = rw stuck.reached refl;
              taken = stuck.taken;
              few = stuck.few;
            }
        | inr (mid, first, later) ↦
            let stuck = fill_grid-stops grid mid x later in
            record {
              before = (phase, wants) ∷ stuck.before;
              firsts = stuck.firsts;
              rest = stuck.rest;
              after = stuck.after;
              split = ap (λ l. (phase, wants) ∷ l) stuck.split;
              here = stuck.here;
              reached = rw first stuck.reached;
              taken = stuck.taken;
              few = stuck.few;
            }
      ]

  IsUnfit-IsRefused :
      (phase family : String) (budget : ℕ) (left : List Entry) (st : Draw R) (e : Entry)
      → ((r : String) → st.repo_counts r ≡ count (taken_from r) left)
      → st.other_language_budget + count taken_other left ≡ budget
      → IsUnfit flip phase family st e
      → IsRefused flip phase family budget left e
  unfolding is_passed_over
  IsUnfit-IsRefused phase family budget left st e repos spent (inr short) =
      inr (inr (inr (inr (inr short))))
  IsUnfit-IsRefused phase family budget left st e repos spent (inl out) = elim (Bool-cases e.used) [
    | inl marked ↦ inl marked
    | inr fresh ↦ elim (Bool-cases (str_eq e.family family)) [
      | inr other ↦ inr (inl other)
      | inl same ↦ elim (Bool-cases (leb 2 (st.repo_counts e.repo))) [
        | inl capped ↦ inr (inr (inl (omega (arith, leb→le _ _ capped, repos e.repo))))
        | inr room ↦ elim (Bool-cases (ltb max_prefix_chars (prefix_chars phase e))) [
          | inl long ↦ inr (inr (inr (inl (ltb→lt _ _ long))))
          | inr fits ↦
              let last : (is_other_language e && (st.other_language_budget == 0)) ≡ true =
                rw (fresh, same, room, fits) at out in
              inr (inr (inr (inr (inl (ground (arith, last), ground (arith, last, spent))))))
        ]
      ]
    ]
  ]

-- The variables before the loops.
abbrev pub start_draw : {R : Type 0} → ℕ → R → Draw R
start_draw budget rng = record {
  taken = 0;
  other_language_budget = budget;
  repo_counts = λ r. 0;
  rng = rng;
  selected = [];
}

-- The loops over the grid stopped at a stratum, and `left`, the pool as its loop left it, holds only
-- entries that it had to refuse.
pub record IsStuck {R : Type 0} (flip : R → Bool × R) (grid : Grid) (budget : ℕ) (pool : List Entry)
    (rng : R) (x : Infeasible) : Type 0 where
  pub stuck : StuckAt flip grid (pool, start_draw budget rng) x
  pub left : List Entry
  pub left_by :
      left
      ≡ (visit_pool flip x.phase x.family x.want
          (stuck.here.0)
          (record stuck.here.1 { taken = 0 })).0
  pub refused : All (IsRefused flip x.phase x.family budget left) left

module _ {R : Type 0} (flip : R → Bool × R) where
  StuckAt-IsStuck :
      (grid : Grid) (budget : ℕ) (pool : List Entry) (rng : R) (x : Infeasible)
      → count is_used pool ≡ 0
      → StuckAt flip grid (pool, start_draw budget rng) x
      → IsStuck flip grid budget pool rng x
  StuckAt-IsStuck grid budget pool rng x fresh at_stratum =
      let here = at_stratum.here in
      let start = record here.1 { taken = 0 } in
      let end = visit_pool flip x.phase x.family x.want (here.0) start in
      let before = at_stratum.before ++ (x.phase, at_stratum.firsts) ∷ [] in
      let f = fill_grid-Fills flip before (pool, start_draw budget rng) here at_stratum.reached in
      let g = visit_pool-Grows flip x.phase x.family x.want (here.0) start in
      let few : end.1.taken < x.want = omega (arith, at_stratum.taken, at_stratum.few) in
      record {
        stuck = at_stratum;
        left = end.0;
        left_by = refl;
        refused =
            All-map
              (λ (e : Entry).
                IsUnfit-IsRefused flip x.phase x.family budget (end.0) (end.1) e
                  (λ r.
                    omega (
                      arith,
                      f.repos r,
                      g.repos r,
                      count_used-le (λ e. str_eq r e.repo) pool,
                      fresh,
                    ))
                  (omega
                    (arith, f.languages, g.languages, count_used-le is_other_language pool, fresh)))
              (end.0) ((visit_pool_lem flip x.phase x.family x.want (here.0) start).1 few);
      }

  -- If the pool is unmarked, the selection raises only at a stratum that its loops come to and whose loop
  -- takes fewer entries than it wants; and then each entry of the pool, by the marks that are then in it,
  -- is taken, of another family, of a repository that gave two, too long, in another language than Python
  -- while the budget is spent, or too short for a turn that can be drawn.
  pub select_samples-IsStuck :
      (grid : Grid) (budget : ℕ) (pool : List Entry) (rng : R) (x : Infeasible)
      → count is_used pool ≡ 0
      → select_samples flip grid budget pool rng ≡ err x
      → IsStuck flip grid budget pool rng x
  unfolding select_samples
  select_samples-IsStuck grid budget pool rng x fresh e =
      elim (first_fault (fill_grid flip grid _) (λ s. ok s.1.selected) e) [
        | inl stops ↦
            StuckAt-IsStuck grid budget pool rng x fresh (fill_grid-stops flip grid _ x stops)
        | inr (s, _, wrong) ↦ cc
      ]
