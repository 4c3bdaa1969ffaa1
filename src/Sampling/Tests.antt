-- ===== src/Sampling/Tests.antt =====
-- The quotas and the selection on small inputs, and the theorems there.
use albedo.Prelude.{
  ltb, sum_of, All, update, find?, any, count, insert_by, sort_by, ok, err, ℕ, ◌%◌, ◌<◌, String,
  ◌≡◌, refl, Bool, true, false, ◌&&◌, not, none, some, List, [], ◌∷◌, arith, str_eq,
}
use mathlib.Core.Option
use albedo.Sampling.{
  Entry, SampleId, fill, fill_grid, fill_row, is_other_language, is_passed_over, prefix_chars,
  select_samples, take_entry, turn_idx, visit, visit_pool, Infeasible,
}
use albedo.Sampling.Quotas.{
  IsNamed, add_one, add_ones, apportion, apportion-whole, by_remainder, family_grid, floors,
  grid_rows, step_trim, value_of,
}
use albedo.Sampling.Selection.{IsSelection, select_samples-IsSelection, wanted}
use albedo.Sampling.Laws.{is_used}
use albedo.Sampling.Manifest.{
  IsNew, IsWhole, Source, check_shards, check_sources, is_wrong_total, normalized_shards,
  normalized_sources, normalized_sources-ok, rows_of_source,
}
use albedo.Sampling.Stuck.{IsStuck, select_samples-IsStuck}

-- The order of the exact fractions.

abbrev exact_order : ℕ → ℕ → ℕ → Bool
exact_order total a b = ltb (b % total) (a % total)

unfoldable quotas_program : Unit {0}
unfolding family_grid apportion grid_rows value_of add_one add_ones floors by_remainder sort_by
    insert_by update find? count
quotas_program = tt

apportion-phases :
    apportion exact_order step_trim 10 ≡ some (("cold", 7) ∷ ("pre_edit", 1) ∷ ("at_edit", 2) ∷ [])
unfolding quotas_program
apportion-phases = refl

-- The grid of a hundred samples, with the family mix of each phase.
family_grid-hundred : Option.map wanted (family_grid exact_order 100 step_trim) ≡ some 100
unfolding quotas_program
family_grid-hundred = refl

step_trim-IsNamed : IsNamed step_trim
unfolding quotas_program
step_trim-IsNamed = (refl, (refl, (refl, tt)))

apportion-whole_example :
    (quotas : List (String × ℕ)) × (apportion exact_order step_trim 64 ≡ some quotas)
    × (sum_of (λ s. s.1) quotas ≡ 64)
apportion-whole_example = apportion-whole exact_order step_trim 64 step_trim-IsNamed (omega arith)

abbrev rust_row : Entry
rust_row = record {
  asst = 9;
  first_edit = 4;
  family = "pr";
  repo = "tokio";
  language = "rust";
  chars_at = 900;
  chars_pre = 500;
  shard = "data/train-0.parquet";
  row = 0;
  used = false;
}

abbrev python_row : Entry
python_row = record rust_row { repo = "flask"; language = "python"; row = 1 }

-- Another row of another language, for which the budget is used up; and one of Python.
abbrev pool : List Entry
pool = rust_row ∷ record rust_row { row = 2 } ∷ python_row ∷ []

abbrev grid : List (String × List (String × ℕ))
grid = ("cold", ("pr", 1) ∷ []) ∷ ("pre_edit", ("pr", 1) ∷ []) ∷ []

-- A generator whose choices alternate.
abbrev alternate : Bool → Bool × Bool
alternate b = (b, not b)

abbrev ids : List SampleId
ids =
    record { shard = "data/train-0.parquet"; row = 0; turn_idx = 1 }
    ∷ record { shard = "data/train-0.parquet"; row = 1; turn_idx = 2 }
    ∷ []

unfoldable selection_program : Unit {0}
unfolding select_samples fill_grid fill_row fill visit_pool visit is_passed_over turn_idx take_entry
    prefix_chars is_other_language count
selection_program = tt

selects : select_samples alternate grid 1 pool true ≡ ok ids
unfolding selection_program
selects = refl

pool-fresh : count is_used pool ≡ 0
unfolding selection_program
pool-fresh = refl

select_samples-IsSelection_example : IsSelection pool (wanted grid) 1 ids
select_samples-IsSelection_example =
    select_samples-IsSelection alternate grid 1 pool true ids pool-fresh selects

abbrev any_name : String → Bool
any_name name = true

abbrev source_b : Source ℕ
source_b = record {
  name = "b";
  shards = record { name = "data/train-0.parquet"; rows = 2; rows_meta = 7 ∷ 8 ∷ [] } ∷ [];
  total_rows = some 2;
}

abbrev source_a : Source ℕ
source_a = record source_b { name = "a"; total_rows = none }

abbrev a_first : Source ℕ → Source ℕ → Bool
a_first s t = str_eq s.name "a" && not (str_eq t.name "a")

unfoldable manifest_program : Unit {0}
unfolding normalized_sources check_sources normalized_shards check_shards is_wrong_total any sort_by
    insert_by
manifest_program = tt

normalizes :
    normalized_sources any_name a_first (some 4) (source_b ∷ source_a ∷ [])
    ≡ ok (source_a ∷ source_b ∷ [])
unfolding manifest_program
normalizes = refl

normalized_sources-ok_example :
    (0 < 2)
    × IsNew [] (source_b ∷ source_a ∷ [])
    × All (IsWhole any_name) (source_b ∷ source_a ∷ [])
    × (is_wrong_total (some 4) (sum_of rows_of_source (source_b ∷ source_a ∷ [])) ≡ false)
    × (source_a ∷ source_b ∷ [] ≡ sort_by a_first (source_b ∷ source_a ∷ []))
normalized_sources-ok_example =
    normalized_sources-ok any_name a_first (some 4) (source_b ∷ source_a ∷ [])
      (source_a ∷ source_b ∷ []) normalizes

-- The second stratum wants two entries, and one is left.
abbrev greedy : List (String × List (String × ℕ))
greedy = ("cold", ("pr", 1) ∷ []) ∷ ("pre_edit", ("pr", 2) ∷ []) ∷ []

abbrev shortage : Infeasible
shortage = record { phase = "pre_edit"; family = "pr"; want = 2; taken = 1 }

stops : select_samples alternate greedy 1 pool true ≡ err shortage
unfolding selection_program
stops = refl

select_samples-IsStuck_example : IsStuck alternate greedy 1 pool true shortage
select_samples-IsStuck_example =
    select_samples-IsStuck alternate greedy 1 pool true shortage pool-fresh stops
