-- ===== src/Sampling/Manifest.antt =====
-- `_normalized_sources` and `_normalized_shards`, for a manifest whose fields have their types: the
-- tests of `isinstance` are left out. The regular expression of the shard names is a parameter, as
-- is what a row's entry of `rows_meta` holds.
use albedo.Prelude.{
  ◌==◌, if◌then◌else◌, ==_iff, Bool-cases, length, sum_of, All, any, sort_by, Result, ◌>>=◌,
  first_value, ok-injective, ok, err, ℕ, ◌+◌, ◌<◌, String, ◌≡◌, sym, ◌∙◌, inl, inr, Bool, true,
  false, not, Option, none, some, List, [], ◌∷◌, arith, str_eq,
}

pub record Shard (M : Type 0) : Type 0 where
  pub name : String
  pub rows : ℕ
  pub rows_meta : List M

pub record Source (M : Type 0) : Type 0 where
  pub name : String
  pub shards : List (Shard M)
  pub total_rows : Option ℕ

pub data ManifestError : Type 0 where
  no_sources unnamed_source duplicate_source bad_shard_name missing_rows_meta wrong_total_rows :
      ManifestError

-- declared is not None and declared != total
unfoldable pub is_wrong_total : Option ℕ → ℕ → Bool
is_wrong_total none total = false
is_wrong_total (some declared) total = not (declared == total)

module _ {M : Type 0} (is_shard_name : String → Bool) where
  unfoldable pub check_shards : List (Shard M) → Result ManifestError ℕ
  check_shards [] = ok 0
  check_shards (s ∷ shards) =
      if not (is_shard_name s.name)
      then err bad_shard_name
      else if not (length s.rows_meta == s.rows)
      then err missing_rows_meta
      else check_shards shards >>= λ total. ok (s.rows + total)

  -- `_normalized_shards`: the rows of a source, whose shards stay as they are. The caller makes the
  -- test of `total_rows` a second time, of the same numbers.
  unfoldable pub normalized_shards : Source M → Result ManifestError ℕ
  unfolding check_shards is_wrong_total
  normalized_shards source = do
    total ← check_shards source.shards
    if is_wrong_total source.total_rows total then err wrong_total_rows else ok total

  -- The loop over the sources, with the names seen.
  unfoldable pub check_sources : List String → List (Source M) → Result ManifestError ℕ
  unfolding normalized_shards
  check_sources seen [] = ok 0
  check_sources seen (s ∷ sources) =
      if str_eq s.name ""
      then err unnamed_source
      else if any (str_eq s.name) seen
      then err duplicate_source
      else normalized_shards s >>= λ rows.
          check_sources (s.name ∷ seen) sources >>= λ total. ok (rows + total)

  unfoldable pub normalized_sources :
      (by_name : Source M → Source M → Bool)
      → Option ℕ
      → List (Source M)
      → Result ManifestError (List (Source M))
  unfolding check_sources is_wrong_total
  normalized_sources by_name declared [] = err no_sources
  normalized_sources by_name declared (s ∷ sources) = check_sources [] (s ∷ sources) >>= λ total.
      if is_wrong_total declared total
      then err wrong_total_rows
      else ok (sort_by by_name (s ∷ sources))

-- The rows of a source.
abbrev pub rows_of_source : {M : Type 0} → Source M → ℕ
rows_of_source source = sum_of (λ s. s.rows) source.shards

module _ {M : Type 0} where
  -- The names of the sources: none is empty, none is seen before.
  pub IsNew : List String → List (Source M) → Type 0
  IsNew seen [] = Unit
  IsNew seen (s ∷ sources) =
      (str_eq s.name "" ≡ false)
      × (any (str_eq s.name) seen ≡ false)
      × IsNew (s.name ∷ seen) sources

module _ {M : Type 0} (is_shard_name : String → Bool) where
  -- Each shard has the rows that it says it has, and a name of a shard; and the declared total, if
  -- there is one, is the number of the rows.
  abbrev pub IsWhole : Source M → Type 0
  IsWhole source =
      All (λ s. (is_shard_name s.name ≡ true) × (length s.rows_meta ≡ s.rows)) source.shards
      × (is_wrong_total source.total_rows (rows_of_source source) ≡ false)

  check_shards_lem :
      (shards : List (Shard M)) (total : ℕ)
      → check_shards is_shard_name shards ≡ ok total
      → All (λ s. (is_shard_name s.name ≡ true) × (length s.rows_meta ≡ s.rows)) shards
        × (sum_of (λ s. s.rows) shards ≡ total)
  unfolding check_shards
  check_shards_lem [] total e = (tt, ok-injective e)
  check_shards_lem (s ∷ shards) total e = elim (Bool-cases (is_shard_name s.name)) [
    | inr bad ↦ let wrong : err _ ≡ ok total = rw (check_shards, bad) at e in cc
    | inl named ↦ elim (Bool-cases (length s.rows_meta == s.rows)) [
      | inr short ↦ let wrong : err _ ≡ ok total = rw (check_shards, named, short) at e in cc
      | inl long ↦
          let (n, rest, sums) =
            first_value (check_shards is_shard_name shards) (λ n. ok (s.rows + n))
              (rw (check_shards, named, long) at e) in
          let (whole, total_rest) = check_shards_lem shards n rest in
          (((named, (==_iff _ _).0 long), whole), rw total_rest (ok-injective sums))
    ]
  ]

  normalized_shards-IsWhole :
      (source : Source M) (rows : ℕ)
      → normalized_shards is_shard_name source ≡ ok rows
      → IsWhole source × (rows_of_source source ≡ rows)
  unfolding normalized_shards
  normalized_shards-IsWhole source rows e =
      let (n, counted, checked) = first_value (check_shards is_shard_name source.shards) _ e in
      let (whole, total) = check_shards_lem source.shards n counted in
      elim (Bool-cases (is_wrong_total source.total_rows n)) [
        | inl wrong ↦ let clash : err _ ≡ ok rows = rw wrong at checked in cc
        | inr right ↦
            let same : n ≡ rows = ok-injective (rw right at checked) in
            ((whole, rw total right), total ∙ same)
      ]

  check_sources_lem :
      (seen : List String) (sources : List (Source M)) (total : ℕ)
      → check_sources is_shard_name seen sources ≡ ok total
      → IsNew seen sources × All IsWhole sources × (sum_of rows_of_source sources ≡ total)
  unfolding check_sources IsNew
  check_sources_lem seen [] total e = (tt, tt, ok-injective e)
  check_sources_lem seen (s ∷ sources) total e = elim (Bool-cases (str_eq s.name "")) [
    | inl empty ↦ let wrong : err _ ≡ ok total = rw (check_sources, empty) at e in cc
    | inr named ↦ elim (Bool-cases (any (str_eq s.name) seen)) [
      | inl twice ↦ let wrong : err _ ≡ ok total = rw (check_sources, named, twice) at e in cc
      | inr new ↦
          let (rows, here, e') =
            first_value (normalized_shards is_shard_name s) _
              (rw (check_sources, named, new) at e) in
          let (n, rest, sums) =
            first_value (check_sources is_shard_name (s.name ∷ seen) sources) (λ n. ok (rows + n))
              e' in
          let (fresh, whole, total_rest) = check_sources_lem (s.name ∷ seen) sources n rest in
          let (whole_here, rows_here) = normalized_shards-IsWhole s rows here in
          ((named, new, fresh), (whole_here, whole), rw (rows_here, total_rest) (ok-injective sums))
    ]
  ]

  -- A manifest that is accepted has a source, distinct names of sources, none of them empty, and in each
  -- shard a row of `rows_meta` for each row; the declared totals are the numbers of the rows; and
  -- what is returned are its sources, sorted.
  pub normalized_sources-ok :
      (by_name : Source M → Source M → Bool) (declared : Option ℕ) (sources out : List (Source M))
      → normalized_sources is_shard_name by_name declared sources ≡ ok out
      → (0 < length sources)
        × IsNew [] sources
        × All IsWhole sources
        × (is_wrong_total declared (sum_of rows_of_source sources) ≡ false)
        × (out ≡ sort_by by_name sources)
  unfolding normalized_sources
  normalized_sources-ok by_name declared [] out e = let wrong : err _ ≡ ok out = e in absurd cc
  normalized_sources-ok by_name declared (s ∷ sources) out e =
      let (n, checked, ends) = first_value (check_sources is_shard_name [] (s ∷ sources)) _ e in
      let (new, whole, total) = check_sources_lem [] (s ∷ sources) n checked in
      elim (Bool-cases (is_wrong_total declared n)) [
        | inl wrong ↦ let clash : err _ ≡ ok out = rw wrong at ends in absurd cc
        | inr right ↦
            (omega arith, new, whole, rw total right, sym (ok-injective (rw right at ends)))
      ]
