-- ===== src/Weights/NewReign.antt =====
-- The weights of a reign that the set-reign worker has made.
use albedo.Prelude.{sum_of, All, ◌<◌, ◌≡◌, List}
use albedo.Tables.{MemberRow}

-- Every row of a reign weighs something, and all of them 10000 bps.
IsWhole : List MemberRow → Type 0
IsWhole rows = All (λ m. 0 < m.weight_bps) rows × (sum_of (λ m. m.weight_bps) rows ≡ 10000)
