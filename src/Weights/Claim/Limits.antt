-- ===== src/Weights/Claim/Limits.antt =====
-- The rate limit of `claim_next_epoch`.
use albedo.Prelude.{
  ltb, Option-cases, select, first_by, In, select-In, All-In, first_by-none, first_by-first, ◌+◌,
  ◌≤◌, ◌≡◌, inl, inr, true, false, none, some, arith,
}
use albedo.Tables.{Db, WeightTransaction}
use albedo.Weights.Claim.{claim_next_epoch}
use albedo.Weights.Epochs.{
  ClaimedWeightEpoch, SetterCall, block_of, is_marker, is_too_soon, by_block,
}
use albedo.Weights.Claim.Cases.{claim_cases, unclaimed, newest_claimed, refresh_claimed, blocked}

-- A row that is_too_soon does not stop is `rate_limit_blocks` after every marker of the subnet.
is_too_soon-limit :
    (call : SetterCall) (db : Db)
    → is_too_soon call db ≡ false
    → (wt : WeightTransaction) → In wt db.weight_transactions
    → is_marker call.netuid db wt ≡ true
    → block_of wt + call.rate_limit_blocks ≤ call.current_block
unfolding is_too_soon by_block
is_too_soon-limit call db due wt row marker =
    let markers = select (is_marker call.netuid db) db.weight_transactions in
    let here = select-In (is_marker call.netuid db) db.weight_transactions row marker in
    elim (Option-cases (first_by by_block markers)) [
      | inl nothing ↦ absurd (rw (first_by-none by_block markers nothing) at here)
      | inr (last, found) ↦
          let le : by_block wt last ≡ false =
            All-In (λ w. by_block w last ≡ false) markers
              (first_by-first by_block (λ a b h. ground arith) (λ a b c h k. ground arith) markers
                found)
              here in
          let far : ltb call.current_block (block_of last + call.rate_limit_blocks) ≡ false =
            rw (is_too_soon, found) at due in
          ground arith
    ]

-- A call that claims an epoch is `rate_limit_blocks` after every transaction of the subnet that set
-- weights or was rate limited.
pub claim_next_epoch-limit :
    (call : SetterCall) (db : Db) (c : ClaimedWeightEpoch)
    → (claim_next_epoch call db).1 ≡ some c
    → (wt : WeightTransaction) → In wt db.weight_transactions
    → is_marker call.netuid db wt ≡ true
    → block_of wt + call.rate_limit_blocks ≤ call.current_block
claim_next_epoch-limit call db c claimed = elim (claim_cases call db) [
  | unclaimed _ e ↦ let nothing : none ≡ some c = rw e at claimed in cc
  | blocked _ _ _ _ e ↦ let nothing : none ≡ some c = rw e at claimed in cc
  | newest_claimed _ due _ _ ↦ is_too_soon-limit call db due
  | refresh_claimed _ _ due _ _ _ ↦ is_too_soon-limit call db due
]
