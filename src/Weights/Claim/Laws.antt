-- ===== src/Weights/Claim/Laws.antt =====
-- Which epoch `claim_next_epoch` claims, and what it does to the others.
use albedo.Prelude.{
  All-update, update-All, All, In, In-select, select-In, first_by-In, All-In, first_by-first, ℕ,
  ◌≤◌, ◌<◌, ◌≡◌, refl, sym, ap, ◌∙◌, ◌≢◌, true, false, Option, none, some, some-injective, [], ◌∷◌,
  ◌++◌, arith,
}
use albedo.Tables.{Db, EpochState, TransactionState, WeightEpoch, WeightTransaction}
use albedo.Weights.Claim.{
  claim_epoch, insert_transaction, record_claimed, run_epoch, start_attempt, claim_next_epoch,
}
use albedo.Weights.Epochs.{
  SetterCall, by_newest_epoch, is_candidate, is_waiting, newest_open_epoch, supersede,
  ClaimedWeightEpoch, trigger_of,
}
use albedo.Reign.Claim.{record_event}
use albedo.Weights.Claim.Cases.{claim_cases, unclaimed, newest_claimed, refresh_claimed, blocked}

pub epochs-claim_epoch :
    (call : SetterCall) (e : WeightEpoch) (trigger : Option ℕ) (db : Db)
    → (claim_epoch call e trigger db).0.weight_epochs ≡ (run_epoch call e.id db).weight_epochs
unfolding claim_epoch run_epoch insert_transaction record_claimed record_event start_attempt
epochs-claim_epoch call e none db = refl
epochs-claim_epoch call e (some id) db = refl

-- The transaction of a claim.
abbrev pub IsTransaction : SetterCall → ℕ → WeightTransaction → Type 0
IsTransaction call epoch_id wt =
    (wt.id ≡ call.transaction_id)
    × (wt.weight_epoch_id ≡ epoch_id)
    × (wt.state ≡ TransactionState.created)
    × (wt.block_number ≡ some call.current_block)

pub transactions-claim_epoch :
    (call : SetterCall) (e : WeightEpoch) (trigger : Option ℕ) (db : Db)
    → (wt : WeightTransaction) × IsTransaction call e.id wt
      × ((claim_epoch call e trigger db).0.weight_transactions ≡ db.weight_transactions ++ wt ∷ [])
unfolding claim_epoch run_epoch insert_transaction record_claimed record_event start_attempt
transactions-claim_epoch call e none db = (_, (refl, refl, refl, refl), refl)
transactions-claim_epoch call e (some id) db = (_, (refl, refl, refl, refl), refl)

-- `db'` is `db` after a claim of its newest open epoch `e`.
pub record IsClaimed (call : SetterCall) (e : WeightEpoch) (db db' : Db) : Type 0 where
  pub row : In e db.weight_epochs
  pub candidate : is_candidate call e ≡ true
  pub newest :
      (o : WeightEpoch)
      → In o db.weight_epochs
      → is_candidate call o ≡ true
      → o.created_at ≤ e.created_at
  pub running : All (λ o. o.id ≡ e.id → o.state ≡ EpochState.running) db'.weight_epochs
  -- No older epoch of the subnet waits any more.
  pub others :
      All
        (λ o.
          o.netuid ≡ call.netuid
          → o.id ≢ e.id
          → is_waiting o.state ≡ true
          → e.created_at < o.created_at)
        db'.weight_epochs
  pub transaction :
      (wt : WeightTransaction) × IsTransaction call e.id wt
      × (db'.weight_transactions ≡ db.weight_transactions ++ wt ∷ [])

newest-first :
    (call : SetterCall) (db : Db) (e : WeightEpoch)
    → newest_open_epoch call db ≡ some e
    → (o : WeightEpoch) → In o db.weight_epochs
    → is_candidate call o ≡ true
    → o.created_at ≤ e.created_at
unfolding newest_open_epoch
newest-first call db e found o row passes =
    let older : by_newest_epoch o e ≡ false =
      All-In (λ w. by_newest_epoch w e ≡ false) _
        (first_by-first by_newest_epoch (λ a b h. unfold by_newest_epoch in ground arith)
          (λ a b c h k. unfold by_newest_epoch in ground arith) _ found)
        (select-In (is_candidate call) db.weight_epochs row passes) in
    unfold by_newest_epoch in ground arith

module _ (call : SetterCall) (e : WeightEpoch) where
  Outdone : WeightEpoch → Type 0
  Outdone o =
      o.netuid ≡ call.netuid → o.id ≢ e.id → is_waiting o.state ≡ true → e.created_at < o.created_at

  others-run_epoch :
      (db : Db) → All Outdone (run_epoch call e.id (supersede call e db)).weight_epochs
  unfolding run_epoch supersede is_waiting Outdone
  others-run_epoch db =
      All-update Outdone _ _ _ (λ o h same other waiting. ground arith)
        (update-All Outdone _ _ db.weight_epochs (λ o hit same other waiting. ground arith)
          (λ o miss same other waiting. ground (arith, other, same)))

  newest-IsClaimed :
      (db : Db)
      → newest_open_epoch call db ≡ some e
      → IsClaimed call e db (claim_epoch call e (trigger_of db e.reign_id) (supersede call e db)).0
  unfolding newest_open_epoch Outdone
  newest-IsClaimed db found =
      let (row, passes) = In-select (is_candidate call) _ (first_by-In by_newest_epoch _ found) in
      let epochs = epochs-claim_epoch call e (trigger_of db e.reign_id) (supersede call e db) in
      record {
        row = row;
        candidate = passes;
        newest = newest-first call db e found;
        running = rw epochs (
            unfold run_epoch in
            update-All (λ o. o.id ≡ e.id → o.state ≡ EpochState.running) _ _ _ (λ o hit same. refl)
              (λ o miss same. ground (arith, miss, same)));
        others = rw epochs (others-run_epoch db);
        transaction =
            unfold supersede in
            transactions-claim_epoch call e (trigger_of db e.reign_id) (supersede call e db);
      }

-- When an epoch is claimed while some epoch of the subnet is open and not locked, the claim is of the
-- newest such epoch: it is RUNNING, every other epoch of the subnet that still waits is newer,
-- and one CREATED transaction at the current block is added for it.
pub claim_next_epoch-IsClaimed :
    (call : SetterCall) (db : Db) (e : WeightEpoch) (c : ClaimedWeightEpoch)
    → newest_open_epoch call db ≡ some e
    → (claim_next_epoch call db).1 ≡ some c
    → (c.epoch_id ≡ e.id) × IsClaimed call e db (claim_next_epoch call db).0
claim_next_epoch-IsClaimed call db e c found claimed = elim (claim_cases call db) [
  | unclaimed _ none_yet ↦ let nothing : none ≡ some c = rw none_yet at claimed in cc
  | blocked _ _ _ _ none_yet ↦ let nothing : none ≡ some c = rw none_yet at claimed in cc
  | refresh_claimed _ _ _ nothing _ _ ↦ absurd cc
  | newest_claimed e' _ found' done ↦
      let same : e' ≡ e = some-injective _ _ (sym found' ∙ found) in
      let made = some-injective _ _ (rw done at claimed) in
      rw done (
        (unfold claim_epoch in sym (ap (λ x. x.epoch_id) made) ∙ ap (λ x. x.id) same),
        rw same (newest-IsClaimed call e db found),
      )
]
