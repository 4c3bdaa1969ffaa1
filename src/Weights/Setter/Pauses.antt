-- ===== src/Weights/Setter/Pauses.antt =====
-- The pause after weights were set.
use albedo.Prelude.{
  ◌==◌, ==_refl, Option-cases, update, In, In-update, any-In, ok, ℕ, ◌+◌, ◌<◌, ◌≡◌, refl, inl, inr,
  true, ◌&&◌, none, some, arith,
}
use albedo.Tables.{TransactionState, Db, WeightEpoch, WeightTransaction}
use albedo.Weights.Setter.{
  SetWeightsResult, complete_submission, finish_submission, mark_success, settle_attempt,
  update_epoch, update_transaction, Chain, run_once, settle, submit,
}
use albedo.Weights.Epochs.{ClaimedWeightEpoch, block_of, is_marker, SetterCall}
use albedo.Weights.Payload.{WeightPayload}
use albedo.Reign.Claim.{record_event, set_submission, update_attempt}
use albedo.Weights.Claim.{claim_next_epoch}
use albedo.Weights.Claim.Limits.{claim_next_epoch-limit}
use albedo.Weights.Setter.Laws.{epochs-mark_success, succeeded_epoch}

-- The row of the transaction that set the weights.
abbrev succeeded_row : SetWeightsResult → ℕ → WeightTransaction → WeightTransaction
succeeded_row result block wt = record wt {
  state = TransactionState.success;
  extrinsic_hash = result.extrinsic_hash;
  block_number = some block;
}

transactions-mark_success :
    (c : ClaimedWeightEpoch) (payload : WeightPayload) (result : SetWeightsResult) (block now : ℕ)
    (db : Db)
    → (mark_success c payload result block now db).weight_transactions
      ≡ update (λ wt. wt.id == c.transaction_id) (succeeded_row result block) db.weight_transactions
unfolding mark_success complete_submission settle_attempt update_epoch update_transaction
    update_attempt finish_submission set_submission record_event
transactions-mark_success c payload result block now db = ground arith

-- The rows of a claim are in the tables.
pub record HasClaim (netuid : ℕ) (c : ClaimedWeightEpoch) (db : Db) : Type 0 where
  pub epoch : WeightEpoch
  pub epoch_row : In epoch db.weight_epochs
  pub epoch_id : epoch.id ≡ c.epoch_id
  pub epoch_netuid : epoch.netuid ≡ netuid
  pub transaction : WeightTransaction
  pub transaction_row : In transaction db.weight_transactions
  pub transaction_id : transaction.id ≡ c.transaction_id
  pub transaction_epoch : transaction.weight_epoch_id ≡ c.epoch_id

module _ (netuid : ℕ) (c : ClaimedWeightEpoch) (payload : WeightPayload) (result : SetWeightsResult)
    (block now : ℕ) (db : Db) (h : HasClaim netuid c db) where
  transaction-In :
      In
        (succeeded_row result block h.transaction)
        (mark_success c payload result block now db).weight_transactions
  transaction-In = rw transactions-mark_success (
      In-update (λ wt. wt.id == c.transaction_id) (succeeded_row result block)
        db.weight_transactions h.transaction_row (rw h.transaction_id (==_refl c.transaction_id)))

  transaction-marks :
      is_marker netuid
        (mark_success c payload result block now db)
        (succeeded_row result block h.transaction)
      ≡ true
  unfolding is_marker
  transaction-marks =
      let of_epoch =
        any-In
          (λ (we : WeightEpoch). (we.id == h.transaction.weight_epoch_id) && (we.netuid == netuid))
          (update (λ e. e.id == c.epoch_id) (succeeded_epoch payload now) db.weight_epochs)
          (In-update (λ (e : WeightEpoch). e.id == c.epoch_id) (succeeded_epoch payload now)
            db.weight_epochs h.epoch_row (rw h.epoch_id (==_refl c.epoch_id)))
          (ground (arith, h.transaction_epoch, h.epoch_id, h.epoch_netuid)) in
      rw (epochs-mark_success c db payload result block now, of_epoch) refl

-- A worker alone in the call, or with others that leave the rows of its claim in the tables, sets
-- weights at a block: then no call before the rate limit has passed claims anything for the subnet.
pub run_once-pauses :
    (call call' : SetterCall) (chain : Chain) (others others' : Db → Db) (db : Db)
    (c : ClaimedWeightEpoch) (payload : WeightPayload) (result : SetWeightsResult)
    → (claim_next_epoch call db).1 ≡ some c
    → submit chain call c (others (claim_next_epoch call db).0) ≡ ok (payload, result)
    → result.success ≡ true
    → HasClaim call'.netuid c (others' (others (claim_next_epoch call db).0))
    → call'.current_block < call.current_block + call'.rate_limit_blocks
    → (claim_next_epoch call' (run_once call chain others others' db).0).1 ≡ none
unfolding run_once settle
run_once-pauses call call' chain others others' db c payload result claimed sent accepted h early =
    let after = others' (others (claim_next_epoch call db).0) in
    let done : (run_once call chain others others' db).0
        ≡ mark_success c payload result call.current_block call.now after =
      simp (claimed, sent, accepted, run_once, settle) in
    elim (Option-cases (claim_next_epoch call' (run_once call chain others others' db).0).1) [
      | inl nothing ↦ nothing
      | inr (c', claimed') ↦
          let limit =
            claim_next_epoch-limit call' _ c' (rw done at claimed')
              (succeeded_row result call.current_block h.transaction)
              (transaction-In call'.netuid c payload result call.current_block call.now after h)
              (transaction-marks call'.netuid c payload result call.current_block call.now after
                h) in
          absurd (unfold block_of in omega (arith, limit, early))
    ]
