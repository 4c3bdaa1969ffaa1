-- ===== src/Weights/Claim.antt =====
-- `WeightSetterRepository.claim_next_epoch`.
pub mod Cases
pub mod Limits
pub mod Laws
pub mod Refresh
use albedo.Prelude.{
  ◌==◌, if◌then◌else◌, update, ℕ, ◌+◌, Bool, true, false, ◌&&◌, not, Option, none, some, [], ◌∷◌,
  ◌++◌,
}
use mathlib.Core.Option
use albedo.Tables.{
  Db, WeightEpoch, EpochState, TransactionState, WeightTransaction, AttemptState, StageAttempt,
  SubmissionState, weight_set, created, reign_set, running, weight_set_retryable,
  weight_set_running,
}
use albedo.Reign.Claim.{next_attempt_number, record_event, has_active_attempt}
use albedo.Weights.Epochs.{ClaimedWeightEpoch, SetterCall, choose_epoch, is_too_soon}

-- UPDATE model_submissions ... WHERE id AND state IN ('REIGN_SET', 'WEIGHT_SET_RETRYABLE')
is_ready : SubmissionState → Bool
is_ready SubmissionState.reign_set = true
is_ready SubmissionState.weight_set_retryable = true
is_ready _ = false

-- The stage attempt and the submission of the claim, where the epoch has one.
unfoldable pub start_attempt : SetterCall → Option ℕ → Db → Db
unfolding is_ready
start_attempt call none db = db
start_attempt call (some submission_id) db =
    let attempt : StageAttempt = record {
      id = call.stage_attempt_id;
      submission_id = submission_id;
      stage = weight_set;
      attempt_number = next_attempt_number db submission_id weight_set;
      state = AttemptState.running;
      worker_id = call.worker_id;
      lease_expires_at = none;
      finished_at = none;
      fault = none;
    } in
    record db {
      stage_attempts = db.stage_attempts ++ attempt ∷ [];
      submissions =
          update (λ s. (s.id == submission_id) && is_ready s.state)
            (λ s. record s {
              state = SubmissionState.weight_set_running;
              fault = none;
              updated_at = call.now;
            })
            db.submissions;
    }

-- The INSERT of the attempt violates stage_attempts_one_active_per_stage_uidx.
unfoldable pub is_blocked : Db → Option ℕ → Bool
is_blocked db none = false
is_blocked db (some submission_id) = has_active_attempt db submission_id weight_set

-- UPDATE weight_epochs SET state = 'RUNNING' ... WHERE id
unfoldable pub run_epoch : SetterCall → ℕ → Db → Db
run_epoch call id db = record db {
  weight_epochs =
      update (λ e. e.id == id)
        (λ e. record e {
          state = EpochState.running;
          attempt_count = e.attempt_count + 1;
          updated_at = call.now;
          last_fault_class = none;
          last_fault_code = none;
        })
        db.weight_epochs;
}

unfoldable pub insert_transaction : WeightTransaction → Db → Db
insert_transaction wt db = record db { weight_transactions = db.weight_transactions ++ wt ∷ [] }

unfoldable pub record_claimed : Option ℕ → Option ℕ → Db → Db
record_claimed none attempt_id db = db
record_claimed (some submission_id) attempt_id db =
    record_event submission_id attempt_id "weight_set_claimed" db

attempt_of : SetterCall → Option ℕ → Option ℕ
attempt_of call none = none
attempt_of call (some submission_id) = some call.stage_attempt_id

-- The writes of a claim, and what is returned.
unfoldable pub claim_epoch : SetterCall → WeightEpoch → Option ℕ → Db → Db × ClaimedWeightEpoch
unfolding run_epoch insert_transaction record_claimed attempt_of
claim_epoch call epoch trigger db =
    let attempt_id = attempt_of call trigger in
    let wt : WeightTransaction = record {
      id = call.transaction_id;
      weight_epoch_id = epoch.id;
      stage_attempt_id = attempt_id;
      wallet_hotkey = call.wallet_hotkey;
      state = TransactionState.created;
      extrinsic_hash = none;
      block_number = some call.current_block;
      fault = none;
    } in
    (
      record_claimed trigger attempt_id
          (run_epoch call epoch.id (insert_transaction wt (start_attempt call trigger db))),
      record {
        epoch_id = epoch.id;
        transaction_id = call.transaction_id;
        stage_attempt_id = attempt_id;
        reign_id = epoch.reign_id;
        trigger_submission_id = trigger;
        netuid = epoch.netuid;
      },
    )

-- Where the INSERT of the attempt raises, the transaction is rolled back, and `none` stands for the
-- exception: `run_once` does not go on then either.
unfoldable pub claim_next_epoch : SetterCall → Db → Db × Option ClaimedWeightEpoch
claim_next_epoch call db =
    if not call.locked
    then (db, none)
    else if is_too_soon call db
    then (db, none)
    else (let (db', chosen) = choose_epoch call db in
        elim chosen [
          | none ↦ (db', none)
          | some (epoch, trigger) ↦
              let (db'', claimed) = claim_epoch call epoch trigger db' in
              if is_blocked db trigger then (db, none) else (db'', some claimed)
        ])
