-- ===== src/Weights/Setter.antt =====
-- `mark_success`, `mark_failed` and `WeightSetter.run_once`.
pub mod Laws
pub mod Pauses
use albedo.Prelude.{
  ◌==◌, if◌then◌else◌, update, Result, ◌>>=◌, ok, err, ℕ, String, Bool, true, false, Option, none,
  some, List, map, str_eq,
}
use albedo.Tables.{
  Db, AttemptState, EpochState, TransactionState, SubmissionState, chain_fault, Fault, MemberRow,
  WeightEpoch, WeightTransaction, StageAttempt, complete_coronated, failed_retryable, succeeded,
  weight_set_retryable,
}
use albedo.Reign.Claim.{set_submission, record_event, update_attempt}
use albedo.Weights.Claim.{claim_next_epoch}
use albedo.Weights.Epochs.{ClaimedWeightEpoch, SetterCall, reign_rows}
use albedo.Weights.Payload.{
  PayloadError, WeightMember, WeightPayload, build_weight_payload, different_lengths, no_uids,
  non_positive_weight, validate_weight_payload, wrong_total,
}
use albedo.Reign.Promote.{returned}

pub record SetWeightsResult : Type 0 where
  pub success : Bool
  pub message : String
  pub extrinsic_hash : Option String

-- `ChainClient`, bittensor behind it: each call may raise, with the text "type: message".
pub record Chain : Type 0 where
  pub hotkey_by_uid : ℕ → Result String (ℕ → Option String)
  pub set_weights : ℕ → List ℕ → List ℕ → Result String SetWeightsResult

-- The stage attempt of a claim, where it has one.
unfoldable pub settle_attempt : Option ℕ → (StageAttempt → StageAttempt) → Db → Db
unfolding update_attempt
settle_attempt none f db = db
settle_attempt (some id) f db = update_attempt id f db

finish_submission : ℕ → ℕ → Db → Db
finish_submission id now db = record db {
  submissions = update (λ s. s.id == id) (λ s. record s { finished_at = some now }) db.submissions;
}

unfoldable pub update_transaction : ℕ → (WeightTransaction → WeightTransaction) → Db → Db
update_transaction id f db = record db {
  weight_transactions = update (λ wt. wt.id == id) f db.weight_transactions;
}

unfoldable pub update_epoch : ℕ → (WeightEpoch → WeightEpoch) → Db → Db
update_epoch id f db = record db { weight_epochs = update (λ e. e.id == id) f db.weight_epochs }

complete_submission : Option ℕ → Option ℕ → ℕ → Db → Db
unfolding finish_submission
complete_submission none attempt_id now db = db
complete_submission (some id) attempt_id now db =
    record_event id attempt_id "weight_set_succeeded"
      (finish_submission id now (set_submission id SubmissionState.complete_coronated none now db))

retry_submission : Option ℕ → Option ℕ → Fault → ℕ → Db → Db
retry_submission none attempt_id fault now db = db
retry_submission (some id) attempt_id fault now db =
    record_event id attempt_id "weight_set_failed_retryable"
      (set_submission id SubmissionState.weight_set_retryable (some fault) now db)

unfoldable pub mark_success :
    ClaimedWeightEpoch → WeightPayload → SetWeightsResult → ℕ → ℕ → Db → Db
unfolding settle_attempt update_transaction update_epoch complete_submission
mark_success claimed payload result block_number now db =
    complete_submission claimed.trigger_submission_id claimed.stage_attempt_id now (
      settle_attempt claimed.stage_attempt_id
        (λ a. record a { state = AttemptState.succeeded; finished_at = some now })
        (update_epoch claimed.epoch_id
          (λ e. record e {
            state = EpochState.success;
            uids = payload.uids;
            weights = payload.weights;
            updated_at = now;
            succeeded_at = some now;
            last_fault_class = none;
            last_fault_code = none;
          })
          (update_transaction claimed.transaction_id
            (λ wt. record wt {
              state = TransactionState.success;
              extrinsic_hash = result.extrinsic_hash;
              block_number = some block_number;
            })
            db)))

unfoldable pub mark_failed : ClaimedWeightEpoch → String → String → ℕ → ℕ → Db → Db
unfolding settle_attempt update_transaction update_epoch retry_submission
mark_failed claimed fault_code fault_message block_number now db =
    let fault : Fault = record {
      class = chain_fault;
      code = fault_code;
      message = fault_message;
    } in
    retry_submission claimed.trigger_submission_id claimed.stage_attempt_id fault now (
      settle_attempt claimed.stage_attempt_id
        (λ a. record a {
          state = AttemptState.failed_retryable;
          finished_at = some now;
          fault = some fault;
        })
        (update_epoch claimed.epoch_id
          (λ e. record e {
            state = EpochState.failed_retryable;
            last_fault_class = some chain_fault;
            last_fault_code = some fault_code;
            updated_at = now;
          })
          (update_transaction claimed.transaction_id
            (λ wt. record wt {
              state = TransactionState.failed_retryable;
              block_number = some block_number;
              fault = some fault;
            })
            db)))

-- `active_reign_members`
unfoldable pub active_reign_members : Db → Option ℕ → List WeightMember
active_reign_members db reign_id =
    map
      (λ (m : MemberRow). record {
        slot = m.slot;
        uid = m.uid;
        hotkey = m.hotkey;
        weight_bps = m.weight_bps;
      })
      (reign_rows db reign_id)

-- The texts, but for the total that the last one names.
payload_message : PayloadError → String
payload_message no_uids = "ValueError: weight payload has no uids"
payload_message different_lengths =
    "ValueError: weight payload uids and weights have different lengths"
payload_message non_positive_weight = "ValueError: weight payload includes a non-positive weight"
payload_message wrong_total = "ValueError: weight payload must sum to 1.0"

check_payload : WeightPayload → Result String (Unit {0})
unfolding payload_message
check_payload p = elim (validate_weight_payload p) [
  | ok _ ↦ ok tt
  | err e ↦ err (payload_message e)
]

-- The end of the `try`: the validation, and the extrinsic.
unfoldable pub send : Chain → ℕ → WeightPayload → Result String (WeightPayload × SetWeightsResult)
unfolding check_payload
send chain netuid payload = do
  _ ← check_payload payload
  result ← chain.set_weights netuid payload.uids payload.weights
  ok (payload, result)

-- The body of the `try`.
unfoldable pub submit :
    Chain → SetterCall → ClaimedWeightEpoch → Db → Result String (WeightPayload × SetWeightsResult)
submit chain call claimed db = do
  let members = active_reign_members db claimed.reign_id
  uid_hotkeys ← chain.hotkey_by_uid claimed.netuid
  send chain claimed.netuid (build_weight_payload members uid_hotkeys call.burn_uid)

-- What `run_once` writes for the outcome of the `try`.
unfoldable pub settle :
    SetterCall → ClaimedWeightEpoch → Result String (WeightPayload × SetWeightsResult) → Db → Db
settle call claimed (err message) db =
    mark_failed claimed "weight_set_exception" message call.current_block call.now db
settle call claimed (ok (payload, result)) db =
    if result.success
    then mark_success claimed payload result call.current_block call.now db
    else if str_eq result.message ""
    then mark_failed claimed "weight_set_rate_limited"
        "set_weights returned false without a message" call.current_block call.now db
    else mark_failed claimed "weight_set_rejected" result.message call.current_block call.now db

-- `run_once`. Each repository call is a transaction of its own: `others` is what other workers write
-- between the claim and the reading of the members, and between that and the last transaction.
unfoldable pub run_once : SetterCall → Chain → (Db → Db) → (Db → Db) → Db → Db × Bool
run_once call chain others others' db =
    let (claimed_db, claimed) = claim_next_epoch call db in
    elim claimed [
      | none ↦ (claimed_db, false)
      | some c ↦
          let seen = others claimed_db in
          (settle call c (submit chain call c seen) (others' seen), true)
    ]
