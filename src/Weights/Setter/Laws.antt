-- ===== src/Weights/Setter/Laws.antt =====
-- How `run_once` ends.
use albedo.Prelude.{
  ◌==◌, Bool-cases, All, update, Result, first_value, update-All, ok, err, ℕ, String, ◌≡◌, refl,
  ◌⊎◌, inl, inr, true, none, some, List, arith, str_eq,
}
use albedo.Tables.{Db, EpochState, WeightEpoch, chain_fault}
use albedo.Weights.Setter.{
  Chain, SetWeightsResult, check_payload, complete_submission, finish_submission, mark_success,
  payload_message, settle_attempt, submit, update_epoch, update_transaction, mark_failed,
  retry_submission, send, run_once, settle,
}
use albedo.Weights.Epochs.{ClaimedWeightEpoch, SetterCall}
use albedo.Weights.Payload.{PayloadError, WeightPayload, validate_weight_payload}
use albedo.Weights.Payload.Valid.{IsAccepted, validate_weight_payload_iff}
use albedo.Reign.Claim.{record_event, set_submission, update_attempt}
use albedo.Tables.{WeightEpoch, chain_fault}
use albedo.Weights.Claim.{claim_next_epoch}

-- The chain accepted these very uids and weights, which had passed the validation.
abbrev pub WasAccepted : Chain → ℕ → List ℕ → List ℕ → Type 0
WasAccepted chain netuid uids weights =
    IsAccepted uids weights
    × (result : SetWeightsResult) × (chain.set_weights netuid uids weights ≡ ok result)
    × (result.success ≡ true)

-- What becomes of the row of a claimed epoch: SUCCESS with accepted weights, or FAILED_RETRYABLE.
abbrev pub IsSettled : Chain → SetterCall → ℕ → WeightEpoch → Type 0
IsSettled chain call netuid e =
    (e.state ≡ EpochState.success) × WasAccepted chain netuid e.uids e.weights
    ⊎ (e.state ≡ EpochState.failed_retryable)
      × (e.updated_at ≡ call.now)
      × (e.last_fault_class ≡ some chain_fault)

check_payload-ok :
    (p : WeightPayload) {u : Unit {0}} → check_payload p ≡ ok u → IsAccepted p.uids p.weights
unfolding check_payload
check_payload-ok p h = (validate_weight_payload_iff p).0 (go (validate_weight_payload p) refl)
  where
    go :
        (r : Result PayloadError (Unit {0}))
        → validate_weight_payload p ≡ r
        → validate_weight_payload p ≡ ok tt
    go (ok u) e = e
    go (err x) e = let wrong : err (payload_message x) ≡ ok _ = rw (check_payload, e) at h in cc

-- A `try` that came to its end had a valid payload, and gave it to the chain.
send-ok :
    (chain : Chain) (netuid : ℕ) (p payload : WeightPayload) (result : SetWeightsResult)
    → send chain netuid p ≡ ok (payload, result)
    → IsAccepted payload.uids payload.weights
      × (chain.set_weights netuid payload.uids payload.weights ≡ ok result)
unfolding send
send-ok chain netuid p payload result e =
    let (u, checked, e2) = first_value (check_payload p) _ e in
    let (r, sent, e3) = first_value (chain.set_weights netuid p.uids p.weights) _ e2 in
    let same : p ≡ payload = cc in
    let same' : r ≡ result = cc in rw (← same, ← same') (check_payload-ok p checked, sent)

submit-ok :
    (chain : Chain) (call : SetterCall) (c : ClaimedWeightEpoch) (db : Db) (payload : WeightPayload)
    (result : SetWeightsResult)
    → submit chain call c db ≡ ok (payload, result)
    → IsAccepted payload.uids payload.weights
      × (chain.set_weights c.netuid payload.uids payload.weights ≡ ok result)
unfolding submit
submit-ok chain call c db payload result e =
    let (uid_hotkeys, _, sent) = first_value (chain.hotkey_by_uid c.netuid) _ e in
    send-ok chain c.netuid _ payload result sent

-- The row of an epoch whose weights are set.
abbrev pub succeeded_epoch : WeightPayload → ℕ → WeightEpoch → WeightEpoch
succeeded_epoch payload now e = record e {
  state = EpochState.success;
  uids = payload.uids;
  weights = payload.weights;
  updated_at = now;
  succeeded_at = some now;
  last_fault_class = none;
  last_fault_code = none;
}

-- What the two endings leave in the table of epochs.
module _ (c : ClaimedWeightEpoch) (db : Db) where
  pub epochs-mark_success :
      (payload : WeightPayload) (result : SetWeightsResult) (block now : ℕ)
      → (mark_success c payload result block now db).weight_epochs
        ≡ update (λ e. e.id == c.epoch_id) (succeeded_epoch payload now) db.weight_epochs
  unfolding mark_success complete_submission settle_attempt update_epoch update_transaction
      update_attempt finish_submission set_submission record_event
  epochs-mark_success payload result block now = ground arith

  epochs-mark_failed :
      (code message : String) (block now : ℕ)
      → (mark_failed c code message block now db).weight_epochs
        ≡ update
            (λ e. e.id == c.epoch_id)
            (λ e. record e {
              state = EpochState.failed_retryable;
              last_fault_class = some chain_fault;
              last_fault_code = some code;
              updated_at = now;
            })
            db.weight_epochs
  unfolding mark_failed retry_submission settle_attempt update_epoch update_transaction
      update_attempt set_submission record_event
  epochs-mark_failed code message block now = ground arith

module _ (chain : Chain) (call : SetterCall) (c : ClaimedWeightEpoch) (db : Db) where
  -- The claimed epoch's rows are settled.
  abbrev AllSettled : Db → Type 0
  AllSettled db' = All (λ e. e.id ≡ c.epoch_id → IsSettled chain call c.netuid e) db'.weight_epochs

  mark_failed-AllSettled :
      (code message : String)
      → AllSettled (mark_failed c code message call.current_block call.now db)
  mark_failed-AllSettled code message = rw epochs-mark_failed (
      update-All (λ e. e.id ≡ c.epoch_id → IsSettled chain call c.netuid e) _ _ db.weight_epochs
        (λ e hit same. inr (refl, refl, refl)) (λ e miss same. ground (arith, miss, same)))

  mark_success-AllSettled :
      (payload : WeightPayload) (result : SetWeightsResult)
      → WasAccepted chain c.netuid payload.uids payload.weights
      → AllSettled (mark_success c payload result call.current_block call.now db)
  mark_success-AllSettled payload result accepted = rw epochs-mark_success (
      update-All (λ e. e.id ≡ c.epoch_id → IsSettled chain call c.netuid e) _ _ db.weight_epochs
        (λ e hit same. inl (refl, accepted)) (λ e miss same. ground (arith, miss, same)))

  settle-AllSettled :
      (r : Result String (WeightPayload × SetWeightsResult))
      → ((payload : WeightPayload) (result : SetWeightsResult)
          → r ≡ ok (payload, result)
          → IsAccepted payload.uids payload.weights
            × (chain.set_weights c.netuid payload.uids payload.weights ≡ ok result))
      → AllSettled (settle call c r db)
  unfolding settle mark_success
  settle-AllSettled (err message) sent = mark_failed-AllSettled _ message
  settle-AllSettled (ok (payload, result)) sent = elim (Bool-cases result.success) [
    | inl taken ↦
        let (valid, answer) = sent payload result refl in
        rw taken (mark_success-AllSettled payload result (valid, result, answer, taken))
    | inr refused ↦ rw refused (elim (Bool-cases (str_eq result.message "")) [
      | inl empty ↦ rw empty (mark_failed-AllSettled _ _)
      | inr given ↦ rw given (mark_failed-AllSettled _ _)
    ])
  ]

-- After a call that claimed an epoch, the epoch is settled, whatever other workers wrote in the
-- meantime: it is FAILED_RETRYABLE with a chain fault, or SUCCESS, and then the chain accepted the
-- stored uids and weights, and they are valid.
pub run_once-AllSettled :
    (call : SetterCall) (chain : Chain) (others others' : Db → Db) (db : Db)
    (c : ClaimedWeightEpoch)
    → (claim_next_epoch call db).1 ≡ some c
    → ((run_once call chain others others' db).1 ≡ true)
      × All
          (λ e. e.id ≡ c.epoch_id → IsSettled chain call c.netuid e)
          (run_once call chain others others' db).0.weight_epochs
unfolding run_once
run_once-AllSettled call chain others others' db c claimed =
    rw (run_once, claimed)
      (
        refl,
        settle-AllSettled chain call c _ _
            (submit-ok chain call c (others (claim_next_epoch call db).0)),
      )
