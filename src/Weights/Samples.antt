-- ===== src/Weights/Samples.antt =====
-- A small database for the tests of the weight setter: one reign, two epochs that wait for it, and
-- weights that were set at block 1000.
use albedo.Prelude.{
  ◌==◌, if◌then◌else◌, select, update, find?, any, count, pick, first_by, insert_by, sort_by, ok, ℕ,
  String, true, false, Option, none, some, [], ◌∷◌,
}
use albedo.Reign.Samples.{before}
use albedo.Tables.{EpochReason, EpochState, TransactionState, WeightEpoch, WeightTransaction, Db}
use albedo.Weights.Setter.{Chain, SetWeightsResult, active_reign_members, send, submit}
use albedo.Weights.Claim.{
  claim_epoch, claim_next_epoch, insert_transaction, record_claimed, run_epoch, start_attempt,
  is_blocked,
}
use albedo.Weights.Epochs.{
  ClaimedWeightEpoch, SetterCall, block_of, by_block, by_newest_epoch, choose_epoch,
  create_refresh_epoch, is_candidate, is_marker, is_open, is_rate_limited, is_too_soon, is_waiting,
  newest_open_epoch, refresh_conflict, refresh_epoch, refresh_uids, refresh_weights, reign_rows,
  supersede, trigger_of,
}
use albedo.Weights.Payload.{
  add_weight, build_weight_payload, burn_first, by_member_slot, final_tally, is_registered, pack,
  tally, tally_member, validate_weight_payload, with_burned, WeightMember, WeightPayload, is_off,
}
use albedo.Reign.Checks.{active_reign, by_slot}
use albedo.Reign.Claim.{next_attempt_number, record_event, has_active_attempt}

abbrev pub old_epoch : WeightEpoch
old_epoch = record {
  id = 10;
  netuid = 97;
  reason = EpochReason.coronation;
  reign_id = some 500;
  state = EpochState.success;
  uids = 7 ∷ [];
  weights = 10000 ∷ [];
  weight_hash = "sha256:old";
  attempt_count = 1;
  last_fault_class = none;
  last_fault_code = none;
  created_at = 5;
  updated_at = 6;
  succeeded_at = some 6;
}

abbrev pub older_epoch : WeightEpoch
older_epoch = record old_epoch {
  id = 11;
  state = EpochState.pending;
  weight_hash = "sha256:older";
  created_at = 20;
  succeeded_at = none;
}

abbrev pub newer_epoch : WeightEpoch
newer_epoch = record older_epoch { id = 12; weight_hash = "sha256:newer"; created_at = 30 }

abbrev pub old_transaction : WeightTransaction
old_transaction = record {
  id = 20;
  weight_epoch_id = 10;
  stage_attempt_id = none;
  wallet_hotkey = "5Wallet";
  state = TransactionState.success;
  extrinsic_hash = none;
  block_number = some 1000;
  fault = none;
}

abbrev pub waiting : Db
waiting = record before {
  weight_epochs = old_epoch ∷ older_epoch ∷ newer_epoch ∷ [];
  weight_transactions = old_transaction ∷ [];
}

abbrev pub setter : SetterCall
setter = record {
  worker_id = "weight-setter-1";
  wallet_hotkey = "5Wallet";
  current_block = 1500;
  rate_limit_blocks = 360;
  netuid = 97;
  burn_uid = 0;
  now = 100;
  locked = true;
  is_skipped = λ id. false;
  stage_attempt_id = 1001;
  transaction_id = 21;
  refresh_epoch_id = 13;
  sha256_json = λ payload. "sha256:refresh";
}

-- The refresh epoch of this window, which failed a second ago.
abbrev pub failed_refresh : WeightEpoch
failed_refresh = record old_epoch {
  id = 13;
  state = EpochState.failed_retryable;
  reason = EpochReason.periodic_refresh;
  weight_hash = "sha256:refresh";
  updated_at = 99;
  succeeded_at = none;
}

abbrev pub failing : Db
failing = record waiting { weight_epochs = old_epoch ∷ failed_refresh ∷ [] }

-- A chain where the king is registered, and that accepts every extrinsic.
abbrev pub accepted : SetWeightsResult
accepted = record { success = true; message = ""; extrinsic_hash = none }

abbrev pub willing : Chain
willing = record {
  hotkey_by_uid = λ netuid. ok (λ uid. if uid == 7 then some "5King" else none);
  set_weights = λ netuid uids weights. ok accepted;
}

abbrev pub claim_of_newer : ClaimedWeightEpoch
claim_of_newer = record {
  epoch_id = 12;
  transaction_id = 21;
  stage_attempt_id = some 1001;
  reign_id = some 500;
  trigger_submission_id = some 1;
  netuid = 97;
}

abbrev pub king : WeightMember
king = record { slot = 1; uid = 7; hotkey = "5King"; weight_bps = 5000 }

-- A member whose uid another hotkey holds now.
abbrev pub gone : WeightMember
gone = record { slot = 2; uid = 8; hotkey = "5Gone"; weight_bps = 5000 }

abbrev pub hotkeys : ℕ → Option String
hotkeys uid = if uid == 7 then some "5King" else some "5Other"

abbrev pub payload : WeightPayload
payload = record {
  uids = 7 ∷ [];
  weights = 10000 ∷ [];
  policy = record {
    burn_uid = 0;
    deregistered_slots = [];
    submitted_members = record king { weight_bps = 10000 } ∷ [];
    empty_reign_burned = false;
  };
}

-- The next call, a block later.
abbrev pub early : SetterCall
early = record setter { current_block = 1501 }

-- What a run of the setter computes with.
unfoldable pub setter_program : Unit {0}
unfolding claim_next_epoch choose_epoch newest_open_epoch is_too_soon is_marker is_rate_limited
    by_block block_of is_candidate is_open by_newest_epoch is_waiting supersede trigger_of
    create_refresh_epoch refresh_conflict refresh_epoch reign_rows refresh_uids refresh_weights
    claim_epoch start_attempt run_epoch insert_transaction record_claimed record_event first_by pick
    select update find? any sort_by insert_by count next_attempt_number active_reign submit send
    active_reign_members build_weight_payload tally tally_member add_weight is_registered
    with_burned final_tally pack burn_first by_member_slot by_slot validate_weight_payload is_off
    is_blocked has_active_attempt
setter_program = tt
