-- ===== src/Weights/Tests.antt =====
-- What the weight setter does on the sample, and the theorems at these inputs.
use albedo.Prelude.{
  ◌==◌, if◌then◌else◌, IsKeyed, sum_of, All, any, ok, ℕ, ◌+◌, ◌≤◌, String, ◌≡◌, refl, ap, ◌≢◌, inl,
  inr, true, false, Option, none, some, [], ◌∷◌, arith, str_eq,
}
use albedo.Weights.Samples.{
  waiting, claim_of_newer, newer_epoch, old_transaction, setter, setter_program, accepted, early,
  failed_refresh, failing, gone, hotkeys, king, payload, willing,
}
use albedo.Weights.Claim.{claim_next_epoch, is_blocked}
use albedo.Weights.Epochs.{
  newest_open_epoch, ClaimedWeightEpoch, block_of, is_marker, is_too_soon, refresh_epoch,
  trigger_of,
}
use albedo.Weights.Claim.Limits.{claim_next_epoch-limit}
use albedo.Weights.Setter.{run_once, submit}
use albedo.Weights.Payload.{build_weight_payload}
use albedo.Weights.Claim.Refresh.{claim_next_epoch-ne-none, claim_next_epoch-reclaims}
use albedo.Weights.Claim.Laws.{IsClaimed, claim_next_epoch-IsClaimed}
use albedo.Weights.Payload.Laws.{earned, lost, paid, paid-build_weight_payload}
use albedo.Weights.Payload.Valid.{IsWellFormed, build_weight_payload-IsWellFormed}
use albedo.Weights.Setter.Laws.{IsSettled, run_once-AllSettled}
use albedo.Weights.Setter.Pauses.{HasClaim, run_once-pauses}
use albedo.Reign.Claim.{has_active_attempt}
use albedo.Tables.{EpochState, TransactionState, WeightEpoch}

claims-newer : (claim_next_epoch setter waiting).1 ≡ some claim_of_newer
unfolding setter_program
claims-newer = refl

finds-newer : newest_open_epoch setter waiting ≡ some newer_epoch
unfolding setter_program
finds-newer = refl

old-marks : is_marker 97 waiting old_transaction ≡ true
unfolding setter_program
old-marks = refl

claim_next_epoch-limit_example : block_of old_transaction + 360 ≤ 1500
claim_next_epoch-limit_example =
    claim_next_epoch-limit setter waiting claim_of_newer claims-newer old_transaction (inl refl)
      old-marks

claim_next_epoch-IsClaimed_example :
    (claim_of_newer.epoch_id ≡ newer_epoch.id)
    × IsClaimed setter newer_epoch waiting (claim_next_epoch setter waiting).0
claim_next_epoch-IsClaimed_example =
    claim_next_epoch-IsClaimed setter waiting newer_epoch claim_of_newer finds-newer claims-newer

not_too_soon : is_too_soon setter waiting ≡ false
unfolding setter_program
not_too_soon = refl

waiting-free : (o : Option ℕ) → is_blocked waiting o ≡ false
unfolding is_blocked has_active_attempt any
waiting-free none = refl
waiting-free (some id) = refl

claim_next_epoch-ne-none_example : (claim_next_epoch setter waiting).1 ≢ none
claim_next_epoch-ne-none_example =
    claim_next_epoch-ne-none setter waiting refl not_too_soon
      (λ e _. waiting-free (trigger_of waiting e.reign_id))

failing-due : is_too_soon setter failing ≡ false
unfolding setter_program
failing-due = refl

failing-idle : newest_open_epoch setter failing ≡ none
unfolding setter_program
failing-idle = refl

failing-IsKeyed :
    IsKeyed {K = ℕ × String} (λ (o : WeightEpoch). (o.netuid, o.weight_hash)) failing.weight_epochs
failing-IsKeyed = (
  (
    (λ (e : ◌≡◌ {A = ℕ × String} (97, "sha256:refresh") (97, "sha256:old")).
        let wrong : false ≡ true = ap (λ (k : ℕ × String). str_eq (k.1) "sha256:old") e in cc),
    tt,
  ),
  (tt, tt),
)

failing-hash : failed_refresh.weight_hash ≡ (refresh_epoch setter failing).weight_hash
unfolding setter_program
failing-hash = refl

claim_next_epoch-reclaims_example :
    (c : ClaimedWeightEpoch) × ((claim_next_epoch setter failing).1 ≡ some c)
    × (c.epoch_id ≡ 13)
    × All
        (λ o. o.id ≡ 13 → o.state ≡ EpochState.running)
        (claim_next_epoch setter failing).0.weight_epochs
claim_next_epoch-reclaims_example =
    claim_next_epoch-reclaims setter failing failed_refresh refl failing-due failing-idle
      failing-IsKeyed (inr (inl refl)) refl failing-hash

run_once-AllSettled_example :
    ((run_once setter willing (λ db. db) (λ db. db) waiting).1 ≡ true)
    × All
        (λ e. e.id ≡ 12 → IsSettled willing setter 97 e)
        (run_once setter willing (λ db. db) (λ db. db) waiting).0.weight_epochs
run_once-AllSettled_example =
    run_once-AllSettled setter willing (λ db. db) (λ db. db) waiting claim_of_newer claims-newer

submits :
    submit willing setter claim_of_newer (claim_next_epoch setter waiting).0
    ≡ ok (payload, accepted)
unfolding setter_program
submits = refl

has_claim : HasClaim 97 claim_of_newer (claim_next_epoch setter waiting).0
unfolding setter_program
has_claim = record {
  epoch = record newer_epoch {
    state = EpochState.running;
    attempt_count = 2;
    updated_at = 100;
    last_fault_class = none;
    last_fault_code = none;
  };
  transaction = record {
    id = 21;
    weight_epoch_id = 12;
    stage_attempt_id = some 1001;
    wallet_hotkey = "5Wallet";
    state = TransactionState.created;
    extrinsic_hash = none;
    block_number = some 1500;
    fault = none;
  };
  epoch_row = inr (inr (inl refl));
  epoch_id = refl;
  epoch_netuid = refl;
  transaction_row = inr (inl refl);
  transaction_id = refl;
  transaction_epoch = refl;
}

run_once-pauses_example :
    (claim_next_epoch early (run_once setter willing (λ db. db) (λ db. db) waiting).0).1 ≡ none
run_once-pauses_example =
    run_once-pauses setter early willing (λ db. db) (λ db. db) waiting claim_of_newer payload
      accepted claims-newer submits refl has_claim (omega arith)

paid-build_weight_payload_example :
    paid 0 (build_weight_payload (king ∷ gone ∷ []) hotkeys 0)
    ≡ sum_of (earned hotkeys 0) (king ∷ gone ∷ [])
      + (if 0 == 0 then sum_of (lost hotkeys) (king ∷ gone ∷ []) else 0)
paid-build_weight_payload_example =
    paid-build_weight_payload (king ∷ gone ∷ []) hotkeys 0 0 (omega arith)

build_weight_payload-IsWellFormed_example :
    IsWellFormed (build_weight_payload (king ∷ gone ∷ []) hotkeys 0)
build_weight_payload-IsWellFormed_example =
    build_weight_payload-IsWellFormed (king ∷ gone ∷ []) hotkeys 0 (omega arith) (omega arith)
