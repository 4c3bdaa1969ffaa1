-- ===== src/Reign/Promote.antt =====
-- `promote_next_winner`: the two ways in which a claimed submission leaves the transaction, and
-- the whole method.
pub mod Cases
pub mod Reigns
pub mod Coronation
pub mod Safety
pub mod SentBack
use albedo.Prelude.{
  ◌==◌, if◌then◌else◌, length, update, find?, any, max_of, ok, err, ℕ, ◌+◌, String, Bool, true,
  false, ◌&&◌, not, none, some, List, [], ◌∷◌, ◌++◌, map, str_eq,
}
use albedo.Tables.{
  Db, AttemptState, SubmissionState, EpochState, EpochReason, ReignState, ReignReason,
  replaced_duplicate, shifted_out, Fault, KingVersion, MemberRow, Reign, Submission, WeightEpoch,
  active, coronation, failed_retryable, pending, reign_set, set_reign_retryable, succeeded,
  superseded, set_reign,
}
use albedo.Reign.Checks.{Promotion, examine}
use albedo.Reign.Claim.{
  Call, WeightPolicy, claim, next_submission, record_event, set_submission, update_attempt,
  has_active_attempt,
}
use albedo.Reign.Plan.{
  PlannedReignMember, ReignMember, build_reign_plan, retired_members, weight_epoch_payload,
}
use albedo.Private.Steps.{activated_by}

bump_retry_count : ℕ → Db → Db
bump_retry_count id db = record db {
  submissions =
      update (λ s. s.id == id) (λ s. record s { retry_count = s.retry_count + 1 }) db.submissions;
}

-- `_mark_retryable`
unfoldable pub mark_retryable : Call → Submission → Fault → Db → Db
unfolding update_attempt bump_retry_count
mark_retryable call s fault db =
    record_event s.id (some call.attempt_id) "set_reign_failed_retryable" (
      bump_retry_count s.id (
        set_submission s.id SubmissionState.set_reign_retryable (some fault) call.now (
          update_attempt call.attempt_id
            (λ a. record a {
              state = AttemptState.failed_retryable;
              finished_at = some call.now;
              lease_expires_at = none;
              fault = some fault;
            })
            db)))

-- `_weight_policy`
weight_policy : ℕ → List PlannedReignMember → WeightPolicy
weight_policy reign_version planned = record {
  policy = "five_king_genesis_split_v1";
  reign_version = reign_version;
  genesis_rule = "new_challenger_slot_1; shift_existing_down; split_weight_evenly";
  max_slots = 5;
  member_count = length planned;
  empty_reign_burn_uid = 0;
  slot_weight_bps = map (λ p. (p.slot, p.weight_bps)) planned;
}

-- `_weight_hash`
weight_hash : Call → ℕ → ℕ → List PlannedReignMember → String
unfolding weight_policy
weight_hash call netuid reign_version planned = call.sha256_json (record {
  netuid = netuid;
  reign_version = reign_version;
  members = planned;
  weight_policy = weight_policy reign_version planned;
})

-- INSERT ... ON CONFLICT (netuid, weight_hash) DO NOTHING
unfoldable pub insert_epoch : WeightEpoch → Db → Db
insert_epoch epoch db =
    if any (λ e. (e.netuid == epoch.netuid) && str_eq e.weight_hash epoch.weight_hash)
      db.weight_epochs
    then db
    else record db { weight_epochs = db.weight_epochs ++ epoch ∷ [] }

unfoldable pub member_row : Call → PlannedReignMember → MemberRow
member_row call p = record {
  id = call.member_row_id p.slot;
  reign_id = call.reign_id;
  slot = p.slot;
  king_version_id = p.member.king_version_id;
  submission_id = p.member.submission_id;
  hotkey = p.member.hotkey;
  uid = p.member.uid;
  model_hash = p.member.model_hash;
  weight_bps = p.weight_bps;
}

unfoldable pub new_reign : Call → Submission → Promotion → ℕ → Reign
new_reign call s found version = record {
  id = call.reign_id;
  version = version;
  reason = ReignReason.coronation;
  trigger_eval_run_id = some found.run.id;
  trigger_submission_id = some s.id;
  previous_reign_id = some found.old_reign.id;
  state = ReignState.active;
}

-- UPDATE reigns SET state = 'SUPERSEDED', then the INSERT of the new reign.
unfoldable pub replace_reign : Reign → Reign → List Reign → List Reign
replace_reign old new reigns =
    update (λ r. r.id == old.id) (λ r. record r { state = ReignState.superseded }) reigns
    ++ new ∷ []

-- The UPDATE of king_versions for the retired members, and its CASE.
retire : ℕ → ℕ → List ReignMember → List KingVersion → List KingVersion
retire submission_id now members =
    update
      (λ k.
        any (λ (m : ReignMember). m.king_version_id == k.id) members
        && elim k.retired [ none ↦ true | some _ ↦ false ])
      (λ k. record k {
        retired =
            some
              (now, if k.submission_id == submission_id then replaced_duplicate else shifted_out);
      })

unfoldable pub challenger_member : Call → Submission → ReignMember
challenger_member call s = record {
  king_version_id = call.king_version_id;
  submission_id = s.id;
  hotkey = s.hotkey;
  uid = s.uid;
  model_hash = s.model_hash;
  previous_slot = none;
}

unfoldable pub coronation_epoch : Call → Submission → ℕ → List PlannedReignMember → WeightEpoch
unfolding weight_hash weight_epoch_payload
coronation_epoch call s version planned =
    let (uids, weights) = weight_epoch_payload planned in
    record {
      id = call.epoch_id;
      netuid = s.netuid;
      reason = EpochReason.coronation;
      reign_id = some call.reign_id;
      state = EpochState.pending;
      uids = uids;
      weights = weights;
      weight_hash = weight_hash call s.netuid version planned;
      attempt_count = 0;
      last_fault_class = none;
      last_fault_code = none;
      created_at = call.now;
      updated_at = call.now;
      succeeded_at = none;
    }

-- Every write of a coronation, for the plan and the slot of the challenger.
unfoldable pub crown : Call → Submission → Promotion → List PlannedReignMember → ℕ → Db → Db
unfolding update_attempt replace_reign retire insert_epoch new_reign member_row coronation_epoch
crown call s found planned slot db =
    let king : KingVersion = record {
      id = call.king_version_id;
      submission_id = s.id;
      model_hash = s.model_hash;
      artifact_id = found.artifact.id;
      eval_run_id = some found.run.id;
      version = max_of (λ k. k.version) db.king_versions + 1;
      entered_reign_id = call.reign_id;
      entered_slot = slot;
      activated_by = call.worker_id;
      retired = none;
    } in
    let version = max_of (λ (r : Reign). r.version) db.reigns + 1 in
    let written : Db = record db {
      king_versions =
          retire s.id call.now (retired_members found.members planned)
            (db.king_versions ++ king ∷ []);
      reigns = replace_reign found.old_reign (new_reign call s found version) db.reigns;
      reign_members = db.reign_members ++ map (member_row call) planned;
    } in
    record_event s.id (some call.attempt_id) "reign_set" (
      set_submission s.id SubmissionState.reign_set none call.now (
        update_attempt call.attempt_id
          (λ a. record a {
            state = AttemptState.succeeded;
            finished_at = some call.now;
            lease_expires_at = none;
          })
          (insert_epoch (coronation_epoch call s version planned) written)))

-- What a call of the method came to. An exception rolls the transaction back.
pub data Outcome : Type 0 where
  returned : Bool → Outcome
  raised : Outcome

unfoldable pub promote_found : Call → Submission → Promotion → Db → Db → Db × Outcome
unfolding challenger_member
promote_found call s found before db =
    elim (build_reign_plan found.members (challenger_member call s)) [
      | err _ ↦ (before, raised)
      | ok planned ↦ elim (find? (λ p. p.is_challenger) planned) [
        | none ↦ (before, raised)
        | some p ↦ (crown call s found planned p.slot db, returned true)
      ]
    ]

unfoldable pub promote_claimed : Call → Submission → Db → Db × Outcome
promote_claimed call s before =
    if has_active_attempt before s.id set_reign
    then (before, raised)
    else (let db = claim call s before in
        elim (examine db s) [
          | err fault ↦ (mark_retryable call s fault db, returned true)
          | ok found ↦ promote_found call s found before db
        ])

unfoldable pub promote_next_winner : Call → Db → Db × Outcome
promote_next_winner call db =
    if not call.locked then (db, returned false) else elim (next_submission call db) [
      | none ↦ (db, returned false)
      | some s ↦ promote_claimed call s db
    ]
