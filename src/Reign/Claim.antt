-- ===== src/Reign/Claim.antt =====
-- `promote_next_winner` up to the claim: what the environment supplies, which submission is
-- claimed, and what the claim writes.
pub mod Laws
use albedo.Prelude.{
  ltb, leb, ◌==◌, select, update, any, first_by, max_of, ℕ, ◌+◌, ◌*◌, max, min, String, Bool, true,
  false, ◌&&◌, ◌||◌, not, Option, none, some, List, [], ◌∷◌, ◌++◌,
}
use albedo.Tables.{
  Stage, set_reign, AttemptState, Db, Fault, StageAttempt, Submission, SubmissionState, same_stage,
  eval_win, running, set_reign_retryable, set_reign_running,
}
use albedo.Reign.Plan.{PlannedReignMember}

pub record WeightPolicy : Type 0 where
  pub policy : String
  pub reign_version : ℕ
  pub genesis_rule : String
  pub max_slots : ℕ
  pub member_count : ℕ
  pub empty_reign_burn_uid : ℕ
  -- by the slot's number
  pub slot_weight_bps : List (ℕ × ℕ)

-- What `_weight_hash` encodes as JSON and digests.
pub record HashPayload : Type 0 where
  pub netuid : ℕ
  pub reign_version : ℕ
  pub members : List PlannedReignMember
  pub weight_policy : WeightPolicy

-- What one call is given: its arguments, the clock in seconds, the answers of the two locks, the
-- values of `uuid4()`, and the digest of json and hashlib.
pub record Call : Type 0 where
  pub worker_id : String
  pub lease_seconds : ℕ
  pub now : ℕ
  -- pg_try_advisory_xact_lock(hashtext('reign_promotion'))
  pub locked : Bool
  -- submissions that SKIP LOCKED passes over
  pub is_skipped : ℕ → Bool
  pub attempt_id : ℕ
  pub king_version_id : ℕ
  pub reign_id : ℕ
  pub member_row_id : ℕ → ℕ
  pub epoch_id : ℕ
  pub sha256_json : HashPayload → String

-- LEAST(GREATEST(retry_count, 1), 60) * interval '60 seconds'
unfoldable pub backoff_seconds : ℕ → ℕ
backoff_seconds retry_count = min (max retry_count 1) 60 * 60

unfoldable pub is_claimable : ℕ → Submission → Bool
unfolding backoff_seconds
is_claimable now s = elim s.state [
  | SubmissionState.eval_win ↦ true
  | SubmissionState.set_reign_retryable ↦ leb (s.updated_at + backoff_seconds s.retry_count) now
  | _ ↦ false
]

-- ORDER BY priority ASC, created_at ASC
unfoldable pub by_priority : Submission → Submission → Bool
by_priority a b =
    ltb a.priority b.priority || (a.priority == b.priority && ltb a.created_at b.created_at)

unfoldable pub next_submission : Call → Db → Option Submission
unfolding is_claimable by_priority
next_submission call db =
    first_by by_priority
      (select (λ s. is_claimable call.now s && not (call.is_skipped s.id)) db.submissions)

-- `_next_attempt_number`
unfoldable pub next_attempt_number : Db → ℕ → Stage → ℕ
next_attempt_number db submission_id stage =
    max_of (λ a. a.attempt_number)
      (select (λ a. (a.submission_id == submission_id) && same_stage a.stage stage)
        db.stage_attempts)
    + 1

unfoldable pub is_running_state : AttemptState → Bool
is_running_state AttemptState.running = true
is_running_state _ = false

-- stage_attempts_one_active_per_stage_uidx (schema.sql): a submission has one active attempt of a
-- stage, and the INSERT of a second one raises. No service makes an attempt CLAIMED.
unfoldable pub has_active_attempt : Db → ℕ → Stage → Bool
unfolding is_running_state
has_active_attempt db submission_id stage =
    any
      (λ a.
        (a.submission_id == submission_id) && same_stage a.stage stage && is_running_state a.state)
      db.stage_attempts

-- An UPDATE of one submission by its id, which sets its state and its fault columns.
unfoldable pub set_submission : ℕ → SubmissionState → Option Fault → ℕ → Db → Db
set_submission id state fault now db = record db {
  submissions =
      update (λ s. s.id == id) (λ s. record s { state = state; fault = fault; updated_at = now })
        db.submissions;
}

-- An UPDATE of one stage attempt by its id.
unfoldable pub update_attempt : ℕ → (StageAttempt → StageAttempt) → Db → Db
update_attempt id f db = record db { stage_attempts = update (λ a. a.id == id) f db.stage_attempts }

-- `_record_event`
unfoldable pub record_event : ℕ → Option ℕ → String → Db → Db
record_event submission_id stage_attempt_id event_type db = record db {
  events =
      db.events
      ++ record {
        submission_id = submission_id;
        stage_attempt_id = stage_attempt_id;
        event_type = event_type;
      }
        ∷ [];
}

unfoldable pub claim : Call → Submission → Db → Db
unfolding set_submission record_event
claim call s db =
    let attempt : StageAttempt = record {
      id = call.attempt_id;
      submission_id = s.id;
      stage = set_reign;
      attempt_number = next_attempt_number db s.id set_reign;
      state = AttemptState.running;
      worker_id = call.worker_id;
      lease_expires_at = some (call.now + call.lease_seconds);
      finished_at = none;
      fault = none;
    } in
    record_event s.id (some call.attempt_id) "set_reign_claimed" (
      set_submission s.id SubmissionState.set_reign_running none call.now
        (record db { stage_attempts = db.stage_attempts ++ attempt ∷ [] }))
