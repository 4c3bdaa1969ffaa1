-- ===== src/Evals/Claim.antt =====
-- `claim_next_eval` (src/albedo_eval_service/control/repository.py).
use albedo.Prelude.{
  ltb, leb, ◌==◌, if◌then◌else◌, length, select, find?, any, first_by, max_of, ℕ, zero, suc, ◌+◌,
  String, Bool, true, false, ◌&&◌, ◌||◌, not, Option, none, some, [], ◌∷◌, ◌++◌, str_eq,
}
use albedo.Evals.{
  Attempt, AttemptState, ChainCommit, EvalDb, EvalRun, Host, LeadKing, RunState, Submission,
  SubmissionState, record_event, set_submission,
}

unfoldable pub is_queued : Submission → Bool
is_queued s = elim s.state [ SubmissionState.eval_queued ↦ true | _ ↦ false ]

unfoldable pub is_running : Submission → Bool
is_running s = elim s.state [ SubmissionState.eval_running ↦ true | _ ↦ false ]

unfoldable pub is_pending_reign : Submission → Bool
is_pending_reign s = elim s.state [
  | SubmissionState.eval_win ↦ true
  | SubmissionState.set_reign_running ↦ true
  | _ ↦ false
]

-- _SCORED_OR_BEYOND
unfoldable pub is_scored : Submission → Bool
is_scored s = elim s.state [
  | SubmissionState.eval_running ↦ true
  | SubmissionState.eval_win ↦ true
  | SubmissionState.set_reign_running ↦ true
  | SubmissionState.reign_set ↦ true
  | SubmissionState.weight_set_running ↦ true
  | SubmissionState.complete_loss ↦ true
  | SubmissionState.complete_coronated ↦ true
  | _ ↦ false
]

-- What a call is given: the answer of the advisory lock, the locked rows, the ids that it draws, and
-- whether `request_builder` returns.
pub record ClaimCall : Type 0 where
  pub is_free : Bool
  pub is_locked : Submission → Bool
  pub is_host_locked : Host → Bool
  pub attempt_id : ℕ
  pub eval_run_id : ℕ
  pub now : ℕ
  pub lease_seconds : ℕ
  pub worker_id : String
  pub is_built : Submission → LeadKing → Host → Bool
  pub sample_count : ℕ

-- The commits that a submission joins.
unfoldable pub is_commit_of : Submission → ChainCommit → Bool
is_commit_of s c = elim s.chain_commit_id [ none ↦ false | some id ↦ c.id == id ]

unfoldable pub has_block_hash : EvalDb → Submission → Bool
unfolding is_commit_of
has_block_hash db s =
    any (λ c. is_commit_of s c && (elim c.block_hash [ none ↦ false | some _ ↦ true ]))
      db.chain_commits

-- ORDER BY priority ASC, created_at ASC
unfoldable pub by_priority : Submission → Submission → Bool
by_priority s t =
    ltb s.priority t.priority || ((s.priority == t.priority) && ltb s.created_at t.created_at)

unfoldable pub is_candidate : ClaimCall → EvalDb → Submission → Bool
unfolding is_queued has_block_hash
is_candidate call db s = is_queued s && has_block_hash db s && not (call.is_locked s)

unfoldable pub next_queued : ClaimCall → EvalDb → Option Submission
unfolding is_candidate by_priority
next_queued call db = first_by by_priority (select (is_candidate call db) db.submissions)

-- LEFT JOIN miners, with the test on registration_block.
unfoldable pub is_of_registration : EvalDb → String → ChainCommit → Bool
is_of_registration db hotkey c = elim (find? (λ m. str_eq m.hotkey hotkey) db.miners) [
  | none ↦ true
  | some m ↦ elim m.registration_block [ none ↦ true | some block ↦ leb block c.block_number ]
]

-- `_hotkey_already_scored_inside_tx`
unfoldable pub hotkey_already_scored : EvalDb → String → Bool
unfolding is_scored is_commit_of is_of_registration
hotkey_already_scored db hotkey =
    any
      (λ s.
        str_eq s.hotkey hotkey
        && is_scored s
        && any (λ c. is_commit_of s c && is_of_registration db hotkey c) db.chain_commits)
      db.submissions

unfoldable pub reject : ℕ → Submission → Submission
reject now s = record s {
  state = SubmissionState.terminal_invalid;
  fault = some (record { class = "MINER_FAULT"; code = "hotkey_already_validated" });
  updated_at = now;
  finished_at = some now;
}

-- `_reject_hotkey_already_validated_inside_tx`
unfoldable pub reject_already_validated : ℕ → Submission → EvalDb → EvalDb
unfolding set_submission reject record_event
reject_already_validated now s db =
    record_event s.id none "eval_skipped_hotkey_already_validated" s.hotkey
      (set_submission s.id (reject now) db)

-- The `while True`: the tables after the rejections, and the submission to claim. Without an end on
-- this fuel it is none.
unfoldable pub find_candidate : ℕ → ClaimCall → EvalDb → Option (EvalDb × Option Submission)
unfolding next_queued hotkey_already_scored reject_already_validated
find_candidate zero call db = none
find_candidate (suc fuel) call db = elim (next_queued call db) [
  | none ↦ some (db, none)
  | some s ↦ elim (hotkey_already_scored db s.hotkey) [
    | true ↦ find_candidate fuel call (reject_already_validated call.now s db)
    | false ↦ some (db, some s)
  ]
]

-- ORDER BY free_gpu_count DESC, last_heartbeat_at DESC
unfoldable pub by_free_gpus : Host → Host → Bool
by_free_gpus h k =
    ltb k.free_gpu_count h.free_gpu_count
    || ((h.free_gpu_count == k.free_gpu_count) && ltb k.last_heartbeat_at h.last_heartbeat_at)

unfoldable pub next_host : ClaimCall → EvalDb → Option Host
unfolding by_free_gpus
next_host call db = first_by by_free_gpus (
    select (λ h. h.is_eval && h.is_ready && leb 8 h.free_gpu_count && not (call.is_host_locked h))
      db.hosts)

-- ORDER BY r.version DESC LIMIT 1
unfoldable pub lead_king : EvalDb → Option LeadKing
lead_king db = first_by (λ k l. ltb l.reign_version k.reign_version) db.lead_kings

unfoldable pub make_retryable : ℕ → String → String → Submission → Submission
make_retryable now class code s = record s {
  state = SubmissionState.eval_retryable;
  fault = some (record { class = class; code = code });
  retry_count = s.retry_count + 1;
  updated_at = now;
}

-- `_next_attempt_number`, for the stage EVAL.
unfoldable pub next_attempt_number : ℕ → EvalDb → ℕ
next_attempt_number submission_id db =
    max_of (λ a. a.attempt_number)
      (select (λ a. (a.submission_id == submission_id) && a.is_eval) db.attempts)
    + 1

unfoldable pub start_running : ℕ → Submission → Submission
start_running now s = record s {
  state = SubmissionState.eval_running;
  updated_at = now;
  fault = none;
}

unfoldable pub new_attempt : ClaimCall → Submission → EvalDb → Attempt
unfolding next_attempt_number
new_attempt call s db = record {
  id = call.attempt_id;
  submission_id = s.id;
  is_eval = true;
  attempt_number = next_attempt_number s.id db;
  state = AttemptState.running;
  lease_expires_at = call.now + call.lease_seconds;
  finished_at = none;
  fault = none;
}

unfoldable pub new_run : ClaimCall → Submission → LeadKing → Host → EvalRun
new_run call s king host = record {
  id = call.eval_run_id;
  submission_id = s.id;
  stage_attempt_id = call.attempt_id;
  king_submission_id = king.king_submission_id;
  king_model_hash = king.model_hash;
  remote_host_id = host.id;
  remote_run_id = none;
  state = RunState.dispatched;
  challenger_won = none;
  sample_count = call.sample_count;
  generated_sample_count = 0;
  scored_sample_count = 0;
  started_at = call.now;
  finished_at = none;
  fault = none;
}

-- The writes of a claim.
unfoldable pub dispatch_eval : ClaimCall → Submission → LeadKing → Host → EvalDb → EvalDb
unfolding record_event set_submission start_running new_attempt new_run
dispatch_eval call s king host db =
    let db' = set_submission s.id (start_running call.now) db in
    record_event s.id (some call.attempt_id) "eval_claimed" call.worker_id (record db' {
      attempts = db.attempts ++ new_attempt call s db ∷ [];
      runs = db.runs ++ new_run call s king host ∷ [];
    })

-- The answer: nothing, the claimed submission, or that the call raised.
pub data ClaimAnswer : Type 0 where
  nothing_claimed claim_raised : ClaimAnswer
  claimed : Submission → LeadKing → Host → ClaimAnswer

-- The method behind its loop, on the tables that the loop left; `before` are the tables that an
-- exception restores.
unfoldable pub claim_with :
    ClaimCall → EvalDb → Submission → Option Host → Option LeadKing → EvalDb → EvalDb × ClaimAnswer
unfolding set_submission make_retryable dispatch_eval
claim_with call before s none king db = (db, nothing_claimed)
claim_with call before s (some host) none db = (
  set_submission s.id (make_retryable call.now "INFRA_FAULT" "missing_active_lead_king") db,
  nothing_claimed,
)
claim_with call before s (some host) (some king) db = elim (call.is_built s king host) [
  | false ↦ (before, claim_raised)
  | true ↦ (dispatch_eval call s king host db, claimed s king host)
]

unfoldable pub claim_found : ClaimCall → EvalDb → EvalDb × Option Submission → EvalDb × ClaimAnswer
unfolding claim_with next_host lead_king
claim_found call before (db, none) = (db, nothing_claimed)
claim_found call before (db, some s) =
    claim_with call before s (next_host call db) (lead_king db) db

unfoldable pub claim_after :
    ClaimCall → EvalDb → Option (EvalDb × Option Submission) → Option (EvalDb × ClaimAnswer)
unfolding claim_found
claim_after call before none = none
claim_after call before (some found) = some (claim_found call before found)

-- `claim_next_eval`; none if the loop does not end on the fuel of one round for each submission and one
-- more.
unfoldable pub claim_next_eval : ClaimCall → EvalDb → Option (EvalDb × ClaimAnswer)
unfolding is_running is_pending_reign find_candidate claim_after
claim_next_eval call db =
    if not call.is_free || any is_running db.submissions || any is_pending_reign db.submissions
    then some (db, nothing_claimed)
    else claim_after call db (find_candidate (suc (length db.submissions)) call db)
