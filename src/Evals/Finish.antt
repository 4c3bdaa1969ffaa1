-- ===== src/Evals/Finish.antt =====
-- The ends of an evaluation (src/albedo_eval_service/control/repository.py): mark_eval_succeeded,
-- mark_eval_failed, sweep_abandoned_eval_attempts; and the queueing: queue_pre_eval_passed,
-- requeue_retryable_evals; the lease and the remote events.
use albedo.Prelude.{
  ◌==◌, if◌then◌else◌, update, any, count, ℕ, ◌+◌, String, Bool, true, false, ◌&&◌, not, Option,
  none, some,
}
use albedo.Evals.{
  Attempt, AttemptState, EvalDb, EvalRun, Fault, RunState, Submission, SubmissionState,
  record_event, set_attempt, set_run, set_submission,
}

unfoldable pub is_running_attempt : ℕ → Attempt → Bool
is_running_attempt id a = (a.id == id) && (elim a.state [ AttemptState.running ↦ true | _ ↦ false ])

-- What a call finalises: a submission, its attempt and its run.
pub record EvalIds : Type 0 where
  pub submission_id : ℕ
  pub attempt_id : ℕ
  pub eval_run_id : ℕ

-- The fields of the verdict that the states depend on; a count that is None keeps the old one.
pub record Verdict : Type 0 where
  pub challenger_won : Option Bool
  pub generated_sample_count : Option ℕ
  pub scored_sample_count : Option ℕ
  pub payload : String

unfoldable pub is_true : Option Bool → Bool
is_true none = false
is_true (some b) = b

unfoldable pub or_else : Option ℕ → ℕ → ℕ
or_else none n = n
or_else (some m) n = m

-- UPDATE stage_attempts ... WHERE id AND state = 'RUNNING'
unfoldable pub finish_attempt : ℕ → (Attempt → Attempt) → EvalDb → EvalDb
unfolding is_running_attempt
finish_attempt id f db = record db { attempts = update (is_running_attempt id) f db.attempts }

unfoldable pub succeed_attempt : ℕ → Attempt → Attempt
succeed_attempt now a = record a { state = AttemptState.succeeded; finished_at = some now }

unfoldable pub fail_attempt : ℕ → Bool → Fault → Attempt → Attempt
fail_attempt now retryable fault a = record a {
  state = if retryable then AttemptState.failed_retryable else AttemptState.failed_terminal;
  finished_at = some now;
  fault = some fault;
}

-- A SUCCEEDED run of the submission that the challenger won, other than the one given.
unfoldable pub is_prior_win : EvalIds → EvalRun → Bool
unfolding is_true
is_prior_win ids r =
    (r.submission_id == ids.submission_id)
    && (elim r.state [ RunState.run_succeeded ↦ true | _ ↦ false ])
    && is_true r.challenger_won
    && not (r.id == ids.eval_run_id)

-- The next state of the submission: a first win is to be repeated.
unfoldable pub next_state : Verdict → ℕ → SubmissionState
unfolding is_true
next_state v prior_wins =
    if is_true v.challenger_won
    then if prior_wins == 0 then SubmissionState.eval_queued else SubmissionState.eval_win
    else SubmissionState.complete_loss

unfoldable pub succeed_run : ℕ → Verdict → EvalRun → EvalRun
unfolding or_else
succeed_run now v r = record r {
  state = RunState.run_succeeded;
  generated_sample_count = or_else v.generated_sample_count r.generated_sample_count;
  scored_sample_count = or_else v.scored_sample_count r.scored_sample_count;
  challenger_won = v.challenger_won;
  finished_at = some now;
}

-- The UPDATEs of the submission: the priority of a first win, and the state.
unfoldable pub move_on : ℕ → Verdict → ℕ → Submission → Submission
unfolding next_state is_true
move_on now v prior_wins s = record s {
  state = next_state v prior_wins;
  priority = if is_true v.challenger_won && (prior_wins == 0) then 0 else s.priority;
  updated_at = now;
  finished_at = if is_true v.challenger_won then s.finished_at else some now;
}

-- The writes of mark_eval_succeeded once the attempt is latched.
unfoldable pub settle_success : ℕ → EvalIds → Verdict → EvalDb → EvalDb
unfolding finish_attempt succeed_attempt set_run set_submission record_event move_on succeed_run
    is_prior_win
settle_success now ids v db =
    record_event ids.submission_id (some ids.attempt_id) "eval_succeeded" v.payload (
      set_submission ids.submission_id (move_on now v (count (is_prior_win ids) db.runs)) (
        set_run ids.eval_run_id (succeed_run now v)
          (finish_attempt ids.attempt_id (succeed_attempt now) db)))

-- `mark_eval_succeeded`
unfoldable pub mark_eval_succeeded : ℕ → EvalIds → Verdict → EvalDb → EvalDb
unfolding is_running_attempt settle_success
mark_eval_succeeded now ids v db =
    if any (is_running_attempt ids.attempt_id) db.attempts then settle_success now ids v db else db

unfoldable pub fail_run : ℕ → Bool → Fault → EvalRun → EvalRun
fail_run now retryable fault r = record r {
  state = if retryable then RunState.run_failed_retryable else RunState.run_failed_terminal;
  fault = some fault;
  finished_at = some now;
}

unfoldable pub fail_submission : ℕ → Bool → Fault → Submission → Submission
fail_submission now retryable fault s = record s {
  state = if retryable then SubmissionState.eval_retryable else SubmissionState.terminal_invalid;
  fault = some fault;
  retry_count = s.retry_count + 1;
  updated_at = now;
}

unfoldable pub settle_failure : ℕ → EvalIds → Bool → Fault → String → EvalDb → EvalDb
unfolding finish_attempt fail_attempt set_run set_submission record_event fail_run fail_submission
settle_failure now ids retryable fault payload db =
    record_event ids.submission_id (some ids.attempt_id) "eval_failed" payload (
      set_submission ids.submission_id (fail_submission now retryable fault) (
        set_run ids.eval_run_id (fail_run now retryable fault)
          (finish_attempt ids.attempt_id (fail_attempt now retryable fault) db)))

-- `mark_eval_failed`
unfoldable pub mark_eval_failed : ℕ → EvalIds → Bool → Fault → String → EvalDb → EvalDb
unfolding is_running_attempt settle_failure
mark_eval_failed now ids retryable fault payload db =
    if any (is_running_attempt ids.attempt_id) db.attempts
    then settle_failure now ids retryable fault payload db
    else db

-- `sweep_abandoned_eval_attempts`, for one row of its join: an attempt and the run that names it.
unfoldable pub lease_expired : Fault
lease_expired = record { class = "REMOTE_EVAL_FAULT"; code = "eval_attempt_lease_expired" }

unfoldable pub abandon : ℕ → Attempt → Attempt
unfolding lease_expired
abandon now a = record a {
  state = AttemptState.abandoned;
  finished_at = some now;
  fault = some lease_expired;
}

-- `if row.get("eval_run_id")`
unfoldable pub fail_run_of : ℕ → Option EvalRun → EvalDb → EvalDb
unfolding set_run fail_run lease_expired
fail_run_of now none db = db
fail_run_of now (some r) db = set_run r.id (fail_run now true lease_expired) db

unfoldable pub abandon_attempt : ℕ → String → Attempt → Option EvalRun → EvalDb → EvalDb
unfolding set_attempt set_submission record_event fail_run_of fail_submission lease_expired abandon
abandon_attempt now worker_id a run db =
    record_event a.submission_id (some a.id) "eval_attempt_abandoned" worker_id (
      set_submission a.submission_id (fail_submission now true lease_expired)
        (fail_run_of now run (set_attempt a.id (abandon now) db)))

-- `heartbeat_attempt`
unfoldable pub heartbeat_attempt : ℕ → ℕ → EvalDb → EvalDb
unfolding is_running_attempt
heartbeat_attempt id lease_expires_at db = record db {
  attempts =
      update (is_running_attempt id) (λ a. record a { lease_expires_at = lease_expires_at })
        db.attempts;
}

-- `set_remote_run_id`
unfoldable pub set_remote_run_id : ℕ → String → EvalDb → EvalDb
unfolding set_run
set_remote_run_id id remote_run_id =
    set_run id (λ r. record r { remote_run_id = some remote_run_id })
