-- ===== src/Evals/Steps.antt =====
-- The operations of the evaluation repository, one transaction after the other in any order: the
-- dispatcher, the reconciler and the sweeps are several processes.
use albedo.Prelude.{ℕ, String, ◌≡◌, Bool, some}
use albedo.Evals.{Attempt, EvalDb, Fault, Submission}
use albedo.Evals.Finish.{
  EvalIds, Verdict, heartbeat_attempt, mark_eval_failed, mark_eval_succeeded, set_remote_run_id,
}
use albedo.Evals.Claim.{ClaimAnswer, ClaimCall, claim_next_eval}
use albedo.Evals.Queue.{
  RemoteEvent, queue_pre_eval_passed, record_remote_event, requeue_retryable_evals, sweep_abandoned,
}

pub data EvalStep : EvalDb → EvalDb → Type 0 where
  claim_step :
      {db db' : EvalDb} {answer : ClaimAnswer} (call : ClaimCall)
      → claim_next_eval call db ≡ some (db', answer)
      → EvalStep db db'
  success_step :
      {db : EvalDb} (now : ℕ) (ids : EvalIds) (v : Verdict)
      → EvalStep db (mark_eval_succeeded now ids v db)
  failure_step :
      {db : EvalDb} (now : ℕ) (ids : EvalIds) (retryable : Bool) (fault : Fault) (payload : String)
      → EvalStep db (mark_eval_failed now ids retryable fault payload db)
  sweep_step :
      {db : EvalDb} (now : ℕ) (is_locked : Attempt → Bool) (worker_id : String)
      → EvalStep db (sweep_abandoned now is_locked worker_id db)
  queue_step :
      {db : EvalDb} (now : ℕ) (is_locked : Submission → Bool) (limit : ℕ)
      → EvalStep db (queue_pre_eval_passed now is_locked limit db)
  requeue_step :
      {db : EvalDb} (now : ℕ) (is_locked : Submission → Bool) (limit max_retry_count : ℕ)
      → EvalStep db (requeue_retryable_evals now is_locked limit max_retry_count db)
  heartbeat_step :
      {db : EvalDb} (attempt_id lease_expires_at : ℕ)
      → EvalStep db (heartbeat_attempt attempt_id lease_expires_at db)
  run_id_step :
      {db : EvalDb} (eval_run_id : ℕ) (remote_run_id : String)
      → EvalStep db (set_remote_run_id eval_run_id remote_run_id db)
  event_step :
      {db : EvalDb} (submission_id attempt_id : ℕ) (e : RemoteEvent)
      → EvalStep db (record_remote_event submission_id attempt_id e db)

pub data EvalSteps : EvalDb → EvalDb → Type 0 where
  stay : {db : EvalDb} → EvalSteps db db
  and_then : {a b c : EvalDb} → EvalSteps a b → EvalStep b c → EvalSteps a c
