-- ===== src/Evals/One/Always.antt =====
-- The singleton evaluation, over all operations.
use albedo.Prelude.{Bool-cases, any, ℕ, ◌≡◌, refl, inl, inr, Option, none, some}
use albedo.Evals.{EvalDb, record_event, set_run}
use albedo.Evals.Finish.{
  heartbeat_attempt, mark_eval_failed, mark_eval_succeeded, set_remote_run_id,
}
use albedo.Evals.One.{failure-IsCalm, queue-IsCalm, requeue-IsCalm, success-IsCalm, sweep-IsCalm}
use albedo.Evals.Steps.{
  EvalStep, EvalSteps, and_then, claim_step, event_step, failure_step, heartbeat_step, queue_step,
  requeue_step, run_id_step, stay, success_step, sweep_step,
}
use albedo.Evals.Queue.{
  EventKind, RemoteEvent, apply_remote_event, is_event, queue_pre_eval_passed, record_remote_event,
  requeue_retryable_evals, sweep_abandoned,
}
use albedo.Evals.One.Claim.{HasOneEval, calm-HasOneEval, claim-HasOneEval}

event_submissions :
    (submission_id attempt_id : ℕ) (e : RemoteEvent) (db : EvalDb)
    → (record_remote_event submission_id attempt_id e db).submissions ≡ db.submissions
unfolding record_remote_event record_event
event_submissions submission_id attempt_id e db =
    elim (Bool-cases (any (is_event attempt_id e) db.events)) [
      | inl known ↦ rw known refl
      | inr new ↦ rw new (applied e.kind e.eval_run_id)
    ]
  where
    applied :
        (kind : EventKind) (id : Option ℕ)
        → (apply_remote_event kind id db).submissions ≡ db.submissions
    applied kind none = refl
    applied kind (some id) = refl

EvalStep-HasOneEval : {db db' : EvalDb} → EvalStep db db' → HasOneEval db → HasOneEval db'
unfolding heartbeat_attempt set_remote_run_id set_run
EvalStep-HasOneEval {db} (claim_step call e) h = claim-HasOneEval call db e h
EvalStep-HasOneEval {db} (success_step now ids v) h =
    calm-HasOneEval db (mark_eval_succeeded now ids v db) (success-IsCalm now ids v db) h
EvalStep-HasOneEval {db} (failure_step now ids retryable fault payload) h =
    calm-HasOneEval db (mark_eval_failed now ids retryable fault payload db)
      (failure-IsCalm now ids retryable fault payload db) h
EvalStep-HasOneEval {db} (sweep_step now is_locked worker_id) h =
    calm-HasOneEval db (sweep_abandoned now is_locked worker_id db)
      (sweep-IsCalm now is_locked worker_id db) h
EvalStep-HasOneEval {db} (queue_step now is_locked limit) h =
    calm-HasOneEval db (queue_pre_eval_passed now is_locked limit db)
      (queue-IsCalm now is_locked limit db) h
EvalStep-HasOneEval {db} (requeue_step now is_locked limit max_retry_count) h =
    calm-HasOneEval db (requeue_retryable_evals now is_locked limit max_retry_count db)
      (requeue-IsCalm now is_locked limit max_retry_count db) h
EvalStep-HasOneEval (heartbeat_step attempt_id lease_expires_at) h = h
EvalStep-HasOneEval (run_id_step eval_run_id remote_run_id) h = h
EvalStep-HasOneEval {db} (event_step submission_id attempt_id e) h =
    rw (event_submissions submission_id attempt_id e db) h

-- If the submission ids are distinct and at most one submission is EVAL_RUNNING, this is so after any
-- sequence of the repository's operations: no order of claims, verdicts, failures, expired leases,
-- requeues and remote events has two evaluations run at once.
pub EvalSteps-HasOneEval : {db db' : EvalDb} → EvalSteps db db' → HasOneEval db → HasOneEval db'
EvalSteps-HasOneEval stay h = h
EvalSteps-HasOneEval (and_then steps last) h =
    EvalStep-HasOneEval last (EvalSteps-HasOneEval steps h)
