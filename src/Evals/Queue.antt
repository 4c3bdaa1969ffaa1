-- ===== src/Evals/Queue.antt =====
-- The queueing of evaluations, the sweep of expired leases, and the events of the remote workers
-- (src/albedo_eval_service/control/repository.py).
use albedo.Prelude.{
  ltb, leb, ◌==◌, if◌then◌else◌, take, select, any, first_by, sort_by, ℕ, max, String, Bool, true,
  false, ◌&&◌, ◌||◌, not, Option, none, some, List, [], ◌∷◌, ◌++◌, map, str_eq,
}
use albedo.Evals.{
  Attempt, AttemptState, EvalDb, EvalRun, Event, Fault, RunState, Submission, SubmissionState,
  record_event, set_run, set_submission,
}
use albedo.Evals.Finish.{abandon_attempt, or_else}
use albedo.Evals.Claim.{by_priority, is_queued, is_running}

-- The rows of `sweep_abandoned_eval_attempts`: expired attempts of running submissions, each with the
-- runs that name it, or alone.
unfoldable pub is_expired : ℕ → (Attempt → Bool) → EvalDb → Attempt → Bool
unfolding is_running
is_expired now is_locked db a =
    a.is_eval
    && (elim a.state [ AttemptState.running ↦ true | _ ↦ false ])
    && ltb a.lease_expires_at now
    && any (λ s. (s.id == a.submission_id) && is_running s) db.submissions
    && not (is_locked a)

unfoldable pub pairs : Attempt → List EvalRun → List (Attempt × Option EvalRun)
pairs a [] = (a, none) ∷ []
pairs a (r ∷ runs) = (a, some r) ∷ map (λ q. (a, some q)) runs

unfoldable pub join_runs : List EvalRun → List Attempt → List (Attempt × Option EvalRun)
unfolding pairs
join_runs runs [] = []
join_runs runs (a ∷ attempts) =
    pairs a (select (λ r. r.stage_attempt_id == a.id) runs) ++ join_runs runs attempts

unfoldable pub abandon_all : ℕ → String → List (Attempt × Option EvalRun) → EvalDb → EvalDb
unfolding abandon_attempt
abandon_all now worker_id [] db = db
abandon_all now worker_id ((a, run) ∷ rows) db =
    abandon_all now worker_id rows (abandon_attempt now worker_id a run db)

-- `sweep_abandoned_eval_attempts`
unfoldable pub sweep_abandoned : ℕ → (Attempt → Bool) → String → EvalDb → EvalDb
unfolding is_expired join_runs abandon_all
sweep_abandoned now is_locked worker_id db =
    abandon_all now worker_id (join_runs db.runs (select (is_expired now is_locked db) db.attempts))
      db

-- ORDER BY priority ASC, updated_at ASC
unfoldable pub by_update : Submission → Submission → Bool
by_update s t =
    ltb s.priority t.priority || ((s.priority == t.priority) && ltb s.updated_at t.updated_at)

unfoldable pub is_passed : Submission → Bool
is_passed s = elim s.state [ SubmissionState.pre_eval_passed ↦ true | _ ↦ false ]

unfoldable pub is_retryable : Submission → Bool
is_retryable s = elim s.state [ SubmissionState.eval_retryable ↦ true | _ ↦ false ]

-- One UPDATE and one event for each row of a list.
unfoldable pub for_each : String → (Submission → Submission) → List Submission → EvalDb → EvalDb
unfolding set_submission record_event
for_each event_type f [] db = db
for_each event_type f (s ∷ rows) db =
    for_each event_type f rows (record_event s.id none event_type "" (set_submission s.id f db))

unfoldable pub queue : ℕ → Submission → Submission
queue now s = record s { state = SubmissionState.eval_queued; updated_at = now }

-- `queue_pre_eval_passed`
unfoldable pub queue_pre_eval_passed : ℕ → (Submission → Bool) → ℕ → EvalDb → EvalDb
unfolding is_passed by_update for_each queue
queue_pre_eval_passed now is_locked limit db =
    for_each "eval_queued_from_pre_eval" (queue now)
      (take limit
        (sort_by by_update (select (λ s. is_passed s && not (is_locked s)) db.submissions)))
      db

-- NOT EXISTS an EVAL attempt that is CLAIMED or RUNNING.
unfoldable pub has_open_attempt : EvalDb → Submission → Bool
has_open_attempt db s =
    any
      (λ a. (a.submission_id == s.id) && a.is_eval && (elim a.state [
        | AttemptState.claimed_attempt ↦ true
        | AttemptState.running ↦ true
        | _ ↦ false
      ]))
      db.attempts

unfoldable pub is_capped : ℕ → (Submission → Bool) → EvalDb → Submission → Bool
unfolding is_retryable has_open_attempt
is_capped max_retry_count is_locked db s =
    is_retryable s
    && leb max_retry_count s.retry_count
    && not (has_open_attempt db s)
    && not (is_locked s)

unfoldable pub is_requeued : ℕ → (Submission → Bool) → EvalDb → Submission → Bool
unfolding is_retryable has_open_attempt
is_requeued max_retry_count is_locked db s =
    is_retryable s
    && ltb s.retry_count max_retry_count
    && not (has_open_attempt db s)
    && not (is_locked s)

-- COALESCE(fault_class, 'INFRA_FAULT')
unfoldable pub fault_class : Option Fault → String
fault_class none = "INFRA_FAULT"
fault_class (some fault) = fault.class

unfoldable pub give_up : ℕ → Submission → Submission
unfolding fault_class
give_up now s = record s {
  state = SubmissionState.terminal_invalid;
  fault = some (record { class = fault_class s.fault; code = "eval_retry_limit_exceeded" });
  finished_at = some now;
  updated_at = now;
}

unfoldable pub requeue : ℕ → Submission → Submission
requeue now s = record s { state = SubmissionState.eval_queued; fault = none; updated_at = now }

-- The two parts of `requeue_retryable_evals`.
unfoldable pub give_up_capped : ℕ → (Submission → Bool) → ℕ → EvalDb → EvalDb
unfolding is_capped for_each give_up
give_up_capped now is_locked max_retry_count db =
    for_each "eval_retry_limit_exceeded" (give_up now)
      (select (is_capped max_retry_count is_locked db) db.submissions) db

unfoldable pub requeue_below : ℕ → (Submission → Bool) → ℕ → ℕ → EvalDb → EvalDb
unfolding is_requeued by_update for_each requeue
requeue_below now is_locked limit max_retry_count db =
    for_each "eval_retry_requeued" (requeue now)
      (take limit
        (sort_by by_update (select (is_requeued max_retry_count is_locked db) db.submissions)))
      db

-- `requeue_retryable_evals`
unfoldable pub requeue_retryable_evals : ℕ → (Submission → Bool) → ℕ → ℕ → EvalDb → EvalDb
unfolding give_up_capped requeue_below
requeue_retryable_evals now is_locked limit max_retry_count db =
    requeue_below now is_locked limit max_retry_count
      (give_up_capped now is_locked max_retry_count db)

-- A remote event, with the text of its JSON.
pub data EventKind : Type 0 where
  generation_started : Option ℕ → EventKind
  generation_batch_done scoring_batch_done : Option ℕ → EventKind
  scoring_started verdict_event other_event : EventKind

pub record RemoteEvent : Type 0 where
  pub kind : EventKind
  pub event_type : String
  pub eval_run_id : Option ℕ
  pub payload : String

-- The SET of each kind; a verdict does not change a SUCCEEDED run.
unfoldable pub apply_kind : EventKind → EvalRun → EvalRun
unfolding or_else
apply_kind (generation_started n) r = record r {
  state = RunState.generating;
  sample_count = or_else n r.sample_count;
}
apply_kind (generation_batch_done n) r = record r {
  generated_sample_count = max r.generated_sample_count (or_else n 0);
}
apply_kind (scoring_batch_done n) r = record r {
  scored_sample_count = max r.scored_sample_count (or_else n 0);
}
apply_kind scoring_started r = record r { state = RunState.scoring }
apply_kind verdict_event r = elim r.state [
  | RunState.run_succeeded ↦ r
  | _ ↦ record r { state = RunState.verdict_ready }
]
apply_kind other_event r = r

-- `_apply_remote_event_to_eval_run_inside_tx`
unfoldable pub apply_remote_event : EventKind → Option ℕ → EvalDb → EvalDb
unfolding set_run apply_kind
apply_remote_event kind none db = db
apply_remote_event kind (some id) db = set_run id (apply_kind kind) db

unfoldable pub is_event : ℕ → RemoteEvent → Event → Bool
is_event attempt_id e f =
    (elim f.stage_attempt_id [ none ↦ false | some id ↦ id == attempt_id ])
    && str_eq f.event_type e.event_type
    && str_eq f.payload e.payload

-- `record_remote_event`
unfoldable pub record_remote_event : ℕ → ℕ → RemoteEvent → EvalDb → EvalDb
unfolding is_event record_event apply_remote_event
record_remote_event submission_id attempt_id e db =
    if any (is_event attempt_id e) db.events
    then db
    else record_event submission_id (some attempt_id) e.event_type e.payload
        (apply_remote_event e.kind e.eval_run_id db)

-- `peek_next_challenger_model_uri`
unfoldable pub peek_next_challenger : EvalDb → Option String
unfolding is_queued is_passed by_priority
peek_next_challenger db =
    elim (first_by by_priority (select (λ s. is_queued s || is_passed s) db.submissions)) [
      | none ↦ none
      | some s ↦ some s.model_uri
    ]
