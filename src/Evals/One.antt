-- ===== src/Evals/One.antt =====
-- At most one submission is EVAL_RUNNING: what every operation does to the count of them
-- (src/albedo_eval_service/control/repository.py).
pub mod Claim
pub mod Always
use albedo.Prelude.{
  ◌==◌, Bool-cases, IsKeyed, update-IsKeyed, take, select, update, any, count, sort_by, ℕ, ◌≤◌,
  String, ◌≡◌, refl, inl, inr, Bool, true, false, ◌&&◌, not, Option, none, some, List, [], ◌∷◌,
  arith,
}
use albedo.Evals.{
  Attempt, EvalDb, EvalRun, Fault, Submission, record_event, set_attempt, set_run, set_submission,
}
use albedo.Evals.Finish.{
  EvalIds, Verdict, abandon, abandon_attempt, fail_run_of, fail_submission, finish_attempt,
  is_prior_win, is_running_attempt, is_true, lease_expired, mark_eval_failed, mark_eval_succeeded,
  move_on, next_state, settle_failure, settle_success,
}
use albedo.Evals.Claim.{is_running, make_retryable, reject}
use albedo.Evals.Queue.{
  abandon_all, for_each, give_up, give_up_capped, is_capped, queue, queue_pre_eval_passed, requeue,
  requeue_below, requeue_retryable_evals, sweep_abandoned, by_update, is_expired, is_passed,
  is_requeued, join_runs,
}

abbrev pub running_count : EvalDb → ℕ
running_count db = count is_running db.submissions

abbrev pub HasKeys : EvalDb → Type 0
HasKeys db = IsKeyed (λ s. s.id) db.submissions

-- The keys stay, and no submission starts to run.
abbrev pub IsCalm : EvalDb → EvalDb → Type 0
IsCalm db db' = (HasKeys db → HasKeys db') × (running_count db' ≤ running_count db)

-- A SET that starts no run.
abbrev pub IsQuiet : (Submission → Submission) → Type 0
IsQuiet f = (s : Submission) → ((f s).id ≡ s.id) × (is_running (f s) ≡ true → is_running s ≡ true)

pub then-IsCalm : (a b c : EvalDb) → IsCalm a b → IsCalm b c → IsCalm a c
then-IsCalm a b c first second = ((λ k. second.0 (first.0 k)), omega (arith, first.1, second.1))

count-update-le :
    (p : Submission → Bool) (f : Submission → Submission) (rows : List Submission)
    → IsQuiet f
    → count is_running (update p f rows) ≤ count is_running rows
unfolding count update
count-update-le p f [] quiet = omega arith
count-update-le p f (s ∷ rows) quiet = ground (arith, (quiet s).1, count-update-le p f rows quiet)

pub set_submission-IsCalm :
    (id : ℕ) (f : Submission → Submission) (db : EvalDb)
    → IsQuiet f
    → IsCalm db (set_submission id f db)
unfolding set_submission
set_submission-IsCalm id f db quiet = (
  update-IsKeyed (λ s. s.id) (λ s. s.id == id) f db.submissions (λ s. (quiet s).0),
  count-update-le (λ s. s.id == id) f db.submissions quiet,
)

-- The SETs of the repository, but for that of the claim.
fail_submission-IsQuiet :
    (now : ℕ) (retryable : Bool) (fault : Fault) → IsQuiet (fail_submission now retryable fault)
unfolding fail_submission is_running
fail_submission-IsQuiet now true fault s = (refl, (λ on. absurd (cc on)))
fail_submission-IsQuiet now false fault s = (refl, (λ on. absurd (cc on)))

move_on-IsQuiet : (now : ℕ) (v : Verdict) (wins : ℕ) → IsQuiet (move_on now v wins)
unfolding move_on next_state is_running is_true
move_on-IsQuiet now v wins s = (refl, (λ on. ground (arith, on)))

pub reject-IsQuiet : (now : ℕ) → IsQuiet (reject now)
unfolding reject is_running
reject-IsQuiet now s = (refl, (λ on. absurd (cc on)))

pub retryable-IsQuiet : (now : ℕ) (class code : String) → IsQuiet (make_retryable now class code)
unfolding make_retryable is_running
retryable-IsQuiet now class code s = (refl, (λ on. absurd (cc on)))

queue-IsQuiet : (now : ℕ) → IsQuiet (queue now)
unfolding queue is_running
queue-IsQuiet now s = (refl, (λ on. absurd (cc on)))

give_up-IsQuiet : (now : ℕ) → IsQuiet (give_up now)
unfolding give_up is_running
give_up-IsQuiet now s = (refl, (λ on. absurd (cc on)))

requeue-IsQuiet : (now : ℕ) → IsQuiet (requeue now)
unfolding requeue is_running
requeue-IsQuiet now s = (refl, (λ on. absurd (cc on)))

-- The operations.
pub success-IsCalm :
    (now : ℕ) (ids : EvalIds) (v : Verdict) (db : EvalDb)
    → IsCalm db (mark_eval_succeeded now ids v db)
unfolding mark_eval_succeeded settle_success record_event set_run finish_attempt set_submission
success-IsCalm now ids v db =
    elim (Bool-cases (any (is_running_attempt ids.attempt_id) db.attempts)) [
      | inr over ↦ rw over ((λ k. k), omega arith)
      | inl open_attempt ↦ rw open_attempt (
        update-IsKeyed (λ s. s.id) (λ s. s.id == ids.submission_id)
            (move_on now v (count (is_prior_win ids) db.runs)) db.submissions
            (λ s. (move_on-IsQuiet now v (count (is_prior_win ids) db.runs) s).0),
        count-update-le (λ s. s.id == ids.submission_id)
            (move_on now v (count (is_prior_win ids) db.runs)) db.submissions
            (move_on-IsQuiet now v (count (is_prior_win ids) db.runs)),
      )
    ]

pub failure-IsCalm :
    (now : ℕ) (ids : EvalIds) (retryable : Bool) (fault : Fault) (payload : String) (db : EvalDb)
    → IsCalm db (mark_eval_failed now ids retryable fault payload db)
unfolding mark_eval_failed settle_failure record_event set_run finish_attempt set_submission
failure-IsCalm now ids retryable fault payload db =
    elim (Bool-cases (any (is_running_attempt ids.attempt_id) db.attempts)) [
      | inr over ↦ rw over ((λ k. k), omega arith)
      | inl open_attempt ↦ rw open_attempt (
        update-IsKeyed (λ s. s.id) (λ s. s.id == ids.submission_id)
            (fail_submission now retryable fault) db.submissions
            (λ s. (fail_submission-IsQuiet now retryable fault s).0),
        count-update-le (λ s. s.id == ids.submission_id) (fail_submission now retryable fault)
            db.submissions (fail_submission-IsQuiet now retryable fault),
      )
    ]

for_each-IsCalm :
    (event_type : String) (f : Submission → Submission) (rows : List Submission) (db : EvalDb)
    → IsQuiet f
    → IsCalm db (for_each event_type f rows db)
unfolding for_each record_event
for_each-IsCalm event_type f [] db quiet = ((λ k. k), omega arith)
for_each-IsCalm event_type f (s ∷ rows) db quiet =
    let db' = record_event s.id none event_type "" (set_submission s.id f db) in
    then-IsCalm db db' (for_each event_type f rows db') (set_submission-IsCalm s.id f db quiet)
      (for_each-IsCalm event_type f rows db' quiet)

pub queue-IsCalm :
    (now : ℕ) (is_locked : Submission → Bool) (limit : ℕ) (db : EvalDb)
    → IsCalm db (queue_pre_eval_passed now is_locked limit db)
unfolding queue_pre_eval_passed
queue-IsCalm now is_locked limit db =
    for_each-IsCalm "eval_queued_from_pre_eval" (queue now)
      (take limit
        (sort_by by_update (select (λ s. is_passed s && not (is_locked s)) db.submissions)))
      db (queue-IsQuiet now)

give_up-IsCalm :
    (now : ℕ) (is_locked : Submission → Bool) (max_retry_count : ℕ) (db : EvalDb)
    → IsCalm db (give_up_capped now is_locked max_retry_count db)
unfolding give_up_capped
give_up-IsCalm now is_locked max_retry_count db =
    for_each-IsCalm "eval_retry_limit_exceeded" (give_up now)
      (select (is_capped max_retry_count is_locked db) db.submissions) db (give_up-IsQuiet now)

requeue_below-IsCalm :
    (now : ℕ) (is_locked : Submission → Bool) (limit max_retry_count : ℕ) (db : EvalDb)
    → IsCalm db (requeue_below now is_locked limit max_retry_count db)
unfolding requeue_below
requeue_below-IsCalm now is_locked limit max_retry_count db =
    for_each-IsCalm "eval_retry_requeued" (requeue now)
      (take limit
        (sort_by by_update (select (is_requeued max_retry_count is_locked db) db.submissions)))
      db (requeue-IsQuiet now)

pub requeue-IsCalm :
    (now : ℕ) (is_locked : Submission → Bool) (limit max_retry_count : ℕ) (db : EvalDb)
    → IsCalm db (requeue_retryable_evals now is_locked limit max_retry_count db)
unfolding requeue_retryable_evals
requeue-IsCalm now is_locked limit max_retry_count db =
    let capped = give_up_capped now is_locked max_retry_count db in
    then-IsCalm db capped (requeue_below now is_locked limit max_retry_count capped)
      (give_up-IsCalm now is_locked max_retry_count db)
      (requeue_below-IsCalm now is_locked limit max_retry_count capped)

fail_run_of_submissions :
    (now : ℕ) (run : Option EvalRun) (db : EvalDb)
    → (fail_run_of now run db).submissions ≡ db.submissions
unfolding fail_run_of set_run
fail_run_of_submissions now none db = refl
fail_run_of_submissions now (some r) db = refl

abandon_one :
    (now : ℕ) (worker_id : String) (a : Attempt) (run : Option EvalRun) (db : EvalDb)
    → IsCalm db (abandon_attempt now worker_id a run db)
unfolding abandon_attempt record_event set_submission set_attempt
abandon_one now worker_id a run db =
    rw (fail_run_of_submissions now run (set_attempt a.id (abandon now) db)) (
      set_submission-IsCalm a.submission_id (fail_submission now true lease_expired) db
        (fail_submission-IsQuiet now true lease_expired))

abandon-IsCalm :
    (now : ℕ) (worker_id : String) (rows : List (Attempt × Option EvalRun)) (db : EvalDb)
    → IsCalm db (abandon_all now worker_id rows db)
unfolding abandon_all
abandon-IsCalm now worker_id [] db = ((λ k. k), omega arith)
abandon-IsCalm now worker_id ((a, run) ∷ rows) db =
    then-IsCalm db (abandon_attempt now worker_id a run db)
      (abandon_all now worker_id rows (abandon_attempt now worker_id a run db))
      (abandon_one now worker_id a run db)
      (abandon-IsCalm now worker_id rows (abandon_attempt now worker_id a run db))

pub sweep-IsCalm :
    (now : ℕ) (is_locked : Attempt → Bool) (worker_id : String) (db : EvalDb)
    → IsCalm db (sweep_abandoned now is_locked worker_id db)
unfolding sweep_abandoned
sweep-IsCalm now is_locked worker_id db =
    abandon-IsCalm now worker_id
      (join_runs db.runs (select (is_expired now is_locked db) db.attempts)) db
