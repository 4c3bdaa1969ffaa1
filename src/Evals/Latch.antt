-- ===== src/Evals/Latch.antt =====
-- An attempt is finalised once: the UPDATE of `mark_eval_succeeded` and `mark_eval_failed` latches on
-- its state (src/albedo_eval_service/control/repository.py).
use albedo.Prelude.{
  ◌==◌, Bool-cases, update, any, ℕ, String, ◌≡◌, refl, inl, inr, Bool, true, false, Option, none,
  some, List, [], ◌∷◌, arith,
}
use albedo.Evals.{
  Attempt, EvalDb, EvalRun, Fault, record_event, set_attempt, set_run, set_submission,
}
use albedo.Evals.Finish.{
  EvalIds, Verdict, abandon, abandon_attempt, fail_attempt, fail_run_of, finish_attempt,
  is_running_attempt, mark_eval_failed, mark_eval_succeeded, settle_failure, settle_success,
  succeed_attempt,
}

-- What may end an attempt.
pub data Finish : Type 0 where
  success : ℕ → Verdict → Finish
  failure : ℕ → Bool → Fault → String → Finish

unfoldable pub finish : Finish → EvalIds → EvalDb → EvalDb
unfolding mark_eval_succeeded mark_eval_failed
finish (success now v) ids db = mark_eval_succeeded now ids v db
finish (failure now retryable fault payload) ids db =
    mark_eval_failed now ids retryable fault payload db

none_running :
    (id : ℕ) (f : Attempt → Attempt) (rows : List Attempt)
    → ((a : Attempt) → is_running_attempt id (f a) ≡ false)
    → any (is_running_attempt id) (update (is_running_attempt id) f rows) ≡ false
unfolding any update
none_running id f [] over = refl
none_running id f (a ∷ rows) over = ground (arith, over a, none_running id f rows over)

succeeded_over : (id now : ℕ) (a : Attempt) → is_running_attempt id (succeed_attempt now a) ≡ false
unfolding is_running_attempt succeed_attempt
succeeded_over id now a = ground arith

failed_over :
    (id now : ℕ) (retryable : Bool) (fault : Fault) (a : Attempt)
    → is_running_attempt id (fail_attempt now retryable fault a) ≡ false
unfolding is_running_attempt fail_attempt
failed_over id now true fault a = ground arith
failed_over id now false fault a = ground arith

abandoned_over :
    (id now : ℕ) (rows : List Attempt)
    → any (is_running_attempt id) (update (λ a. a.id == id) (abandon now) rows) ≡ false
unfolding any update is_running_attempt abandon
abandoned_over id now [] = refl
abandoned_over id now (a ∷ rows) = ground (arith, abandoned_over id now rows)

-- The attempt is over.
abbrev pub IsOver : ℕ → EvalDb → Type 0
IsOver id db = any (is_running_attempt id) db.attempts ≡ false

finish-IsOver : (e : Finish) (ids : EvalIds) (db : EvalDb) → IsOver ids.attempt_id (finish e ids db)
unfolding finish mark_eval_succeeded mark_eval_failed settle_success settle_failure finish_attempt
    set_run set_submission record_event
finish-IsOver (success now v) ids db =
    elim (Bool-cases (any (is_running_attempt ids.attempt_id) db.attempts)) [
      | inr over ↦ rw over over
      | inl latched ↦ rw latched (
          none_running ids.attempt_id (succeed_attempt now) db.attempts
            (succeeded_over ids.attempt_id now))
    ]
finish-IsOver (failure now retryable fault payload) ids db =
    elim (Bool-cases (any (is_running_attempt ids.attempt_id) db.attempts)) [
      | inr over ↦ rw over over
      | inl latched ↦ rw latched (
          none_running ids.attempt_id (fail_attempt now retryable fault) db.attempts
            (failed_over ids.attempt_id now retryable fault))
    ]

pub over-finish :
    (e : Finish) (ids : EvalIds) (db : EvalDb) → IsOver ids.attempt_id db → finish e ids db ≡ db
unfolding finish mark_eval_succeeded mark_eval_failed
over-finish (success now v) ids db over = rw over refl
over-finish (failure now retryable fault payload) ids db over = rw over refl

fail_run_of_attempts :
    (now : ℕ) (run : Option EvalRun) (db : EvalDb) → (fail_run_of now run db).attempts ≡ db.attempts
unfolding fail_run_of set_run
fail_run_of_attempts now none db = refl
fail_run_of_attempts now (some r) db = refl

abandon-IsOver :
    (id now : ℕ) (worker_id : String) (a : Attempt) (run : Option EvalRun) (db : EvalDb)
    → a.id ≡ id
    → IsOver id (abandon_attempt now worker_id a run db)
unfolding abandon_attempt set_attempt set_submission record_event
abandon-IsOver id now worker_id a run db mine =
    rw (fail_run_of_attempts now run (set_attempt a.id (abandon now) db), mine)
      (abandoned_over id now db.attempts)

-- Of two ends of one attempt, in any order and of either kind, and even for different runs or
-- submissions, the second changes nothing; and neither does any after the sweep has abandoned it.
pub finish-once :
    (first second : Finish) (ids ids' : EvalIds) (db : EvalDb)
    → ids'.attempt_id ≡ ids.attempt_id
    → (finish second ids' (finish first ids db) ≡ finish first ids db)
      × ((now : ℕ) (worker_id : String) (a : Attempt) (run : Option EvalRun)
          → a.id ≡ ids.attempt_id
          → finish second ids (abandon_attempt now worker_id a run db)
            ≡ abandon_attempt now worker_id a run db)
finish-once first second ids ids' db same = (
  over-finish second ids' (finish first ids db) (rw same (finish-IsOver first ids db)),
  λ now worker_id a run mine.
      over-finish second ids (abandon_attempt now worker_id a run db)
        (abandon-IsOver ids.attempt_id now worker_id a run db mine),
)
