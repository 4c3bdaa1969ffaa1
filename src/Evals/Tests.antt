-- ===== src/Evals/Tests.antt =====
-- The evaluation repository on two queued submissions, the first of a hotkey that was scored before.
use albedo.Prelude.{
  IsKeyed, All, select, update, find?, any, count, pick, first_by, max_of, ℕ, ◌+◌, ◌≤◌, String, ◌≡◌,
  refl, ◌≢◌, true, false, Option, none, some, [], ◌∷◌, map, arith,
}
use albedo.Evals.{
  Attempt, ChainCommit, EvalDb, EvalRun, Submission, SubmissionState, record_event, set_run,
  set_submission, Host, LeadKing,
}
use albedo.Evals.Finish.{
  EvalIds, Verdict, abandon_attempt, finish_attempt, is_prior_win, is_running_attempt, is_true,
  lease_expired, mark_eval_succeeded, move_on, next_state, or_else, settle_success, succeed_attempt,
  succeed_run,
}
use albedo.Evals.Latch.{failure, finish, finish-once, success}
use albedo.Evals.Claim.{
  ClaimAnswer, ClaimCall, by_free_gpus, by_priority, claim_after, claim_found, claim_next_eval,
  claim_with, dispatch_eval, find_candidate, has_block_hash, hotkey_already_scored, is_candidate,
  is_commit_of, is_of_registration, is_pending_reign, is_queued, is_running, is_scored, lead_king,
  new_attempt, new_run, next_attempt_number, next_host, next_queued, reject,
  reject_already_validated, start_running, claimed,
}
use albedo.Evals.Loop.{claim_next_eval-ends}
use albedo.Evals.Steps.{EvalSteps, and_then, claim_step, stay, success_step}
use albedo.Evals.Wins.{is_win, mark_eval_succeeded-wins}
use albedo.Evals.One.Claim.{HasOneEval}
use albedo.Evals.One.Always.{EvalSteps-HasOneEval}
use albedo.Evals.One.{running_count}

abbrev submission : ℕ → String → SubmissionState → Submission
submission id hotkey state = record {
  id = id;
  hotkey = hotkey;
  model_uri = "hf://model";
  chain_commit_id = some id;
  priority = 10;
  created_at = id;
  updated_at = id;
  retry_count = 0;
  state = state;
  fault = none;
  finished_at = none;
}

abbrev chain_commit : ℕ → ChainCommit
chain_commit id = record { id = id; block_number = 100 + id; block_hash = some "hash" }

abbrev host : Host
host = record { id = 7; is_eval = true; is_ready = true; free_gpu_count = 8; last_heartbeat_at = 1 }

abbrev king : LeadKing
king = record {
  reign_version = 4;
  king_version = 2;
  king_submission_id = 90;
  model_hash = "king";
  model_uri = "hf://king";
}

abbrev tables : EvalDb
tables = record {
  submissions =
      submission 1 "a" SubmissionState.complete_loss
      ∷ submission 2 "a" SubmissionState.eval_queued
      ∷ submission 3 "b" SubmissionState.eval_queued
      ∷ [];
  chain_commits = chain_commit 1 ∷ chain_commit 2 ∷ chain_commit 3 ∷ [];
  miners = record { hotkey = "a"; registration_block = some 50 } ∷ [];
  hosts = host ∷ [];
  lead_kings = king ∷ [];
  attempts = [];
  runs = [];
  events = [];
}

abbrev claim_call : ℕ → ClaimCall
claim_call now = record {
  is_free = true;
  is_locked = λ _. false;
  is_host_locked = λ _. false;
  attempt_id = 100 + now;
  eval_run_id = 200 + now;
  now = now;
  lease_seconds = 60;
  worker_id = "worker";
  is_built = λ _ _ _. true;
  sample_count = 40;
}

claimed_db : Option (EvalDb × ClaimAnswer) → EvalDb
claimed_db none = tables
claimed_db (some (db, answer)) = db

abbrev running_db : EvalDb
running_db = claimed_db (claim_next_eval (claim_call 5) tables)

abbrev won : Verdict
won = record {
  challenger_won = some true;
  generated_sample_count = some 40;
  scored_sample_count = none;
  payload = "{}";
}

abbrev ids : ℕ → EvalIds
ids now = record { submission_id = 3; attempt_id = 100 + now; eval_run_id = 200 + now }

abbrev one_win : EvalDb
one_win = mark_eval_succeeded 6 (ids 5) won running_db

abbrev again_running : EvalDb
again_running = claimed_db (claim_next_eval (claim_call 7) one_win)

unfoldable evals_program : Unit {0}
unfolding claimed_db claim_next_eval claim_after claim_found claim_with dispatch_eval find_candidate
    next_queued hotkey_already_scored reject_already_validated reject record_event set_submission
    set_run is_candidate is_queued is_running is_pending_reign is_scored has_block_hash is_commit_of
    is_of_registration by_priority next_host by_free_gpus lead_king start_running new_attempt
    new_run next_attempt_number mark_eval_succeeded settle_success finish_attempt succeed_attempt
    is_running_attempt move_on next_state succeed_run is_prior_win is_true or_else first_by pick
    select update any find? count max_of
evals_program = tt

-- The first submission is rejected, the second is claimed.
states :
    map (λ s. s.state) running_db.submissions
    ≡ SubmissionState.complete_loss ∷ SubmissionState.terminal_invalid
      ∷ SubmissionState.eval_running ∷ []
unfolding evals_program
states = refl

-- A first win is queued again at the front, the second is a win.
requeued :
    map (λ s. s.state) one_win.submissions
    ≡ SubmissionState.complete_loss ∷ SubmissionState.terminal_invalid ∷ SubmissionState.eval_queued
      ∷ []
unfolding evals_program
requeued = refl

won_twice :
    map (λ s. s.state) (mark_eval_succeeded 8 (ids 7) won again_running).submissions
    ≡ SubmissionState.complete_loss ∷ SubmissionState.terminal_invalid ∷ SubmissionState.eval_win
      ∷ []
unfolding evals_program
won_twice = refl

tables_keyed : IsKeyed (λ (s : Submission). s.id) tables.submissions
tables_keyed = ((cc, (cc, tt)), ((cc, tt), (tt, tt)))

claim_next_eval-ends_example : claim_next_eval (claim_call 5) tables ≢ none
claim_next_eval-ends_example = claim_next_eval-ends (claim_call 5) tables tables_keyed

claimed_third :
    claim_next_eval (claim_call 5) tables
    ≡ some (running_db, claimed (submission 3 "b" SubmissionState.eval_queued) king host)
unfolding evals_program
claimed_third = refl

eval_history : EvalSteps tables one_win
eval_history =
    and_then (and_then stay (claim_step (claim_call 5) claimed_third)) (success_step 6 (ids 5) won)

none_runs : running_count tables ≡ 0
unfolding evals_program
none_runs = refl

EvalSteps-HasOneEval_example : HasOneEval one_win
EvalSteps-HasOneEval_example =
    EvalSteps-HasOneEval eval_history (tables_keyed, omega (arith, none_runs))

finish-once_example :
    (finish (failure 9 true lease_expired "") (ids 5) (finish (success 6 won) (ids 5) running_db)
      ≡ finish (success 6 won) (ids 5) running_db)
    × ((now : ℕ) (worker_id : String) (a : Attempt) (run : Option EvalRun)
        → a.id ≡ 105
        → finish
            (failure 9 true lease_expired "")
            (ids 5)
            (abandon_attempt now worker_id a run running_db)
          ≡ abandon_attempt now worker_id a run running_db)
finish-once_example =
    finish-once (success 6 won) (failure 9 true lease_expired "") (ids 5) (ids 5) running_db refl

mark_eval_succeeded-wins_example :
    All
      (λ s.
        s.id ≡ 3
        → s.state ≡ SubmissionState.eval_win
        → 2 ≤ count (is_win 3) (mark_eval_succeeded 8 (ids 7) won again_running).runs)
      (mark_eval_succeeded 8 (ids 7) won again_running).submissions
unfolding evals_program
mark_eval_succeeded-wins_example = mark_eval_succeeded-wins 8 (ids 7) won again_running refl refl
