-- ===== src/Evals.antt =====
-- The evaluation repository (src/albedo_eval_service/control/repository.py): the tables as its methods
-- see them, with the columns that they read or write. A UUID and a timestamp are numbers.
pub mod Claim
pub mod Finish
pub mod Queue
pub mod Loop
pub mod One
pub mod Steps
pub mod Latch
pub mod Wins
pub mod Tests
use albedo.Prelude.{◌==◌, update, ℕ, String, Bool, Option, List, [], ◌∷◌, ◌++◌}

-- model_submissions.state, as far as the repository names the states.
pub data SubmissionState : Type 0 where
  pre_eval_passed eval_queued eval_running eval_retryable eval_win : SubmissionState
  set_reign_running reign_set weight_set_running : SubmissionState
  complete_loss complete_coronated terminal_invalid : SubmissionState
  elsewhere : String → SubmissionState

pub record Fault : Type 0 where
  pub class : String
  pub code : String

pub record Submission : Type 0 where
  pub id : ℕ
  pub hotkey : String
  pub model_uri : String
  pub chain_commit_id : Option ℕ
  pub priority : ℕ
  pub created_at : ℕ
  pub updated_at : ℕ
  pub retry_count : ℕ
  pub state : SubmissionState
  pub fault : Option Fault
  pub finished_at : Option ℕ

pub record ChainCommit : Type 0 where
  pub id : ℕ
  pub block_number : ℕ
  pub block_hash : Option String

pub record Miner : Type 0 where
  pub hotkey : String
  pub registration_block : Option ℕ

pub record Host : Type 0 where
  pub id : ℕ
  pub is_eval : Bool
  pub is_ready : Bool
  pub free_gpu_count : ℕ
  pub last_heartbeat_at : ℕ

pub data AttemptState : Type 0 where
  claimed_attempt running succeeded failed_retryable failed_terminal abandoned : AttemptState

pub record Attempt : Type 0 where
  pub id : ℕ
  pub submission_id : ℕ
  -- stage = 'EVAL'
  pub is_eval : Bool
  pub attempt_number : ℕ
  pub state : AttemptState
  pub lease_expires_at : ℕ
  pub finished_at : Option ℕ
  pub fault : Option Fault

pub data RunState : Type 0 where
  dispatched generating scoring verdict_ready : RunState
  run_succeeded run_failed_retryable run_failed_terminal : RunState

pub record EvalRun : Type 0 where
  pub id : ℕ
  pub submission_id : ℕ
  pub stage_attempt_id : ℕ
  pub king_submission_id : ℕ
  pub king_model_hash : String
  pub remote_host_id : ℕ
  pub remote_run_id : Option String
  pub state : RunState
  pub challenger_won : Option Bool
  pub sample_count : ℕ
  pub generated_sample_count : ℕ
  pub scored_sample_count : ℕ
  pub started_at : ℕ
  pub finished_at : Option ℕ
  pub fault : Option Fault

-- `payload` is the text of the JSON column `data`.
pub record Event : Type 0 where
  pub submission_id : ℕ
  pub stage_attempt_id : Option ℕ
  pub event_type : String
  pub payload : String

-- A row of the join of reigns, reign_members at slot 1, king_versions and artifacts, of an ACTIVE reign.
pub record LeadKing : Type 0 where
  pub reign_version : ℕ
  pub king_version : ℕ
  pub king_submission_id : ℕ
  pub model_hash : String
  pub model_uri : String

pub record EvalDb : Type 0 where
  pub submissions : List Submission
  pub chain_commits : List ChainCommit
  pub miners : List Miner
  pub hosts : List Host
  pub lead_kings : List LeadKing
  pub attempts : List Attempt
  pub runs : List EvalRun
  pub events : List Event

-- UPDATE ... WHERE id
unfoldable pub set_submission : ℕ → (Submission → Submission) → EvalDb → EvalDb
set_submission id f db = record db { submissions = update (λ s. s.id == id) f db.submissions }

unfoldable pub set_attempt : ℕ → (Attempt → Attempt) → EvalDb → EvalDb
set_attempt id f db = record db { attempts = update (λ a. a.id == id) f db.attempts }

unfoldable pub set_run : ℕ → (EvalRun → EvalRun) → EvalDb → EvalDb
set_run id f db = record db { runs = update (λ r. r.id == id) f db.runs }

-- `record_event_inside_tx`
unfoldable pub record_event : ℕ → Option ℕ → String → String → EvalDb → EvalDb
record_event submission_id attempt_id event_type payload db = record db {
  events =
      db.events
      ++ record {
        submission_id = submission_id;
        stage_attempt_id = attempt_id;
        event_type = event_type;
        payload = payload;
      }
        ∷ [];
}
