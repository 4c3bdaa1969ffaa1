-- ===== src/Tables.antt =====
-- The tables that the reign and weight workers share (schema.sql), with the columns that the
-- workers read or write. A UUID and a timestamp are numbers.
use albedo.Prelude.{ℕ, String, Option, List, Bool, true, false}

-- model_submissions.state, as far as the two workers name the states.
pub data SubmissionState : Type 0 where
  eval_win set_reign_running set_reign_retryable reign_set : SubmissionState
  weight_set_running weight_set_retryable complete_coronated : SubmissionState
  other : String → SubmissionState

pub data FaultClass : Type 0 where
  infra_fault chain_fault : FaultClass

pub record Fault : Type 0 where
  pub class : FaultClass
  pub code : String
  pub message : String

pub record Submission : Type 0 where
  pub id : ℕ
  pub netuid : ℕ
  pub uid : ℕ
  pub hotkey : String
  pub model_hash : String
  pub priority : ℕ
  pub created_at : ℕ
  pub updated_at : ℕ
  pub retry_count : ℕ
  pub state : SubmissionState
  pub fault : Option Fault
  pub finished_at : Option ℕ

pub data Stage : Type 0 where
  set_reign weight_set : Stage

pub data AttemptState : Type 0 where
  running succeeded failed_retryable : AttemptState

pub record StageAttempt : Type 0 where
  pub id : ℕ
  pub submission_id : ℕ
  pub stage : Stage
  pub attempt_number : ℕ
  pub state : AttemptState
  pub worker_id : String
  pub lease_expires_at : Option ℕ
  pub finished_at : Option ℕ
  pub fault : Option Fault

pub record EvalRun : Type 0 where
  pub id : ℕ
  pub submission_id : ℕ
  pub king_submission_id : Option ℕ
  pub king_model_hash : String
  pub challenger_model_hash : String
  pub is_succeeded : Bool
  pub challenger_won : Option Bool
  pub started_at : Option ℕ
  pub finished_at : Option ℕ

pub data ReignState : Type 0 where
  active superseded repairing : ReignState

pub data ReignReason : Type 0 where
  coronation service_replay genesis : ReignReason

pub record Reign : Type 0 where
  pub id : ℕ
  pub version : ℕ
  pub reason : ReignReason
  pub trigger_eval_run_id : Option ℕ
  pub trigger_submission_id : Option ℕ
  pub previous_reign_id : Option ℕ
  pub state : ReignState

pub record MemberRow : Type 0 where
  pub id : ℕ
  pub reign_id : ℕ
  pub slot : ℕ
  pub king_version_id : ℕ
  pub submission_id : ℕ
  pub hotkey : String
  pub uid : ℕ
  pub model_hash : String
  pub weight_bps : ℕ

pub data RetireReason : Type 0 where
  replaced_duplicate shifted_out : RetireReason

pub record KingVersion : Type 0 where
  pub id : ℕ
  pub submission_id : ℕ
  pub model_hash : String
  pub artifact_id : ℕ
  pub eval_run_id : Option ℕ
  pub version : ℕ
  pub entered_reign_id : ℕ
  pub entered_slot : ℕ
  pub activated_by : String
  -- retired_at and retire_reason
  pub retired : Option (ℕ × RetireReason)

pub record Artifact : Type 0 where
  pub id : ℕ
  pub submission_id : ℕ
  pub is_model_manifest : Bool
  pub created_at : ℕ

pub data EpochState : Type 0 where
  pending running success failed_retryable failed_terminal submitted : EpochState

pub data EpochReason : Type 0 where
  coronation periodic_refresh service_replay : EpochReason

-- `weights` holds NUMERIC values of the form bps / 10000, here by their bps.
pub record WeightEpoch : Type 0 where
  pub id : ℕ
  pub netuid : ℕ
  pub reason : EpochReason
  pub reign_id : Option ℕ
  pub state : EpochState
  pub uids : List ℕ
  pub weights : List ℕ
  pub weight_hash : String
  pub attempt_count : ℕ
  pub last_fault_class : Option FaultClass
  pub last_fault_code : Option String
  pub created_at : ℕ
  pub updated_at : ℕ
  pub succeeded_at : Option ℕ

pub data TransactionState : Type 0 where
  created success failed_retryable : TransactionState

pub record WeightTransaction : Type 0 where
  pub id : ℕ
  pub weight_epoch_id : ℕ
  pub stage_attempt_id : Option ℕ
  pub wallet_hotkey : String
  pub state : TransactionState
  pub extrinsic_hash : Option String
  pub block_number : Option ℕ
  pub fault : Option Fault

pub record Event : Type 0 where
  pub submission_id : ℕ
  pub stage_attempt_id : Option ℕ
  pub event_type : String

pub record Db : Type 0 where
  pub submissions : List Submission
  pub stage_attempts : List StageAttempt
  pub eval_runs : List EvalRun
  pub reigns : List Reign
  pub reign_members : List MemberRow
  pub king_versions : List KingVersion
  pub artifacts : List Artifact
  pub weight_epochs : List WeightEpoch
  pub weight_transactions : List WeightTransaction
  pub events : List Event

-- Tests on the enumerations, as the WHERE clauses make them.
abbrev pub is_active : Reign → Bool
is_active r = elim r.state [ ReignState.active ↦ true | _ ↦ false ]

abbrev pub same_stage : Stage → Stage → Bool
same_stage set_reign set_reign = true
same_stage weight_set weight_set = true
same_stage _ _ = false
