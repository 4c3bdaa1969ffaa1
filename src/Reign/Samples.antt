-- ===== src/Reign/Samples.antt =====
-- A small database for the tests of the set-reign worker: one king, and one winner.
use albedo.Prelude.{
  select, update, find?, any, count, first_by, sort_by, max_of, ◌+◌, true, false, none, some, [],
  ◌∷◌,
}
use albedo.Tables.{
  Db, eval_win, ReignState, ReignReason, SubmissionState, Artifact, EvalRun, KingVersion, MemberRow,
  Reign, Submission, AttemptState, set_reign,
}
use albedo.Reign.Checks.{
  Promotion, active_members, active_reign, beat, examine, lead_king, model_manifest, to_member,
  winning_run,
}
use albedo.Reign.Promote.{
  crown, mark_retryable, member_row, new_reign, promote_claimed, promote_found, promote_next_winner,
  replace_reign,
}
use albedo.Reign.Claim.{
  Call, claim, next_attempt_number, next_submission, record_event, set_submission,
  has_active_attempt,
}
use albedo.Reign.Plan.{build_reign_plan, is_rival, retired_members, weight_bps_for_member_count}

abbrev pub incumbent : Submission
incumbent = record {
  id = 1;
  netuid = 97;
  uid = 7;
  hotkey = "5King";
  model_hash = "sha256:king";
  priority = 100;
  created_at = 10;
  updated_at = 20;
  retry_count = 0;
  state = SubmissionState.complete_coronated;
  fault = none;
  finished_at = some 20;
}

abbrev pub winner : Submission
winner = record {
  id = 2;
  netuid = 97;
  uid = 8;
  hotkey = "5New";
  model_hash = "sha256:new";
  priority = 100;
  created_at = 30;
  updated_at = 40;
  retry_count = 0;
  state = eval_win;
  fault = none;
  finished_at = none;
}

abbrev pub first_reign : Reign
first_reign = record {
  id = 500;
  version = 1;
  reason = ReignReason.genesis;
  trigger_eval_run_id = none;
  trigger_submission_id = some 1;
  previous_reign_id = none;
  state = ReignState.active;
}

abbrev pub first_row : MemberRow
first_row = record {
  id = 600;
  reign_id = 500;
  slot = 1;
  king_version_id = 700;
  submission_id = 1;
  hotkey = "5King";
  uid = 7;
  model_hash = "sha256:king";
  weight_bps = 10000;
}

abbrev pub first_king : KingVersion
first_king = record {
  id = 700;
  submission_id = 1;
  model_hash = "sha256:king";
  artifact_id = 800;
  eval_run_id = none;
  version = 1;
  entered_reign_id = 500;
  entered_slot = 1;
  activated_by = "genesis";
  retired = none;
}

abbrev pub won_run : EvalRun
won_run = record {
  id = 900;
  submission_id = 2;
  king_submission_id = some 1;
  king_model_hash = "sha256:king";
  challenger_model_hash = "sha256:new";
  is_succeeded = true;
  challenger_won = some true;
  started_at = some 31;
  finished_at = some 39;
}

abbrev pub manifest : Artifact
manifest = record { id = 801; submission_id = 2; is_model_manifest = true; created_at = 32 }

abbrev pub before : Db
before = record {
  submissions = incumbent ∷ winner ∷ [];
  stage_attempts = [];
  eval_runs = won_run ∷ [];
  reigns = first_reign ∷ [];
  reign_members = first_row ∷ [];
  king_versions = first_king ∷ [];
  artifacts = manifest ∷ [];
  weight_epochs = [];
  weight_transactions = [];
  events = [];
}

-- The same, with no manifest for the winner's model.
abbrev pub unlisted : Db
unlisted = record before { artifacts = [] }

-- The same, after a worker that claimed the winner and was lost.
abbrev pub abandoned : Db
abandoned = record before {
  stage_attempts =
      record {
        id = 999;
        submission_id = 2;
        stage = set_reign;
        attempt_number = 1;
        state = AttemptState.running;
        worker_id = "set-reign-0";
        lease_expires_at = some 45;
        finished_at = none;
        fault = none;
      }
      ∷ [];
}

abbrev pub call : Call
call = record {
  worker_id = "set-reign-1";
  lease_seconds = 60;
  now = 50;
  locked = true;
  is_skipped = λ id. false;
  attempt_id = 1000;
  king_version_id = 701;
  reign_id = 501;
  member_row_id = λ slot. 600 + slot;
  epoch_id = 1100;
  sha256_json = λ payload. "sha256:test";
}

abbrev pub found : Promotion
found = record {
  run = won_run;
  old_reign = first_reign;
  members = to_member first_row ∷ [];
  lead = to_member first_row;
  artifact = manifest;
}

-- What a run of the worker computes with.
unfoldable pub program : Unit {0}
unfolding promote_next_winner promote_claimed promote_found next_submission examine claim crown
    winning_run active_reign active_members lead_king beat model_manifest build_reign_plan is_rival
    mark_retryable replace_reign new_reign member_row set_submission record_event first_by select
    update find? any max_of sort_by count weight_bps_for_member_count retired_members
    next_attempt_number has_active_attempt
program = tt
