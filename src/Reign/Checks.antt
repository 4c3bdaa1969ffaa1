-- ===== src/Reign/Checks.antt =====
-- The checks that `promote_next_winner` makes after the claim, in its order. A failed check is
-- the fault that `_mark_retryable` is called with.
use albedo.Prelude.{
  ltb, ◌==◌, select, find?, any, first_by, sort_by, Result, ◌>>=◌, ok, err, ℕ, String, Bool, true,
  false, ◌&&◌, ◌||◌, Option, none, some, List, map, str_eq,
}
use albedo.Tables.{
  infra_fault, Artifact, Db, EvalRun, Fault, KingVersion, MemberRow, Reign, Submission, is_active,
}
use albedo.Reign.Plan.{ReignMember}

-- `o DESC NULLS LAST`: whether `a` comes strictly before `b`, and whether neither does.
later : Option ℕ → Option ℕ → Bool
later (some a) (some b) = ltb b a
later (some a) none = true
later none b = false

tied : Option ℕ → Option ℕ → Bool
tied (some a) (some b) = a == b
tied none none = true
tied _ _ = false

-- ORDER BY finished_at DESC NULLS LAST, started_at DESC NULLS LAST
unfoldable pub by_latest_run : EvalRun → EvalRun → Bool
unfolding later tied
by_latest_run a b =
    later a.finished_at b.finished_at
    || (tied a.finished_at b.finished_at && later a.started_at b.started_at)

-- `challenger_won IS TRUE`
unfoldable pub is_true : Option Bool → Bool
is_true none = false
is_true (some b) = b

unfoldable pub winning_run : Db → ℕ → Option EvalRun
unfolding by_latest_run is_true
winning_run db submission_id = first_by by_latest_run (
    select (λ e. (e.submission_id == submission_id) && e.is_succeeded && is_true e.challenger_won)
      db.eval_runs)

unfoldable pub by_version : Reign → Reign → Bool
by_version a b = ltb b.version a.version

unfoldable pub active_reign : Db → Option Reign
unfolding by_version
active_reign db = first_by by_version (select is_active db.reigns)

unfoldable pub by_slot : MemberRow → MemberRow → Bool
by_slot a b = ltb a.slot b.slot

unfoldable pub to_member : MemberRow → ReignMember
to_member row = record {
  king_version_id = row.king_version_id;
  submission_id = row.submission_id;
  hotkey = row.hotkey;
  uid = row.uid;
  model_hash = row.model_hash;
  previous_slot = some row.slot;
}

-- reign_members JOIN king_versions, WHERE reign_id, ORDER BY slot ASC
unfoldable pub active_members : Db → ℕ → List ReignMember
unfolding by_slot to_member
active_members db reign_id = map to_member (
    sort_by by_slot (
      select
        (λ row.
          (row.reign_id == reign_id)
          && any (λ (k : KingVersion). k.id == row.king_version_id) db.king_versions)
        db.reign_members))

unfoldable pub holds_slot_1 : ReignMember → Bool
holds_slot_1 m = elim m.previous_slot [ none ↦ false | some slot ↦ slot == 1 ]

unfoldable pub lead_king : List ReignMember → Option ReignMember
unfolding holds_slot_1
lead_king members = find? holds_slot_1 members

-- Not the test that bails out with "stale_winning_eval".
unfoldable pub beat : EvalRun → ReignMember → Bool
beat run lead =
    elim run.king_submission_id [ none ↦ false | some id ↦ id == lead.submission_id ]
    && str_eq run.king_model_hash lead.model_hash

by_newest : Artifact → Artifact → Bool
by_newest a b = ltb b.created_at a.created_at

unfoldable pub model_manifest : Db → ℕ → Option Artifact
unfolding by_newest
model_manifest db submission_id =
    first_by by_newest
      (select (λ a. (a.submission_id == submission_id) && a.is_model_manifest) db.artifacts)

-- What the checks have found when none has failed.
pub record Promotion : Type 0 where
  pub run : EvalRun
  pub old_reign : Reign
  pub members : List ReignMember
  pub lead : ReignMember
  pub artifact : Artifact

abbrev pub infra : String → String → Fault
infra code message = record { class = infra_fault; code = code; message = message }

abbrev require {ℓ} : {A : Type ℓ} → Option A → Fault → Result Fault A
require none fault = err fault
require (some a) fault = ok a

abbrev ensure : Bool → Fault → Result Fault (Unit {0})
ensure true fault = ok tt
ensure false fault = err fault

unfoldable pub examine : Db → Submission → Result Fault Promotion
examine db s = do
  run ← require (winning_run db s.id) (
      infra "missing_winning_eval_run"
        "No successful winning eval run is available for reign promotion")
  _ ← ensure (str_eq run.challenger_model_hash s.model_hash) (
      infra "challenger_model_hash_mismatch"
        "Winning eval challenger model hash does not match submission model hash")
  old_reign ←
      require (active_reign db)
        (infra "missing_active_reign" "No active reign exists for winner promotion")
  let members = active_members db old_reign.id
  lead ←
      require (lead_king members)
        (infra "missing_active_lead_king" "Active reign has no slot 1 lead king")
  _ ←
      ensure (beat run lead)
        (infra "stale_winning_eval" "Winning eval did not beat the current active lead king")
  artifact ← require (model_manifest db s.id) (
      infra "missing_challenger_model_artifact"
        "Winning submission has no MODEL_MANIFEST artifact for king version")
  ok (record {
    run = run;
    old_reign = old_reign;
    members = members;
    lead = lead;
    artifact = artifact;
  })
