-- ===== src/Reign/Promote/Safety.antt =====
-- When `promote_next_winner` raises, and what justifies a coronation.
use albedo.Prelude.{
  ◌==◌, In, In-select, first_by-In, find?-In, ok, ℕ, ◌≡◌, refl, ◌≢◌, true, false, ◌&&◌, some, List,
  arith, str_eq, str_eq_iff,
}
use albedo.Tables.{Db, Submission, EvalRun, Reign, is_active, set_reign}
use albedo.Reign.Checks.{
  Promotion, active_members, active_reign, beat, examine, lead_king, winning_run, by_latest_run,
  holds_slot_1, is_true,
}
use albedo.Reign.Promote.{promote_next_winner, raised, returned}
use albedo.Reign.Claim.{
  Call, claim, next_submission, record_event, set_submission, has_active_attempt,
}
use albedo.Reign.Plan.{ReignMember}
use albedo.Reign.Promote.Cases.{crowned, idle, promote_cases, sent_back, claim_raised}
use albedo.Reign.Promote.Reigns.{active_reign-In, reigns-claim, reigns-mark_retryable}

-- `promote_next_winner` raises only where the submission that is due has an active SET_REIGN attempt
-- already, and then the tables are as they were: the plan always exists and always has a challenger.
pub promote_next_winner-raised :
    (call : Call) (db : Db)
    → (promote_next_winner call db).1 ≡ raised
    → (s : Submission) × (next_submission call db ≡ some s)
      × (has_active_attempt db s.id set_reign ≡ true)
      × ((promote_next_winner call db).0 ≡ db)
promote_next_winner-raised call db wrong = elim (promote_cases call db) [
  | idle e ↦ absurd (let clash : returned false ≡ raised = rw e at wrong in cc clash)
  | claim_raised s due taken e ↦ (s, due, taken, rw e refl)
  | sent_back s fault _ _ _ e ↦
      absurd (let clash : returned true ≡ raised = rw e at wrong in cc clash)
  | crowned s found planned _ _ _ _ e ↦
      absurd (let clash : returned true ≡ raised = rw e at wrong in cc clash)
]

-- What justifies a new reign: a recorded win of the submission's very model against the member in
-- slot 1 of the active reign.
pub record HasBeatenLead (db : Db) (s : Submission) : Type 0 where
  pub run : EvalRun
  pub run_row : In run db.eval_runs
  pub of_submission : run.submission_id ≡ s.id
  pub succeeded : run.is_succeeded ≡ true
  pub won : run.challenger_won ≡ some true
  pub same_model : run.challenger_model_hash ≡ s.model_hash
  pub reign : Reign
  pub reign_row : In reign db.reigns
  pub reign_active : is_active reign ≡ true
  pub lead : ReignMember
  pub lead_row : In lead (active_members db reign.id)
  pub lead_slot : lead.previous_slot ≡ some 1
  pub beat_submission : run.king_submission_id ≡ some lead.submission_id
  pub beat_model : run.king_model_hash ≡ lead.model_hash

-- What the checks have established, each by its own equation.
record Passed (db : Db) (s : Submission) (found : Promotion) : Type 0 where
  won : winning_run db s.id ≡ some found.run
  same : str_eq found.run.challenger_model_hash s.model_hash ≡ true
  reign : active_reign db ≡ some found.old_reign
  lead : lead_king (active_members db found.old_reign.id) ≡ some found.lead
  beats : beat found.run found.lead ≡ true

examine-Passed :
    (db : Db) (s : Submission) (found : Promotion) → examine db s ≡ ok found → Passed db s found
unfolding examine
examine-Passed db s found e = ground arith

find_lead :
    (ms : List ReignMember) {m : ReignMember}
    → lead_king ms ≡ some m
    → In m ms × (m.previous_slot ≡ some 1)
unfolding lead_king
find_lead ms e =
    let (row, holds) = find?-In holds_slot_1 ms e in (row, unfold holds_slot_1 in ground arith)

won_by :
    (db : Db) (id : ℕ) {run : EvalRun}
    → winning_run db id ≡ some run
    → In run db.eval_runs
      × (run.submission_id ≡ id)
      × (run.is_succeeded ≡ true)
      × (run.challenger_won ≡ some true)
unfolding winning_run
won_by db id e =
    let (row, passed) =
      In-select (λ r. (r.submission_id == id) && r.is_succeeded && is_true r.challenger_won)
        db.eval_runs (first_by-In by_latest_run _ e) in
    (row, ground arith, ground arith, ground arith)

Passed-HasBeatenLead :
    (call : Call) (db : Db) (s : Submission) (found : Promotion)
    → Passed (claim call s db) s found
    → HasBeatenLead db s
unfolding beat claim set_submission record_event active_members
Passed-HasBeatenLead call db s found h =
    let (run_row, of, done, won) = won_by (claim call s db) s.id h.won in
    let (reign_row, on) = active_reign-In (claim call s db) h.reign in
    let (lead_row, first) = find_lead _ h.lead in
    record {
      run = found.run;
      run_row = run_row;
      of_submission = of;
      succeeded = done;
      won = won;
      same_model = (str_eq_iff _ _).0 h.same;
      reign = found.old_reign;
      reign_row = reign_row;
      reign_active = on;
      lead = found.lead;
      lead_row = lead_row;
      lead_slot = first;
      beat_submission = ground (arith, h.beats);
      beat_model = (str_eq_iff _ _).0 (ground (arith, h.beats));
    }

-- A call that changes the table of reigns had claimed a submission that is recorded as the winner,
-- by the very model that was submitted, against the member in slot 1 of the active reign.
pub promote_next_winner-HasBeatenLead :
    (call : Call) (db : Db)
    → (promote_next_winner call db).0.reigns ≢ db.reigns
    → (s : Submission) × (next_submission call db ≡ some s) × HasBeatenLead db s
promote_next_winner-HasBeatenLead call db changed = elim (promote_cases call db) [
  | idle e ↦ absurd (changed (rw e))
  | claim_raised s _ _ e ↦ absurd (changed (rw e))
  | sent_back s fault _ _ _ e ↦ absurd (changed (rw (e, reigns-mark_retryable, reigns-claim)))
  | crowned s found planned _ due passed _ e ↦
      (s, due, Passed-HasBeatenLead call db s found (examine-Passed _ s found passed))
]
