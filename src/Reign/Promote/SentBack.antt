-- ===== src/Reign/Promote/SentBack.antt =====
-- What a failed check leaves behind.
use albedo.Prelude.{
  leb, ◌==◌, update-update, update, err, ℕ, ◌+◌, ◌*◌, max, min, ◌≡◌, refl, ap, ◌∙◌, Bool, true,
  false, none, some,
}
use albedo.Tables.{Db, Submission, Fault, SubmissionState, set_reign}
use albedo.Reign.Checks.{examine}
use albedo.Reign.Promote.{bump_retry_count, mark_retryable, promote_next_winner, returned}
use albedo.Reign.Claim.{
  Call, claim, is_claimable, next_submission, record_event, set_submission, update_attempt,
  has_active_attempt,
}
use albedo.Reign.Promote.Cases.{promote_sends_back}

-- The row that a failed check makes of a row of the claimed submission.
abbrev pub sent_back_row : Call → Fault → Submission → Submission
sent_back_row call fault t = record t {
  state = SubmissionState.set_reign_retryable;
  fault = some fault;
  updated_at = call.now;
  retry_count = t.retry_count + 1;
}

-- `db'` is `db` but for the attempts, the events and the claimed submission's rows.
pub record IsSentBack (call : Call) (s : Submission) (fault : Fault) (db db' : Db) : Type 0 where
  pub reigns : db'.reigns ≡ db.reigns
  pub reign_members : db'.reign_members ≡ db.reign_members
  pub king_versions : db'.king_versions ≡ db.king_versions
  pub weight_epochs : db'.weight_epochs ≡ db.weight_epochs
  pub submissions :
      db'.submissions ≡ update (λ t. t.id == s.id) (sent_back_row call fault) db.submissions
  -- Under the retry count that it has now, such a row is due again after its backoff, and not before.
  pub backs_off :
      (now : ℕ) (t : Submission)
      → is_claimable now (sent_back_row call fault t)
        ≡ leb (call.now + min (max (t.retry_count + 1) 1) 60 * 60) now

mark_retryable-IsSentBack :
    (call : Call) (s : Submission) (fault : Fault) (db : Db)
    → IsSentBack call s fault db (mark_retryable call s fault (claim call s db))
unfolding mark_retryable claim set_submission record_event bump_retry_count update_attempt
    is_claimable
mark_retryable-IsSentBack call s fault db =
    let is_row : Submission → Bool = λ t. t.id == s.id in
    let start : Submission → Submission = λ t. record t {
      state = SubmissionState.set_reign_running;
      fault = none;
      updated_at = call.now;
    } in
    let stop : Submission → Submission = λ t. record t {
      state = SubmissionState.set_reign_retryable;
      fault = some fault;
      updated_at = call.now;
    } in
    let bump : Submission → Submission = λ t. record t { retry_count = t.retry_count + 1 } in
    record {
      reigns = refl;
      reign_members = refl;
      king_versions = refl;
      weight_epochs = refl;
      submissions =
          ap (update is_row bump) (update-update is_row start stop db.submissions (λ t. refl))
          ∙ update-update is_row (λ t. stop (start t)) bump db.submissions (λ t. refl);
      backs_off = λ now t. refl;
    }

-- When the lock is held, a submission without an active SET_REIGN attempt is due and one of its checks
-- fails, the call returns true,
-- leaves the reigns, their members, the kings and the weight epochs as they were, makes the
-- submission retryable with that fault and one more retry, and so delays it by a minute for each
-- retry, up to sixty.
pub promote_next_winner-IsSentBack :
    (call : Call) (db : Db) (s : Submission) (fault : Fault)
    → call.locked ≡ true
    → next_submission call db ≡ some s
    → has_active_attempt db s.id set_reign ≡ false
    → examine (claim call s db) s ≡ err fault
    → ((promote_next_winner call db).1 ≡ returned true)
      × IsSentBack call s fault db (promote_next_winner call db).0
promote_next_winner-IsSentBack call db s fault held due free failed =
    rw (promote_sends_back call db s held due free fault failed)
      (refl, mark_retryable-IsSentBack call s fault db)
