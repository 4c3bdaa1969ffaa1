-- ===== src/Reign/Claim/Laws.antt =====
-- Which submission `promote_next_winner` claims.
use albedo.Prelude.{
  leb, In, In-select, select-In, first_by-In, All-In, first_by-first, ℕ, ◌+◌, ◌*◌, ◌≤◌, ◌<◌, ◌≡◌,
  refl, ◌⊎◌, inl, inr, Bool, true, false, ◌&&◌, not, some, arith,
}
use albedo.Tables.{Submission, Db, SubmissionState}
use albedo.Reign.Claim.{Call, by_priority, is_claimable, next_submission, backoff_seconds}

by_priority_asym : (a b : Submission) → by_priority a b ≡ true → by_priority b a ≡ false
unfolding by_priority
by_priority_asym a b h = ground arith

by_priority_trans :
    (a b c : Submission)
    → by_priority a b ≡ false
    → by_priority b c ≡ false
    → by_priority a c ≡ false
unfolding by_priority
by_priority_trans a b c h k = ground arith

abbrev is_due : Call → Submission → Bool
is_due call s = is_claimable call.now s && not (call.is_skipped s.id)

-- What the claim waits for, in seconds: a minute for each retry, at least one and at most sixty.
abbrev pub IsDueAt : ℕ → Submission → Type 0
IsDueAt now s =
    (s.state ≡ SubmissionState.eval_win)
    ⊎ ((s.state ≡ SubmissionState.set_reign_retryable)
        × (s.updated_at + 60 ≤ now)
        × (s.updated_at + s.retry_count * 60 ≤ now ⊎ s.updated_at + 3600 ≤ now))

-- `s` is a due row that is not locked, and every other such row has a greater number of priority, or the
-- same and is no older.
pub record IsNext (call : Call) (db : Db) (s : Submission) : Type 0 where
  pub row : In s db.submissions
  pub due : IsDueAt call.now s
  pub unlocked : call.is_skipped s.id ≡ false
  pub first :
      (t : Submission)
      → In t db.submissions
      → IsDueAt call.now t
      → call.is_skipped t.id ≡ false
      → (s.priority < t.priority) ⊎ ((s.priority ≡ t.priority) × (s.created_at ≤ t.created_at))

state_cases :
    (state : SubmissionState)
    → (state ≡ SubmissionState.eval_win)
      ⊎ (state ≡ SubmissionState.set_reign_retryable)
      ⊎ ((now : ℕ) (s : Submission) → s.state ≡ state → is_claimable now s ≡ false)
unfolding is_claimable
state_cases SubmissionState.eval_win = inl refl
state_cases SubmissionState.set_reign_retryable = inr (inl refl)
state_cases _ = inr (inr (λ now s e. rw e refl))

due-IsDueAt : (now : ℕ) (s : Submission) → is_claimable now s ≡ true → IsDueAt now s
unfolding is_claimable backoff_seconds
due-IsDueAt now s h = elim (state_cases s.state) [
  | inl won ↦ inl won
  | inr (inl again) ↦
      let after : leb (s.updated_at + backoff_seconds s.retry_count) now ≡ true = rw again at h in
      inr (again, ground arith, ground arith)
  | inr (inr never) ↦ absurd (cc (never now s refl, h))
]

IsDueAt-due : (now : ℕ) (s : Submission) → IsDueAt now s → is_claimable now s ≡ true
unfolding is_claimable backoff_seconds
IsDueAt-due now s (inl won) = rw won refl
IsDueAt-due now s (inr (again, minute, inl few)) = rw again (ground (arith, minute, few))
IsDueAt-due now s (inr (again, minute, inr hour)) = rw again (ground (arith, minute, hour))

not_before :
    (s t : Submission)
    → by_priority t s ≡ false
    → (s.priority < t.priority) ⊎ ((s.priority ≡ t.priority) × (s.created_at ≤ t.created_at))
unfolding by_priority
not_before s t h = ground arith

-- The claimed submission is a row of the table that is EVAL_WIN, or SET_REIGN_RETRYABLE for a minute per
-- retry, at least one and at most sixty; and any other such row that is not locked has a greater number
-- of priority, or the same and is no older.
pub next_submission-IsNext :
    (call : Call) (db : Db) (s : Submission) → next_submission call db ≡ some s → IsNext call db s
unfolding next_submission
next_submission-IsNext call db s e =
    let (row, due) = In-select (is_due call) db.submissions (first_by-In by_priority _ e) in
    record {
      row = row;
      due = due-IsDueAt call.now s (ground (arith, due));
      unlocked = ground (arith, due);
      first = λ t m d free. not_before s t (
          All-In (λ y. by_priority y s ≡ false) _
            (first_by-first by_priority by_priority_asym by_priority_trans _ e)
            (select-In (is_due call) db.submissions m (rw (IsDueAt-due call.now t d, free) refl)));
    }
