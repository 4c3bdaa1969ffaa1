-- ===== src/Evals/Wins.antt =====
-- A submission wins only with two winning runs (src/albedo_eval_service/control/repository.py).
use albedo.Prelude.{
  ◌==◌, if◌then◌else◌, update-All, All, update, any, count, ℕ, ◌+◌, ◌≤◌, ◌<◌, ◌≡◌, Bool, true,
  false, ◌&&◌, List, [], ◌∷◌, arith,
}
use albedo.Evals.{EvalDb, EvalRun, RunState, SubmissionState, record_event, set_run, set_submission}
use albedo.Evals.Finish.{
  EvalIds, Verdict, finish_attempt, is_prior_win, is_running_attempt, is_true, mark_eval_succeeded,
  move_on, next_state, settle_success, succeed_run,
}

-- A SUCCEEDED run of the submission that the challenger won.
unfoldable pub is_win : ℕ → EvalRun → Bool
unfolding is_true
is_win submission_id r =
    (r.submission_id == submission_id)
    && (elim r.state [ RunState.run_succeeded ↦ true | _ ↦ false ])
    && is_true r.challenger_won

abbrev pub is_this : EvalIds → EvalRun → Bool
is_this ids r = (r.id == ids.eval_run_id) && (r.submission_id == ids.submission_id)

-- The prior wins stay, and the run of a won verdict is one more.
wins-succeed_run :
    (now : ℕ) (ids : EvalIds) (v : Verdict) (runs : List EvalRun)
    → is_true v.challenger_won ≡ true
    → count (is_prior_win ids) runs + (if any (is_this ids) runs then 1 else 0)
      ≤ count
          (is_win ids.submission_id)
          (update (λ r. r.id == ids.eval_run_id) (succeed_run now v) runs)
unfolding count any update is_prior_win is_win succeed_run
wins-succeed_run now ids v [] won = omega arith
wins-succeed_run now ids v (r ∷ runs) won = ground (arith, won, wins-succeed_run now ids v runs won)

won_state :
    (v : Verdict) (wins : ℕ)
    → next_state v wins ≡ SubmissionState.eval_win
    → (is_true v.challenger_won ≡ true) × (0 < wins)
unfolding next_state
won_state v wins h = ground (arith, h)

-- After mark_eval_succeeded for a running attempt and a run of the submission, the submission is
-- EVAL_WIN only if at least two of its runs are SUCCEEDED and won by the challenger.
pub mark_eval_succeeded-wins :
    (now : ℕ) (ids : EvalIds) (v : Verdict) (db : EvalDb)
    → any (is_running_attempt ids.attempt_id) db.attempts ≡ true
    → any (is_this ids) db.runs ≡ true
    → let db' = mark_eval_succeeded now ids v db in
      All
        (λ s.
          s.id ≡ ids.submission_id
          → s.state ≡ SubmissionState.eval_win
          → 2 ≤ count (is_win ids.submission_id) db'.runs)
        db'.submissions
unfolding mark_eval_succeeded settle_success record_event set_run finish_attempt set_submission
    move_on
mark_eval_succeeded-wins now ids v db latched named = rw latched (
    update-All
      (λ s.
        s.id ≡ ids.submission_id
        → s.state ≡ SubmissionState.eval_win
        → 2
          ≤ count (is_win ids.submission_id)
              (update (λ r. r.id == ids.eval_run_id) (succeed_run now v) db.runs))
      (λ s. s.id == ids.submission_id) (move_on now v (count (is_prior_win ids) db.runs))
      db.submissions
      (λ s hit mine won.
        let (challenger, wins) = won_state v (count (is_prior_win ids) db.runs) won in
        ground (arith, named, wins, wins-succeed_run now ids v db.runs challenger))
      (λ s miss mine won. ground (arith, miss, mine)))
