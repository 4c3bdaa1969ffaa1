-- ===== src/Evals/Loop.antt =====
-- The loop of `claim_next_eval` ends: each round that goes on rejects a queued submission.
use albedo.Prelude.{
  ◌==◌, Bool-cases, Option-cases, IsKeyed, count-update_key, update-IsKeyed, length, select, count,
  In, In-select, first_by-In, ℕ, zero, suc, ◌≤◌, ◌<◌, ◌≡◌, refl, ◌≢◌, inl, inr, Bool, true, false,
  Option, none, some, List, [], ◌∷◌, arith,
}
use albedo.Evals.{EvalDb, Submission, record_event, set_submission}
use albedo.Evals.Claim.{
  ClaimCall, by_priority, claim_next_eval, find_candidate, hotkey_already_scored, is_candidate,
  is_queued, next_queued, reject, reject_already_validated, claim_after,
}

count-le-length : (p : Submission → Bool) (rows : List Submission) → count p rows ≤ length rows
unfolding count
count-le-length p [] = omega arith
count-le-length p (s ∷ rows) = ground (arith, count-le-length p rows)

rejected : (now : ℕ) (s : Submission) → is_queued (reject now s) ≡ false
unfolding is_queued reject
rejected now s = refl

candidate_queued :
    (call : ClaimCall) (db : EvalDb) (s : Submission)
    → is_candidate call db s ≡ true
    → is_queued s ≡ true
unfolding is_candidate
candidate_queued call db s h = ground (arith, h)

pub next_queued-In :
    (call : ClaimCall) (db : EvalDb) {s : Submission}
    → next_queued call db ≡ some s
    → In s db.submissions × (is_candidate call db s ≡ true)
unfolding next_queued
next_queued-In call db e =
    In-select (is_candidate call db) db.submissions
      (first_by-In by_priority (select (is_candidate call db) db.submissions) e)

reject-count :
    (call : ClaimCall) (db : EvalDb) {s : Submission}
    → IsKeyed (λ t. t.id) db.submissions
    → next_queued call db ≡ some s
    → suc (count is_queued (reject_already_validated call.now s db).submissions)
      ≡ count is_queued db.submissions
unfolding reject_already_validated set_submission record_event
reject-count call db {s} ids e =
    let (here, candidate) = next_queued-In call db e in
    count-update_key is_queued (λ t. t.id) s.id (reject call.now) db.submissions (rejected call.now)
      ids here refl (candidate_queued call db s candidate)

reject-IsKeyed :
    (now : ℕ) (s : Submission) (db : EvalDb)
    → IsKeyed (λ t. t.id) db.submissions
    → IsKeyed (λ t. t.id) (reject_already_validated now s db).submissions
unfolding reject_already_validated set_submission record_event reject
reject-IsKeyed now s db ids =
    update-IsKeyed (λ t. t.id) (λ t. t.id == s.id) (reject now) db.submissions (λ t. refl) ids

pub find_candidate-ends :
    (fuel : ℕ) (call : ClaimCall) (db : EvalDb)
    → IsKeyed (λ t. t.id) db.submissions
    → count is_queued db.submissions < fuel
    → find_candidate fuel call db ≢ none
unfolding find_candidate
find_candidate-ends zero call db ids enough = absurd (omega arith)
find_candidate-ends (suc fuel) call db ids enough = elim (Option-cases (next_queued call db)) [
  | inl nothing ↦ rw (find_candidate, nothing) cc
  | inr (s, found) ↦ elim (Bool-cases (hotkey_already_scored db s.hotkey)) [
    | inr fresh ↦ rw (find_candidate, found, fresh) cc
    | inl scored ↦
        rw (find_candidate, found, scored)
          (find_candidate-ends fuel call (reject_already_validated call.now s db)
            (reject-IsKeyed call.now s db ids) (omega (arith, reject-count call db ids found)))
  ]
]

claim_after_some :
    (call : ClaimCall) (db : EvalDb) (o : Option (EvalDb × Option Submission))
    → o ≢ none
    → claim_after call db o ≢ none
unfolding claim_after
claim_after_some call db none h = absurd (h refl)
claim_after_some call db (some found) h = cc

-- With distinct submission ids, claim_next_eval ends: as many rounds as there are submissions, and one
-- more, are enough for its loop.
pub claim_next_eval-ends :
    (call : ClaimCall) (db : EvalDb)
    → IsKeyed (λ t. t.id) db.submissions
    → claim_next_eval call db ≢ none
unfolding claim_next_eval
claim_next_eval-ends call db ids =
    let enough =
      find_candidate-ends (suc (length db.submissions)) call db ids
        (omega (arith, count-le-length is_queued db.submissions)) in
    ground (
      arith,
      enough,
      claim_after_some call db (find_candidate (suc (length db.submissions)) call db),
    )
