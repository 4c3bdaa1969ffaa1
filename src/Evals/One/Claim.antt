-- ===== src/Evals/One/Claim.antt =====
-- `claim_next_eval` starts a run only where none is, and so one is running at most, in any order of the
-- operations (src/albedo_eval_service/control/repository.py).
use albedo.Prelude.{
  ◌==◌, ==_iff, ==_ne, Bool-cases, Option-cases, IsKeyed, update_none, update-IsKeyed, length,
  All-map, update, any, count, ℕ, zero, suc, ◌≤◌, ◌≡◌, refl, sym, ap, ◌∙◌, ◌≢◌, inl, inr, false,
  ◌||◌, not, Option, none, some, some-injective, List, [], ◌∷◌, arith,
}
use albedo.Evals.{EvalDb, Host, LeadKing, Submission, record_event, set_submission}
use albedo.Evals.Claim.{
  ClaimCall, claim_with, dispatch_eval, find_candidate, hotkey_already_scored, is_running,
  make_retryable, next_queued, reject, reject_already_validated, start_running, ClaimAnswer,
  claim_after, claim_found, claim_next_eval, is_pending_reign, lead_king, next_host,
}
use albedo.Evals.One.{
  HasKeys, IsCalm, reject-IsQuiet, retryable-IsQuiet, running_count, set_submission-IsCalm,
  then-IsCalm,
}

reject-IsCalm :
    (now : ℕ) (s : Submission) (db : EvalDb) → IsCalm db (reject_already_validated now s db)
unfolding reject_already_validated record_event
reject-IsCalm now s db = set_submission-IsCalm s.id (reject now) db (reject-IsQuiet now)

find_candidate-IsCalm :
    (fuel : ℕ) (call : ClaimCall) (db : EvalDb) {db' : EvalDb} {o : Option Submission}
    → find_candidate fuel call db ≡ some (db', o)
    → IsCalm db db'
unfolding find_candidate
find_candidate-IsCalm zero call db e = cc
find_candidate-IsCalm (suc fuel) call db {db'} {o} e = elim (Option-cases (next_queued call db)) [
  | inl nothing ↦
      let same : db ≡ db' = ground (arith, e, nothing) in rw (← same) ((λ k. k), omega arith)
  | inr (s, found) ↦ elim (Bool-cases (hotkey_already_scored db s.hotkey)) [
    | inr fresh ↦
        let same : db ≡ db' = ground (arith, e, found, fresh) in rw (← same) ((λ k. k), omega arith)
    | inl scored ↦
        let rest : find_candidate fuel call (reject_already_validated call.now s db)
            ≡ some (db', o) =
          ground (arith, e, found, scored) in
        then-IsCalm db (reject_already_validated call.now s db) db' (reject-IsCalm call.now s db)
          (find_candidate-IsCalm fuel call (reject_already_validated call.now s db) rest)
  ]
]

count-none : (rows : List Submission) → any is_running rows ≡ false → count is_running rows ≡ 0
unfolding count any
count-none [] h = refl
count-none (s ∷ rows) h = ground (arith, count-none rows)

-- An UPDATE by the key adds one at most.
count-update-key :
    (k : ℕ) (f : Submission → Submission) (rows : List Submission)
    → IsKeyed (λ s. s.id) rows
    → count is_running (update (λ s. s.id == k) f rows) ≤ suc (count is_running rows)
unfolding count update
count-update-key k f [] keyed = omega arith
count-update-key k f (s ∷ rows) keyed = elim (Bool-cases (s.id == k)) [
  | inl hit ↦
      let same : s.id ≡ k = (==_iff s.id k).0 hit in
      let rest : update (λ t. t.id == k) f rows ≡ rows =
        update_none (λ t. t.id == k) f rows
          (All-map {Q = λ t. (t.id == k) ≡ false}
            (λ t (other : t.id ≢ s.id). ==_ne t.id k (λ q. other (q ∙ sym same))) rows keyed.0) in
      rw (hit, rest) (ground arith)
  | inr miss ↦ rw miss (ground (arith, count-update-key k f rows keyed.1))
]

-- At most one submission is running, and the ids are distinct.
abbrev pub HasOneEval : EvalDb → Type 0
HasOneEval db = HasKeys db × (running_count db ≤ 1)

pub calm-HasOneEval : (db db' : EvalDb) → IsCalm db db' → HasOneEval db → HasOneEval db'
calm-HasOneEval db db' calm h = (calm.0 h.0, omega (arith, calm.1, h.1))

start_running_id : (now : ℕ) (s : Submission) → (start_running now s).id ≡ s.id
unfolding start_running
start_running_id now s = refl

claim_with-HasOneEval :
    (call : ClaimCall) (before : EvalDb) (s : Submission) (host : Option Host)
    (king : Option LeadKing) (db : EvalDb)
    → HasOneEval before
    → HasKeys db
    → running_count db ≡ 0
    → HasOneEval (claim_with call before s host king db).0
unfolding claim_with dispatch_eval record_event set_submission
claim_with-HasOneEval call before s none king db h keys idle_now = (keys, omega (arith, idle_now))
claim_with-HasOneEval call before s (some host) none db h keys idle_now =
    let calm =
      set_submission-IsCalm s.id (make_retryable call.now "INFRA_FAULT" "missing_active_lead_king")
        db (retryable-IsQuiet call.now "INFRA_FAULT" "missing_active_lead_king") in
    (calm.0 keys, omega (arith, calm.1, idle_now))
claim_with-HasOneEval call before s (some host) (some king) db h keys idle_now =
    elim (Bool-cases (call.is_built s king host)) [
      | inr unbuilt ↦ rw (claim_with, unbuilt) h
      | inl built ↦
          rw (claim_with, built)
            (
              update-IsKeyed (λ t. t.id) (λ t. t.id == s.id) (start_running call.now) db.submissions
                  (start_running_id call.now) keys,
              omega (
                arith,
                idle_now,
                count-update-key s.id (start_running call.now) db.submissions keys,
              ),
            )
    ]

claim_after-HasOneEval :
    (call : ClaimCall) (db : EvalDb) (o : Option (EvalDb × Option Submission)) {db' : EvalDb}
    {answer : ClaimAnswer}
    → HasOneEval db
    → running_count db ≡ 0
    → ((v : EvalDb) (s : Option Submission) → o ≡ some (v, s) → IsCalm db v)
    → claim_after call db o ≡ some (db', answer)
    → HasOneEval db'
unfolding claim_after claim_found
claim_after-HasOneEval call db none h idle_now calm e = cc
claim_after-HasOneEval call db (some (v, none)) {db'} h idle_now calm e =
    let same : v ≡ db' = ap (λ (x : EvalDb × ClaimAnswer). x.0) (some-injective _ _ e) in
    rw (← same) (calm-HasOneEval db v (calm v none refl) h)
claim_after-HasOneEval call db (some (v, some s)) {db'} h idle_now calm e =
    let same = ap (λ (x : EvalDb × ClaimAnswer). x.0) (some-injective _ _ e) in
    let quiet = calm v (some s) refl in
    rw (← same) (
      claim_with-HasOneEval call db s (next_host call v) (lead_king v) v h (quiet.0 h.0)
        (omega (arith, quiet.1, idle_now)))

pub claim-HasOneEval :
    (call : ClaimCall) (db : EvalDb) {db' : EvalDb} {answer : ClaimAnswer}
    → claim_next_eval call db ≡ some (db', answer)
    → HasOneEval db
    → HasOneEval db'
unfolding claim_next_eval
claim-HasOneEval call db {db'} {answer} e h =
    elim (Bool-cases
      (not call.is_free || any is_running db.submissions || any is_pending_reign db.submissions)) [
        | inl busy ↦ let same : db ≡ db' = ground (arith, e, busy) in rw (← same) h
        | inr open_now ↦
            let idle_now : any is_running db.submissions ≡ false = ground (arith, open_now) in
            let found : claim_after call db (find_candidate (suc (length db.submissions)) call db)
                ≡ some (db', answer) =
              ground (arith, e, open_now) in
            claim_after-HasOneEval call db (find_candidate (suc (length db.submissions)) call db) h
              (count-none db.submissions idle_now)
              (λ v s q. find_candidate-IsCalm (suc (length db.submissions)) call db q) found
      ]
