-- ===== src/Reign/Promote/Coronation.antt =====
-- What a coronation leaves in the tables.
use albedo.Prelude.{
  ◌==◌, ==_refl, ==_ne, All-update, update-All, sum_of, All, sum_of-map, All-map, select, first_by,
  select-append, first_by_last, select_none, select-All, ok, ℕ, ◌<◌, ◌≡◌, refl, sym, ◌∙◌, ◌≢◌, true,
  false, Option, none, some, List, [], ◌∷◌, ◌++◌, map, arith,
}
use albedo.Tables.{Db, Submission, MemberRow, Reign, SubmissionState, is_active, Fault, set_reign}
use albedo.Reign.Checks.{Promotion, active_reign, by_version, examine}
use albedo.Reign.Promote.{
  challenger_member, member_row, new_reign, replace_reign, crown, promote_next_winner, returned,
}
use albedo.Reign.Claim.{
  Call, record_event, set_submission, claim, next_submission, has_active_attempt,
}
use albedo.Reign.Plan.{PlannedReignMember}
use albedo.Reign.Plan.Laws.{IsReignPlan}
use albedo.Reign.Promote.Reigns.{next_version, reigns-crown, versions_below}
use albedo.Reign.Promote.Cases.{promote_crowns}

-- The rows of `reign_members` of one reign.
abbrev pub rows_of : Db → ℕ → List MemberRow
rows_of db reign_id = select (λ row. row.reign_id == reign_id) db.reign_members

-- The state of one submission's rows.
abbrev pub HasState : Db → ℕ → SubmissionState → Type 0
HasState db id state = All (λ t. t.id ≡ id → t.state ≡ state) db.submissions

-- `db'` has, above the reigns `old`, the reign of a plan for submission `s`.
pub record IsCrowned (call : Call) (s : Submission) (found : Promotion) (old : List Reign)
    (db' : Db) : Type 0 where
  pub version : ℕ
  pub newest : All (λ r. r.version < version) old
  pub reign : active_reign db' ≡ some (new_reign call s found version)
  pub plan : List PlannedReignMember
  pub is_plan : IsReignPlan (challenger_member call s) plan
  pub rows : rows_of db' call.reign_id ≡ map (member_row call) plan
  pub whole : sum_of (λ row. row.weight_bps) (rows_of db' call.reign_id) ≡ 10000
  pub state : HasState db' s.id SubmissionState.reign_set

module _ (call : Call) (s : Submission) (found : Promotion) (reigns : List Reign)
    (version : ℕ) where
  new_comes_first :
      All (λ r. r.version < version) reigns
      → first_by by_version
          (select is_active (replace_reign found.old_reign (new_reign call s found version) reigns))
        ≡ some (new_reign call s found version)
  unfolding replace_reign new_reign by_version
  new_comes_first newest = rw select-append (
      unfold select in
      first_by_last by_version _ _ (
        select-All _ is_active _ (
          All-update _ _ _ reigns (λ r lt. lt)
            (All-map (λ r (lt : r.version < version). ground arith) reigns newest))))

-- An UPDATE of one submission gives its rows that state.
set_submission-HasState :
    (id : ℕ) (state : SubmissionState) (fault : Option Fault) (now : ℕ) (db : Db)
    → HasState (set_submission id state fault now db) id state
unfolding set_submission
set_submission-HasState id state fault now db =
    update-All (λ t. t.id ≡ id → t.state ≡ state) (λ s. s.id == id)
      (λ s. record s { state = state; fault = fault; updated_at = now }) db.submissions
      (λ t _ _. refl) (λ t other same. ground arith)

module _ (call : Call) (s : Submission) (found : Promotion) (planned : List PlannedReignMember)
    (slot : ℕ) (db : Db) where
  crown-HasState : HasState (crown call s found planned slot db) s.id SubmissionState.reign_set
  unfolding crown record_event
  crown-HasState = set_submission-HasState s.id SubmissionState.reign_set none call.now _

  reign_members-crown :
      (crown call s found planned slot db).reign_members
      ≡ db.reign_members ++ map (member_row call) planned
  unfolding crown record_event set_submission
  reign_members-crown = ground arith

-- The rows of a reign whose id is new are those of its plan, and weigh as much.
module _ (call : Call) where
  fresh_rows :
      (planned : List PlannedReignMember)
      → select (λ row. row.reign_id == call.reign_id) (map (member_row call) planned)
        ≡ map (member_row call) planned
  unfolding select member_row
  fresh_rows [] = refl
  fresh_rows (p ∷ planned) = rw (==_refl call.reign_id, fresh_rows planned)

  sum_of-rows :
      (planned : List PlannedReignMember)
      → sum_of (λ row. row.weight_bps) (map (member_row call) planned)
        ≡ sum_of (λ p. p.weight_bps) planned
  unfolding member_row
  sum_of-rows [] = refl
  sum_of-rows (p ∷ planned) = omega (arith, sum_of-rows planned)

module _ (call : Call) (s : Submission) (found : Promotion) (planned : List PlannedReignMember)
    (db : Db) where
  rows_of-crown :
      All (λ row. row.reign_id ≢ call.reign_id) db.reign_members
      → rows_of (crown call s found planned 1 db) call.reign_id ≡ map (member_row call) planned
  rows_of-crown fresh =
      let none_yet =
        All-map {Q = λ row. (row.reign_id == call.reign_id) ≡ false}
          (λ row. ==_ne row.reign_id call.reign_id) db.reign_members fresh in
      rw (reign_members-crown, select-append, fresh_rows)
        (rw (select_none (λ row. row.reign_id == call.reign_id) db.reign_members none_yet) refl)

  active_reign-crown :
      active_reign (crown call s found planned 1 db)
      ≡ some (new_reign call s found (next_version call s db))
  unfolding active_reign
  active_reign-crown =
      rw reigns-crown (new_comes_first call s found db.reigns _ (versions_below db.reigns))

  crown-IsCrowned :
      All (λ row. row.reign_id ≢ call.reign_id) db.reign_members
      → IsReignPlan (challenger_member call s) planned
      → IsCrowned call s found db.reigns (crown call s found planned 1 db)
  crown-IsCrowned fresh is_plan = record {
    version = next_version call s db;
    newest = versions_below db.reigns;
    reign = active_reign-crown;
    plan = planned;
    is_plan = is_plan;
    rows = rows_of-crown fresh;
    whole = rw (rows_of-crown fresh) (
        sum_of-rows call planned
        ∙ sym (sum_of-map (λ w. w) (λ p. p.weight_bps) planned)
        ∙ is_plan.split.whole);
    state = crown-HasState call s found planned 1 db;
  }

-- When the lock is held, a submission without an active SET_REIGN attempt is due and its checks pass, the call crowns it: the active
-- reign is a new one with a version above all others, its rows are those of a plan with the
-- submission in slot 1, their weights sum to 10000 bps, and the submission is REIGN_SET, provided
-- that the id drawn for the reign is not in use.
pub promote_next_winner-IsCrowned :
    (call : Call) (db : Db) (s : Submission) (found : Promotion)
    → call.locked ≡ true
    → next_submission call db ≡ some s
    → has_active_attempt db s.id set_reign ≡ false
    → examine (claim call s db) s ≡ ok found
    → All (λ row. row.reign_id ≢ call.reign_id) db.reign_members
    → ((promote_next_winner call db).1 ≡ returned true)
      × IsCrowned call s found db.reigns (promote_next_winner call db).0
unfolding claim set_submission record_event
promote_next_winner-IsCrowned call db s found held due free passed fresh =
    let (planned, made, is_plan) = promote_crowns call db s held due free found passed in
    rw made (refl, crown-IsCrowned call s found planned (claim call s db) fresh is_plan)
