-- ===== src/Reign/Promote/Cases.antt =====
-- The ways in which `promote_next_winner` ends.
use albedo.Prelude.{
  Bool-cases, Option-cases, find?, Result, ok, err, ◌≡◌, refl, inl, inr, true, false, some, List,
}
use albedo.Tables.{Db, Submission, Fault, set_reign}
use albedo.Reign.Checks.{Promotion, examine}
use albedo.Reign.Promote.{
  challenger_member, crown, mark_retryable, promote_claimed, promote_found, promote_next_winner,
  returned, raised,
}
use albedo.Reign.Claim.{Call, claim, next_submission, has_active_attempt}
use albedo.Reign.Plan.{PlannedReignMember, ReignMember}
use albedo.Reign.Plan.Laws.{IsReignPlan, build_reign_plan-IsReignPlan}

-- `next(member for member in planned_members if member.is_challenger)` is the one at slot 1.
find?-lead :
    {challenger : ReignMember} (planned : List PlannedReignMember)
    → IsReignPlan challenger planned
    → (p : PlannedReignMember) × (find? (λ m. m.is_challenger) planned ≡ some p) × (p.slot ≡ 1)
unfolding find?
find?-lead planned h = (h.lead, simp (h.crowned, h.lead_is_challenger), h.lead_slot)

-- With a plan in hand, the coronation goes through, and the challenger enters at slot 1.
pub promote_found_crowns :
    (call : Call) (s : Submission) (found : Promotion) (before db : Db)
    → (planned : List PlannedReignMember) × (promote_found call s found before db
        ≡ (crown call s found planned 1 db, returned true))
      × IsReignPlan (challenger_member call s) planned
unfolding promote_found
promote_found_crowns call s found before db =
    let (planned, made, is_plan) =
      build_reign_plan-IsReignPlan found.members (challenger_member call s) in
    let (p, leads, first) = find?-lead planned is_plan in
    (planned, simp (made, leads, first, promote_found), is_plan)

-- The call found nothing to do: another worker holds the lock, or no submission is due.
-- Otherwise the first due submission has an active attempt already, and the claim raises; or it was
-- claimed, and it was either sent back with the fault of a
-- check, or crowned by a plan.
pub data Ended (call : Call) (db : Db) : Type 0 where
  idle : promote_next_winner call db ≡ (db, returned false) → Ended call db
  claim_raised :
      (s : Submission)
      → next_submission call db ≡ some s
      → has_active_attempt db s.id set_reign ≡ true
      → promote_next_winner call db ≡ (db, raised)
      → Ended call db
  sent_back :
      (s : Submission) (fault : Fault)
      → call.locked ≡ true
      → next_submission call db ≡ some s
      → examine (claim call s db) s ≡ err fault
      → promote_next_winner call db ≡ (mark_retryable call s fault (claim call s db), returned true)
      → Ended call db
  crowned :
      (s : Submission) (found : Promotion) (planned : List PlannedReignMember)
      → call.locked ≡ true
      → next_submission call db ≡ some s
      → examine (claim call s db) s ≡ ok found
      → IsReignPlan (challenger_member call s) planned
      → promote_next_winner call db
        ≡ (crown call s found planned 1 (claim call s db), returned true)
      → Ended call db

module _ (call : Call) (db : Db) (s : Submission) (held : call.locked ≡ true)
    (due : next_submission call db ≡ some s)
    (idle_stage : has_active_attempt db s.id set_reign ≡ false) where
  pub promote_sends_back :
      (fault : Fault)
      → examine (claim call s db) s ≡ err fault
      → promote_next_winner call db ≡ (mark_retryable call s fault (claim call s db), returned true)
  unfolding promote_next_winner promote_claimed
  promote_sends_back fault e = simp (held, due, idle_stage, e, promote_next_winner, promote_claimed)

  pub promote_crowns :
      (found : Promotion)
      → examine (claim call s db) s ≡ ok found
      → (planned : List PlannedReignMember) × (promote_next_winner call db
          ≡ (crown call s found planned 1 (claim call s db), returned true))
        × IsReignPlan (challenger_member call s) planned
  unfolding promote_next_winner promote_claimed
  promote_crowns found e =
      let (planned, made, is_plan) = promote_found_crowns call s found db (claim call s db) in
      (planned, simp (held, due, idle_stage, e, promote_next_winner, promote_claimed) made, is_plan)

pub promote_cases : (call : Call) (db : Db) → Ended call db
unfolding promote_next_winner promote_claimed
promote_cases call db = elim (Bool-cases call.locked) [
  | inr busy ↦ idle (simp (busy, promote_next_winner))
  | inl held ↦ elim (Option-cases (next_submission call db)) [
    | inl nothing ↦ idle (simp (held, nothing, promote_next_winner))
    | inr (s, due) ↦ elim (Bool-cases (has_active_attempt db s.id set_reign)) [
      | inl taken ↦
          claim_raised s due taken (simp (held, due, taken, promote_next_winner, promote_claimed))
      | inr free ↦ go s held due free (examine (claim call s db) s) refl
    ]
  ]
]
  where
    go :
        (s : Submission)
        → call.locked ≡ true
        → next_submission call db ≡ some s
        → has_active_attempt db s.id set_reign ≡ false
        → (r : Result Fault Promotion) → examine (claim call s db) s ≡ r
        → Ended call db
    go s held due free (err fault) e =
        sent_back s fault held due e (promote_sends_back call db s held due free fault e)
    go s held due free (ok found) e =
        let (planned, made, is_plan) = promote_crowns call db s held due free found e in
        crowned s found planned held due e is_plan made
