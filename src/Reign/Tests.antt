-- ===== src/Reign/Tests.antt =====
-- What the set-reign worker does on the sample, and the theorems at these inputs.
use albedo.Prelude.{
  length, ok, err, ℕ, ◌≡◌, refl, ap, ◌≢◌, true, false, some, List, [], ◌∷◌, map, arith,
}
use albedo.Reign.Samples.{before, call, found, winner, unlisted, program, first_row, abandoned}
use albedo.Tables.{Fault, Submission, set_reign}
use albedo.Reign.Checks.{examine, infra, to_member}
use albedo.Reign.Promote.{challenger_member, promote_next_winner, raised, returned}
use albedo.Reign.Claim.{claim, next_submission, has_active_attempt}
use albedo.Reign.Plan.{PlannedReignMember, build_reign_plan, weight_bps_for_member_count}
use albedo.Reign.Plan.Laws.{
  IsReignPlan, IsSplit, build_reign_plan-IsReignPlan, weight_bps_for_member_count-IsSplit,
}
use albedo.Reign.Claim.Laws.{IsNext, next_submission-IsNext}
use albedo.Reign.Promote.Reigns.{HasOneReign, promote_next_winner-HasOneReign}
use albedo.Reign.Promote.Coronation.{IsCrowned, promote_next_winner-IsCrowned}
use albedo.Reign.Promote.SentBack.{IsSentBack, promote_next_winner-IsSentBack}
use albedo.Reign.Promote.Safety.{
  HasBeatenLead, promote_next_winner-HasBeatenLead, promote_next_winner-raised,
}

due-before : next_submission call before ≡ some winner
unfolding program
due-before = refl

free-before : has_active_attempt before winner.id set_reign ≡ false
unfolding program
free-before = refl

passed-before : examine (claim call winner before) winner ≡ ok found
unfolding program
passed-before = refl

-- The new reign has the winner in slot 1 and the old king in slot 2, at half the weight each.
crowns-before :
    map {B = ℕ × ℕ × ℕ}
      (λ row. (row.slot, row.uid, row.weight_bps))
      (promote_next_winner call before).0.reign_members
    ≡ (1, 7, 10000) ∷ (1, 8, 5000) ∷ (2, 7, 5000) ∷ []
unfolding program
crowns-before = refl

before-HasOneReign : HasOneReign before.reigns
unfolding program
before-HasOneReign = record { ids = (tt, tt); versions = (tt, tt); one = refl }

promote_next_winner-HasOneReign_example : HasOneReign (promote_next_winner call before).0.reigns
promote_next_winner-HasOneReign_example =
    promote_next_winner-HasOneReign call before (omega arith) before-HasOneReign

promote_next_winner-IsCrowned_example :
    ((promote_next_winner call before).1 ≡ returned true)
    × IsCrowned call winner found before.reigns (promote_next_winner call before).0
promote_next_winner-IsCrowned_example =
    promote_next_winner-IsCrowned call before winner found refl due-before free-before passed-before
      (omega arith)

due-abandoned : (promote_next_winner call abandoned).1 ≡ raised
unfolding program
due-abandoned = refl

promote_next_winner-raised_example :
    (s : Submission) × (next_submission call abandoned ≡ some s)
    × (has_active_attempt abandoned s.id set_reign ≡ true)
    × ((promote_next_winner call abandoned).0 ≡ abandoned)
promote_next_winner-raised_example = promote_next_winner-raised call abandoned due-abandoned

abbrev no_manifest : Fault
no_manifest =
    infra "missing_challenger_model_artifact"
      "Winning submission has no MODEL_MANIFEST artifact for king version"

due-unlisted : next_submission call unlisted ≡ some winner
unfolding program
due-unlisted = refl

free-unlisted : has_active_attempt unlisted winner.id set_reign ≡ false
unfolding program
free-unlisted = refl

failed-unlisted : examine (claim call winner unlisted) winner ≡ err no_manifest
unfolding program
failed-unlisted = refl

promote_next_winner-IsSentBack_example :
    ((promote_next_winner call unlisted).1 ≡ returned true)
    × IsSentBack call winner no_manifest unlisted (promote_next_winner call unlisted).0
promote_next_winner-IsSentBack_example =
    promote_next_winner-IsSentBack call unlisted winner no_manifest refl due-unlisted free-unlisted
      failed-unlisted

two_reigns : length (promote_next_winner call before).0.reigns ≡ 2
unfolding program
two_reigns = refl

reigns_change : (promote_next_winner call before).0.reigns ≢ before.reigns
reigns_change e = omega (arith, two_reigns, ap length e)

promote_next_winner-HasBeatenLead_example :
    (s : Submission) × (next_submission call before ≡ some s) × HasBeatenLead before s
promote_next_winner-HasBeatenLead_example =
    promote_next_winner-HasBeatenLead call before reigns_change

next_submission-IsNext_example : IsNext call before winner
next_submission-IsNext_example = next_submission-IsNext call before winner due-before

build_reign_plan-IsReignPlan_example :
    (plan : List PlannedReignMember) × (build_reign_plan
        (to_member first_row ∷ [])
        (challenger_member call winner)
      ≡ ok plan)
    × IsReignPlan (challenger_member call winner) plan
build_reign_plan-IsReignPlan_example =
    build_reign_plan-IsReignPlan (to_member first_row ∷ []) (challenger_member call winner)

weight_bps_for_member_count-IsSplit_example :
    (weights : List ℕ) × (weight_bps_for_member_count 3 ≡ ok weights) × IsSplit 3 weights
weight_bps_for_member_count-IsSplit_example =
    weight_bps_for_member_count-IsSplit 3 (omega arith) (omega arith)
