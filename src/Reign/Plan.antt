-- ===== src/Reign/Plan.antt =====
-- The plan of a new reign: `build_reign_plan` and its helpers.
pub mod Laws
use albedo.Prelude.{
  ℕ, suc, zero, String, ◌+◌, ◌/◌, ◌%◌, Bool, ◌&&◌, not, Option, none, some, List, [], ◌∷◌, map,
  Result, ok, err, ◌>>=◌, ltb, ◌==◌, str_eq, if◌then◌else◌, take, length, select, any, sort_by,
}

pub record ReignMember : Type 0 where
  pub king_version_id : ℕ
  pub submission_id : ℕ
  pub hotkey : String
  pub uid : ℕ
  pub model_hash : String
  pub previous_slot : Option ℕ

pub record PlannedReignMember : Type 0 where
  pub member : ReignMember
  pub slot : ℕ
  pub weight_bps : ℕ
  pub is_challenger : Bool

pub data PlanError : Type 0 where
  value_error index_error : PlanError

-- range(start, start + count)
unfoldable pub range_from : ℕ → ℕ → List ℕ
range_from start zero = []
range_from start (suc count) = start ∷ range_from (suc start) count

unfoldable pub weight_bps_for_member_count : ℕ → Result PlanError (List ℕ)
unfolding range_from
weight_bps_for_member_count member_count =
    if ltb 5 member_count
    then err value_error
    else if member_count == 0
    then ok []
    else (let base = 10000 / member_count in
        let remainder = 10000 % member_count in
        ok (
          map (λ index. base + (if ltb index remainder then 1 else 0)) (range_from 0 member_count)))

-- `previous_slot or 99`
slot_key : Option ℕ → ℕ
slot_key none = 99
slot_key (some zero) = 99
slot_key (some (suc slot)) = suc slot

unfoldable pub by_previous_slot : ReignMember → ReignMember → Bool
unfolding slot_key
by_previous_slot a b = ltb (slot_key a.previous_slot) (slot_key b.previous_slot)

-- The test of the list comprehension that drops whom the challenger replaces.
unfoldable pub is_rival : ReignMember → ReignMember → Bool
is_rival challenger member =
    not (str_eq member.hotkey challenger.hotkey)
    && not (str_eq member.model_hash challenger.model_hash)
    && not (member.submission_id == challenger.submission_id)

-- The loop over `enumerate(ordered)`; `weight_bps[index]` raises where the weights run out.
plan_members :
    ReignMember → ℕ → List ReignMember → List ℕ → Result PlanError (List PlannedReignMember)
plan_members challenger index [] weights = ok []
plan_members challenger index (member ∷ rest) [] = err index_error
plan_members challenger index (member ∷ rest) (weight ∷ weights) = do
  planned ← plan_members challenger (suc index) rest weights
  ok (
      record {
        member = member;
        slot = index + 1;
        weight_bps = weight;
        is_challenger = member.king_version_id == challenger.king_version_id;
      }
      ∷ planned)

unfoldable pub build_reign_plan :
    List ReignMember → ReignMember → Result PlanError (List PlannedReignMember)
unfolding plan_members
build_reign_plan active_members challenger = do
  let active = sort_by by_previous_slot active_members
  let filtered = select (is_rival challenger) active
  let ordered = challenger ∷ take 4 filtered
  weights ← weight_bps_for_member_count (length ordered)
  plan_members challenger 0 ordered weights

unfoldable pub retired_members : List ReignMember → List PlannedReignMember → List ReignMember
retired_members active planned =
    select (λ member. not (any (λ p. p.member.king_version_id == member.king_version_id) planned))
      active

-- The uids of a new weight epoch, and its weights in basis points.
unfoldable pub weight_epoch_payload : List PlannedReignMember → List ℕ × List ℕ
weight_epoch_payload [] = (0 ∷ [], 10000 ∷ [])
weight_epoch_payload (p ∷ planned) =
    (map (λ m. m.member.uid) (p ∷ planned), map (λ m. m.weight_bps) (p ∷ planned))
