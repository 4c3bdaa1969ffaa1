-- ===== src/Reign/Plan/Laws.antt =====
-- What `build_reign_plan` promises: it never raises, splits the whole weight, and crowns the
-- challenger above the members that it does not replace.
use albedo.Prelude.{
  ◌==◌, ==_refl, length, take, sum_of, All, length-take, length-map, All-map_of, All-take, select,
  sort_by, All-select, ok, ℕ, zero, suc, ◌+◌, ◌/◌, ◌≤◌, ◌<◌, ◌≡◌, refl, sym, ap, ◌∙◌, true, List,
  [], ◌∷◌, map, arith,
}
use native.Mathlib.Numerals.{add-one}
use albedo.Reign.Plan.{
  weight_bps_for_member_count, PlannedReignMember, ReignMember, is_rival, plan_members, range_from,
  build_reign_plan, by_previous_slot,
}

-- What a split of the weight among `n` members has to be.
pub record IsSplit (n : ℕ) (weights : List ℕ) : Type 0 where
  pub one_each : length weights ≡ n
  pub whole : sum_of (λ w. w) weights ≡ 10000
  pub even : All (λ w. (10000 / n ≤ w) × (w ≤ 10000 / n + 1)) weights

-- Between one and five members share exactly 10000 bps, and no two shares differ by more than one.
pub weight_bps_for_member_count-IsSplit :
    (n : ℕ)
    → 0 < n
    → n ≤ 5
    → (weights : List ℕ) × (weight_bps_for_member_count n ≡ ok weights) × IsSplit n weights
unfolding weight_bps_for_member_count
weight_bps_for_member_count-IsSplit zero h k = absurd (omega arith)
weight_bps_for_member_count-IsSplit (suc zero) h k = (_, refl, omega arith)
weight_bps_for_member_count-IsSplit (suc (suc zero)) h k = (_, refl, omega arith)
weight_bps_for_member_count-IsSplit (suc (suc (suc zero))) h k = (_, refl, omega arith)
weight_bps_for_member_count-IsSplit (suc (suc (suc (suc zero)))) h k = (_, refl, omega arith)
weight_bps_for_member_count-IsSplit (suc (suc (suc (suc (suc zero))))) h k = (_, refl, omega arith)
weight_bps_for_member_count-IsSplit (suc (suc (suc (suc (suc (suc n)))))) h k = absurd (omega arith)

-- The loop pairs every member with the weight at its place, and numbers the slots.
plan_members_lem :
    (challenger : ReignMember) (index : ℕ) (members : List ReignMember) (weights : List ℕ)
    → length weights ≡ length members
    → (plan : List PlannedReignMember) × (plan_members challenger index members weights ≡ ok plan)
      × (map (λ p. p.member) plan ≡ members)
      × (map (λ p. p.slot) plan ≡ range_from (suc index) (length members))
      × (map (λ p. p.weight_bps) plan ≡ weights)
unfolding plan_members range_from
plan_members_lem challenger index [] [] e = ([], refl, refl, refl, refl)
plan_members_lem challenger index [] (w ∷ ws) e = absurd (omega arith)
plan_members_lem challenger index (m ∷ ms) [] e = absurd (omega arith)
plan_members_lem challenger index (m ∷ ms) (w ∷ ws) e =
    let (plan, made, members, slots, weights) =
      plan_members_lem challenger (suc index) ms ws (omega arith) in
    let first : PlannedReignMember = record {
      member = m;
      slot = index + 1;
      weight_bps = w;
      is_challenger = m.king_version_id == challenger.king_version_id;
    } in
    (
      first ∷ plan,
      rw made,
      ap (λ l. m ∷ l) members,
      cc (slots, add-one index),
      ap (λ l. w ∷ l) weights,
    )

-- What a plan for a new reign has to be.
pub record IsReignPlan (challenger : ReignMember) (plan : List PlannedReignMember) : Type 0 where
  pub seats : length plan ≤ 5
  pub slots : map (λ p. p.slot) plan ≡ range_from 1 (length plan)
  pub split : IsSplit (length plan) (map (λ p. p.weight_bps) plan)
  pub followers : List PlannedReignMember
  pub lead : PlannedReignMember
  pub crowned : plan ≡ lead ∷ followers
  pub lead_member : lead.member ≡ challenger
  pub lead_slot : lead.slot ≡ 1
  pub lead_is_challenger : lead.is_challenger ≡ true
  pub rivals : All (λ p. is_rival challenger p.member ≡ true) followers

plan_members-IsReignPlan :
    (challenger : ReignMember) (others : List ReignMember) (weights : List ℕ)
    → All (λ m. is_rival challenger m ≡ true) others
    → length others ≤ 4
    → IsSplit (suc (length others)) weights
    → (plan : List PlannedReignMember) × (plan_members challenger 0 (challenger ∷ others) weights
        ≡ ok plan)
      × IsReignPlan challenger plan
unfolding plan_members range_from
plan_members-IsReignPlan challenger others [] rivals few split =
    absurd (omega (arith, split.one_each))
plan_members-IsReignPlan challenger others (w ∷ ws) rivals few split =
    let (followers, made, members, slots, weights) =
      plan_members_lem challenger 1 others ws (omega (arith, split.one_each)) in
    let count : length followers ≡ length others =
      sym (length-map (λ p. p.member) followers) ∙ ap length members in
    let lead : PlannedReignMember = record {
      member = challenger;
      slot = 1;
      weight_bps = w;
      is_challenger = challenger.king_version_id == challenger.king_version_id;
    } in
    (
      lead ∷ followers,
      rw made,
      record {
        seats = omega arith;
        slots = rw count (ap (λ l. 1 ∷ l) slots);
        split = rw (weights, count) (split);
        followers = followers;
        lead = lead;
        crowned = refl;
        lead_member = refl;
        lead_slot = refl;
        lead_is_challenger = ==_refl challenger.king_version_id;
        rivals =
            All-map_of (λ m. is_rival challenger m ≡ true) (λ (p : PlannedReignMember). p.member)
              followers (rw members rivals);
      },
    )

-- Whatever the active members and the challenger are, `build_reign_plan` returns a plan, in which
-- the challenger leads from slot 1, at most four others follow in consecutive slots, each with
-- another hotkey, model hash and submission, and the weights sum to 10000 bps.
pub build_reign_plan-IsReignPlan :
    (active : List ReignMember) (challenger : ReignMember)
    → (plan : List PlannedReignMember) × (build_reign_plan active challenger ≡ ok plan)
      × IsReignPlan challenger plan
unfolding build_reign_plan
build_reign_plan-IsReignPlan members challenger =
    let rivals = select (is_rival challenger) (sort_by by_previous_slot members) in
    let few = length-take 4 rivals in
    let (weights, split, is_split) =
      weight_bps_for_member_count-IsSplit (suc (length (take 4 rivals))) (omega arith)
        (omega arith) in
    rw split (
      plan_members-IsReignPlan challenger (take 4 rivals) weights
        (All-take (λ m. is_rival challenger m ≡ true) 4 rivals (All-select (is_rival challenger) _))
        (omega arith) is_split)
