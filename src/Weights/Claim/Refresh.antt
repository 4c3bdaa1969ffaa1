-- ===== src/Weights/Claim/Refresh.antt =====
-- When `claim_next_epoch` claims something, and what it claims where nothing is open.
use albedo.Prelude.{
  ◌==◌, ==_iff, IsKeyed, any-In, update-All, keyed_unique, All, find?-some, In, find?-In, ℕ, String,
  ◌≡◌, refl, ap, ◌∙◌, ◌≢◌, inl, inr, Bool, true, false, ◌&&◌, none, some, arith, str_eq, str_eq_iff,
}
use albedo.Tables.{Db, WeightEpoch, EpochState}
use albedo.Weights.Claim.{claim_epoch, claim_next_epoch, run_epoch, is_blocked}
use albedo.Weights.Epochs.{
  ClaimedWeightEpoch, SetterCall, choose_epoch, create_refresh_epoch, is_too_soon,
  newest_open_epoch, refresh_conflict, refresh_epoch, trigger_of,
}
use albedo.Weights.Claim.Laws.{epochs-claim_epoch}
use albedo.Weights.Claim.Cases.{claim_cases, newest_claimed, refresh_claimed, unclaimed, blocked}

-- With the lock held and the rate limit over, a call claims an epoch, unless the newest open one is of a
-- submission that has an active WEIGHT_SET attempt.
pub claim_next_epoch-ne-none :
    (call : SetterCall) (db : Db)
    → call.locked ≡ true
    → is_too_soon call db ≡ false
    → ((e : WeightEpoch)
        → newest_open_epoch call db ≡ some e
        → is_blocked db (trigger_of db e.reign_id) ≡ false)
    → (claim_next_epoch call db).1 ≢ none
claim_next_epoch-ne-none call db held due free nothing = elim (claim_cases call db) [
  | unclaimed (inl busy) _ ↦ absurd cc
  | unclaimed (inr soon) _ ↦ absurd cc
  | blocked e _ found is_taken _ ↦ absurd (cc (free e found, is_taken))
  | newest_claimed e _ _ made ↦ let wrong : some _ ≡ none = rw made at nothing in cc
  | refresh_claimed e _ _ _ _ made ↦ let wrong : some _ ≡ none = rw made at nothing in cc
]

-- The row under the unique key (netuid, weight_hash) is what the conflict finds.
refresh_conflict-some :
    (call : SetterCall) (db : Db) (e : WeightEpoch)
    → IsKeyed {K = ℕ × String} (λ (o : WeightEpoch). (o.netuid, o.weight_hash)) db.weight_epochs
    → In e db.weight_epochs
    → e.netuid ≡ call.netuid
    → e.weight_hash ≡ (refresh_epoch call db).weight_hash
    → refresh_conflict call db ≡ some e
unfolding refresh_conflict
refresh_conflict-some call db e keyed m net hash =
    let q : WeightEpoch → Bool =
      λ o. (o.netuid == call.netuid) && str_eq o.weight_hash (refresh_epoch call db).weight_hash in
    let passes : q e ≡ true =
      rw ((==_iff e.netuid call.netuid).1 net, (str_eq_iff _ _).1 hash) refl in
    let (o, found) = find?-some q db.weight_epochs (any-In q db.weight_epochs m passes) in
    let (n, hit) = find?-In q db.weight_epochs found in
    let same_net : o.netuid ≡ call.netuid = ground (arith, hit) in
    let same_hash : o.weight_hash ≡ (refresh_epoch call db).weight_hash =
      (str_eq_iff _ _).0 (ground (arith, hit)) in
    let same : o ≡ e =
      keyed_unique {K = ℕ × String} (λ (x : WeightEpoch). (x.netuid, x.weight_hash))
        db.weight_epochs keyed n m (cc (same_net, net, same_hash, hash)) in
    found ∙ ap some same

-- Where (netuid, weight_hash) is unique, a call that finds no open epoch claims the refresh epoch of its
-- own window again, in whatever state that is: also one that failed less than a minute ago, or that is
-- RUNNING or has succeeded.
pub claim_next_epoch-reclaims :
    (call : SetterCall) (db : Db) (e : WeightEpoch)
    → call.locked ≡ true
    → is_too_soon call db ≡ false
    → newest_open_epoch call db ≡ none
    → IsKeyed {K = ℕ × String} (λ (o : WeightEpoch). (o.netuid, o.weight_hash)) db.weight_epochs
    → In e db.weight_epochs
    → e.netuid ≡ call.netuid
    → e.weight_hash ≡ (refresh_epoch call db).weight_hash
    → (c : ClaimedWeightEpoch) × ((claim_next_epoch call db).1 ≡ some c)
      × (c.epoch_id ≡ e.id)
      × All
          (λ o. o.id ≡ e.id → o.state ≡ EpochState.running)
          (claim_next_epoch call db).0.weight_epochs
unfolding create_refresh_epoch claim_next_epoch choose_epoch is_blocked
claim_next_epoch-reclaims call db e held due nothing keyed m net hash =
    let taken = refresh_conflict-some call db e keyed m net hash in
    let made : create_refresh_epoch call db ≡ (db, some e) =
      rw (create_refresh_epoch, taken) refl in
    let done : claim_next_epoch call db
        ≡ ((claim_epoch call e none db).0, some (claim_epoch call e none db).1) =
      simp (held, due, nothing, made, claim_next_epoch, choose_epoch, is_blocked) in
    rw done (
      _,
      refl,
      (unfold claim_epoch in refl),
      rw (epochs-claim_epoch call e none db) (
          unfold run_epoch in
          update-All (λ o. o.id ≡ e.id → o.state ≡ EpochState.running) _ _ _ (λ o hit same. refl)
            (λ o miss same. ground (arith, miss, same))),
    )
