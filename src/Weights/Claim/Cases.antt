-- ===== src/Weights/Claim/Cases.antt =====
-- The ways in which `claim_next_epoch` ends.
use albedo.Prelude.{
  Bool-cases, Option-cases, ◌≡◌, refl, ◌⊎◌, inl, inr, true, false, none, some, [], ◌∷◌, ◌++◌,
}
use albedo.Tables.{Db, WeightEpoch}
use albedo.Weights.Claim.{claim_epoch, claim_next_epoch, is_blocked}
use albedo.Weights.Epochs.{
  SetterCall, choose_epoch, create_refresh_epoch, is_too_soon, newest_open_epoch, refresh_epoch,
  supersede, trigger_of, refresh_conflict,
}

-- Another worker holds the lock or the last weights are too recent; or the newest open epoch is
-- claimed, unless its submission has an active attempt already; or, where none is open, the refresh
-- epoch of the window.
pub data Claims (call : SetterCall) (db : Db) : Type 0 where
  unclaimed :
      (call.locked ≡ false) ⊎ (is_too_soon call db ≡ true)
      → claim_next_epoch call db ≡ (db, none)
      → Claims call db
  blocked :
      (e : WeightEpoch)
      → is_too_soon call db ≡ false
      → newest_open_epoch call db ≡ some e
      → is_blocked db (trigger_of db e.reign_id) ≡ true
      → claim_next_epoch call db ≡ (db, none)
      → Claims call db
  newest_claimed :
      (e : WeightEpoch)
      → is_too_soon call db ≡ false
      → newest_open_epoch call db ≡ some e
      → claim_next_epoch call db ≡ (
        (claim_epoch call e (trigger_of db e.reign_id) (supersede call e db)).0,
        some (claim_epoch call e (trigger_of db e.reign_id) (supersede call e db)).1,
      )
      → Claims call db
  refresh_claimed :
      (e : WeightEpoch) (db' : Db)
      → is_too_soon call db ≡ false
      → newest_open_epoch call db ≡ none
      → create_refresh_epoch call db ≡ (db', some e)
      → claim_next_epoch call db
        ≡ ((claim_epoch call e none db').0, some (claim_epoch call e none db').1)
      → Claims call db

-- There always is a refresh epoch: the one in the way, or the one inserted.
create_refresh_epoch-some :
    (call : SetterCall) (db : Db)
    → (e : WeightEpoch) × (db' : Db) × (create_refresh_epoch call db ≡ (db', some e))
unfolding create_refresh_epoch
create_refresh_epoch-some call db = elim (Option-cases (refresh_conflict call db)) [
  | inl free ↦ (
    refresh_epoch call db,
    record db { weight_epochs = db.weight_epochs ++ refresh_epoch call db ∷ [] },
    rw (create_refresh_epoch, free) refl,
  )
  | inr (e, taken) ↦ (e, db, rw (create_refresh_epoch, taken) refl)
]

pub claim_cases : (call : SetterCall) (db : Db) → Claims call db
unfolding claim_next_epoch choose_epoch is_blocked
claim_cases call db = elim (Bool-cases call.locked) [
  | inr busy ↦ unclaimed (inl busy) (simp (busy, claim_next_epoch))
  | inl held ↦ elim (Bool-cases (is_too_soon call db)) [
    | inl soon ↦ unclaimed (inr soon) (simp (held, soon, claim_next_epoch))
    | inr due ↦ elim (Option-cases (newest_open_epoch call db)) [
      | inr (e, found) ↦ elim (Bool-cases (is_blocked db (trigger_of db e.reign_id))) [
        | inl taken ↦
            blocked e due found taken
              (simp (held, due, found, taken, claim_next_epoch, choose_epoch))
        | inr free ↦
            newest_claimed e due found
              (simp (held, due, found, free, claim_next_epoch, choose_epoch))
      ]
      | inl nothing ↦
          let (e, db', made) = create_refresh_epoch-some call db in
          refresh_claimed e db' due nothing made
            (simp (held, due, nothing, made, claim_next_epoch, choose_epoch, is_blocked))
    ]
  ]
]
