-- ===== src/Reign/Promote/Reigns.antt =====
-- The table of reigns across `promote_next_winner`.
use albedo.Prelude.{
  ◌==◌, IsKeyed, count-update_key, All-update, update-IsKeyed, append-IsKeyed, All, All-map, count,
  max_of, In, In-select, first_by-In, All-of_In, count-append, max_of-le, ok, ℕ, ◌+◌, ◌<◌, ◌≡◌,
  refl, ◌≢◌, Bool, true, some, List, arith,
}
use albedo.Tables.{ReignState, Db, Submission, Fault, Reign, is_active}
use albedo.Reign.Checks.{Promotion, active_reign, by_version, examine}
use albedo.Reign.Promote.{crown, mark_retryable, new_reign, replace_reign, promote_next_winner}
use albedo.Reign.Claim.{Call, claim, record_event, set_submission}
use albedo.Reign.Plan.{PlannedReignMember}
use albedo.Reign.Promote.Cases.{promote_cases, crowned, idle, sent_back, claim_raised}

module _ (call : Call) (s : Submission) (db : Db) where
  pub reigns-claim : (claim call s db).reigns ≡ db.reigns
  unfolding claim
  reigns-claim = refl

  pub reigns-mark_retryable : (fault : Fault) → (mark_retryable call s fault db).reigns ≡ db.reigns
  unfolding mark_retryable set_submission record_event
  reigns-mark_retryable fault = refl

  abbrev pub next_version : ℕ
  next_version = max_of (λ (r : Reign). r.version) db.reigns + 1

  pub reigns-crown :
      (found : Promotion) (planned : List PlannedReignMember) (slot : ℕ)
      → (crown call s found planned slot db).reigns
        ≡ replace_reign found.old_reign (new_reign call s found next_version) db.reigns
  unfolding crown set_submission record_event
  reigns-crown found planned slot = ground arith

-- The table of reigns as the schema keeps it: distinct ids and versions, and one ACTIVE row.
pub record HasOneReign (reigns : List Reign) : Type 0 where
  pub ids : IsKeyed (λ (r : Reign). r.id) reigns
  pub versions : IsKeyed (λ (r : Reign). r.version) reigns
  pub one : count is_active reigns ≡ 1

-- The reign that `active_reign` returns is an ACTIVE row of the table.
pub active_reign-In :
    {r : Reign} (db : Db) → active_reign db ≡ some r → In r db.reigns × (is_active r ≡ true)
unfolding active_reign
active_reign-In db e = In-select is_active db.reigns (first_by-In by_version _ e)

-- Checks that passed found an active reign.
pub examine-active_reign :
    (db : Db) (s : Submission) (found : Promotion)
    → examine db s ≡ ok found
    → active_reign db ≡ some found.old_reign
unfolding examine
examine-active_reign db s found e = ground arith

module _ (call : Call) (s : Submission) (found : Promotion) (reigns : List Reign)
    (version : ℕ) where
  abbrev supersede : Reign → Reign
  supersede r = record r { state = ReignState.superseded }

  abbrev is_old : Reign → Bool
  is_old r = r.id == found.old_reign.id

  replace_reign-HasOneReign :
      In found.old_reign reigns
      → is_active found.old_reign ≡ true
      → All (λ r. r.id ≢ call.reign_id) reigns
      → All (λ r. r.version < version) reigns
      → HasOneReign reigns
      → HasOneReign (replace_reign found.old_reign (new_reign call s found version) reigns)
  unfolding replace_reign new_reign
  replace_reign-HasOneReign m on fresh newest h =
      let id : Reign → ℕ = λ r. r.id in
      let rank : Reign → ℕ = λ r. r.version in
      let kept = All-update (λ r. r.version < version) is_old supersede reigns (λ r e. e) newest in
      record {
        ids =
            append-IsKeyed id _ _ (update-IsKeyed id is_old supersede reigns (λ r. refl) h.ids)
              (All-update (λ r. r.id ≢ call.reign_id) is_old supersede reigns (λ r e. e) fresh);
        versions =
            append-IsKeyed rank _ _
              (update-IsKeyed rank is_old supersede reigns (λ r. refl) h.versions)
              (All-map {Q = λ r. r.version ≢ version}
                (λ r (lt : r.version < version) e. absurd (omega arith)) _ kept);
        one = rw count-append (
            unfold count in
            omega (
              arith,
              h.one,
              count-update_key is_active id found.old_reign.id supersede reigns (λ r. refl) h.ids m
                  refl on,
            ));
      }

pub versions_below :
    (reigns : List Reign)
    → All (λ r. r.version < max_of (λ (r : Reign). r.version) reigns + 1) reigns
versions_below reigns =
    All-of_In (λ r. r.version < max_of (λ (r : Reign). r.version) reigns + 1) reigns
      (λ r m. omega (arith, max_of-le (λ (r : Reign). r.version) reigns m))

-- If reigns have distinct ids and versions and exactly one is ACTIVE, then so it is after a call
-- of `promote_next_winner`, whatever the call did, provided that the id drawn for a new reign is
-- not in use.
pub promote_next_winner-HasOneReign :
    (call : Call) (db : Db)
    → All (λ r. r.id ≢ call.reign_id) db.reigns
    → HasOneReign db.reigns
    → HasOneReign (promote_next_winner call db).0.reigns
promote_next_winner-HasOneReign call db fresh h = elim (promote_cases call db) [
  | idle e ↦ rw e h
  | claim_raised s _ _ e ↦ rw e h
  | sent_back s fault _ _ _ e ↦ rw (e, reigns-mark_retryable, reigns-claim) h
  | crowned s found planned _ _ passed _ e ↦
      let (m, on) = active_reign-In (claim call s db) (examine-active_reign _ s found passed) in
      rw (e, reigns-crown, reigns-claim)
        (replace_reign-HasOneReign call s found db.reigns _ (rw reigns-claim at m) on fresh
          (versions_below db.reigns) h)
]
