-- ===== src/Weights/Epochs.antt =====
-- How `claim_next_epoch` chooses an epoch: the rate limit, the newest open epoch, the older ones that
-- it supersedes, and the periodic refresh epoch that it creates where none is open.
use albedo.Prelude.{
  ltb, leb, ◌==◌, select, update, find?, any, first_by, sort_by, ℕ, ◌+◌, ◌/◌, max, String, Bool,
  true, false, ◌&&◌, ◌||◌, not, Option, none, some, List, [], ◌∷◌, ◌++◌, map, str_eq,
}
use mathlib.Core.Option
use albedo.Tables.{
  Db, WeightEpoch, EpochState, EpochReason, TransactionState, Fault, MemberRow, Reign,
  WeightTransaction,
}
use albedo.Reign.Checks.{active_reign, by_slot}

-- What `periodic_refresh_weight_hash` encodes as JSON and digests.
pub record RefreshPayload : Type 0 where
  pub netuid : ℕ
  pub reign_id : Option ℕ
  pub refresh_window : ℕ

-- What one call is given: its arguments, the clock in seconds, the answers of the locks, the values
-- of `uuid4()`, and the digest of json and hashlib.
pub record SetterCall : Type 0 where
  pub worker_id : String
  pub wallet_hotkey : String
  pub current_block : ℕ
  pub rate_limit_blocks : ℕ
  pub netuid : ℕ
  pub burn_uid : ℕ
  pub now : ℕ
  -- pg_try_advisory_xact_lock(hashtext('weight_setter'))
  pub locked : Bool
  -- epochs that SKIP LOCKED passes over
  pub is_skipped : ℕ → Bool
  pub stage_attempt_id : ℕ
  pub transaction_id : ℕ
  pub refresh_epoch_id : ℕ
  pub sha256_json : RefreshPayload → String

pub record ClaimedWeightEpoch : Type 0 where
  pub epoch_id : ℕ
  pub transaction_id : ℕ
  pub stage_attempt_id : Option ℕ
  pub reign_id : Option ℕ
  pub trigger_submission_id : Option ℕ
  pub netuid : ℕ

unfoldable pub is_rate_limited : Option Fault → Bool
is_rate_limited none = false
is_rate_limited (some fault) = str_eq fault.code "weight_set_rate_limited"

-- A transaction of an epoch of the subnet that succeeded or was rate limited.
unfoldable pub is_marker : ℕ → Db → WeightTransaction → Bool
unfolding is_rate_limited
is_marker netuid db wt =
    any (λ (we : WeightEpoch). (we.id == wt.weight_epoch_id) && (we.netuid == netuid))
      db.weight_epochs
    && (elim wt.state [ TransactionState.success ↦ true | _ ↦ is_rate_limited wt.fault ])
    && elim wt.block_number [ none ↦ false | some _ ↦ true ]

unfoldable pub block_of : WeightTransaction → ℕ
block_of wt = elim wt.block_number [ none ↦ 0 | some block ↦ block ]

-- ORDER BY wt.block_number DESC
unfoldable pub by_block : WeightTransaction → WeightTransaction → Bool
unfolding block_of
by_block a b = ltb (block_of b) (block_of a)

-- `current_block - block < rate_limit_blocks`, for the highest block of a marker.
unfoldable pub is_too_soon : SetterCall → Db → Bool
is_too_soon call db =
    elim (first_by by_block (select (is_marker call.netuid db) db.weight_transactions)) [
      | none ↦ false
      | some wt ↦ ltb call.current_block (block_of wt + call.rate_limit_blocks)
    ]

-- PENDING, or FAILED_RETRYABLE for a minute.
unfoldable pub is_open : ℕ → WeightEpoch → Bool
is_open now e = elim e.state [
  | EpochState.pending ↦ true
  | EpochState.failed_retryable ↦ leb (e.updated_at + 60) now
  | _ ↦ false
]

-- ORDER BY created_at DESC, id DESC
unfoldable pub by_newest_epoch : WeightEpoch → WeightEpoch → Bool
by_newest_epoch a b =
    ltb b.created_at a.created_at || (a.created_at == b.created_at && ltb b.id a.id)

unfoldable pub is_candidate : SetterCall → WeightEpoch → Bool
unfolding is_open
is_candidate call e = (e.netuid == call.netuid) && is_open call.now e && not (call.is_skipped e.id)

unfoldable pub newest_open_epoch : SetterCall → Db → Option WeightEpoch
unfolding is_candidate by_newest_epoch
newest_open_epoch call db = first_by by_newest_epoch (select (is_candidate call) db.weight_epochs)

unfoldable pub is_waiting : EpochState → Bool
is_waiting EpochState.pending = true
is_waiting EpochState.failed_retryable = true
is_waiting _ = false

-- The UPDATE of the older epochs that the claimed one makes obsolete.
unfoldable pub supersede : SetterCall → WeightEpoch → Db → Db
unfolding is_waiting
supersede call epoch db = record db {
  weight_epochs =
      update
        (λ e.
          (e.netuid == call.netuid)
          && not (e.id == epoch.id)
          && leb e.created_at epoch.created_at
          && is_waiting e.state)
        (λ e. record e {
          state = EpochState.failed_terminal;
          updated_at = call.now;
          last_fault_class = none;
          last_fault_code = some "superseded_by_newer_weight_epoch";
        })
        db.weight_epochs;
}

-- r.trigger_submission_id of the LEFT JOIN on reigns
unfoldable pub trigger_of : Db → Option ℕ → Option ℕ
trigger_of db none = none
trigger_of db (some reign_id) = elim (find? (λ (r : Reign). r.id == reign_id) db.reigns) [
  | none ↦ none
  | some r ↦ r.trigger_submission_id
]

-- The rows of the active reign, ORDER BY slot ASC.
unfoldable pub reign_rows : Db → Option ℕ → List MemberRow
reign_rows db none = []
reign_rows db (some reign_id) =
    sort_by by_slot (select (λ m. m.reign_id == reign_id) db.reign_members)

unfoldable pub refresh_uids : ℕ → List MemberRow → List ℕ
refresh_uids burn_uid [] = burn_uid ∷ []
refresh_uids burn_uid (m ∷ members) = map (λ x. x.uid) (m ∷ members)

unfoldable pub refresh_weights : List MemberRow → List ℕ
refresh_weights [] = 10000 ∷ []
refresh_weights (m ∷ members) = map (λ x. x.weight_bps) (m ∷ members)

-- The epoch that `_create_periodic_refresh_epoch_inside_tx` inserts.
unfoldable pub refresh_epoch : SetterCall → Db → WeightEpoch
unfolding refresh_uids refresh_weights
refresh_epoch call db =
    let reign_id = Option.map (λ (r : Reign). r.id) (active_reign db) in
    let members = reign_rows db reign_id in
    record {
      id = call.refresh_epoch_id;
      netuid = call.netuid;
      reason = EpochReason.periodic_refresh;
      reign_id = reign_id;
      state = EpochState.pending;
      uids = refresh_uids call.burn_uid members;
      weights = refresh_weights members;
      weight_hash = call.sha256_json (record {
        netuid = call.netuid;
        reign_id = reign_id;
        refresh_window = call.current_block / max call.rate_limit_blocks 1;
      });
      attempt_count = 0;
      last_fault_class = none;
      last_fault_code = none;
      created_at = call.now;
      updated_at = call.now;
      succeeded_at = none;
    }

-- The row that ON CONFLICT (netuid, weight_hash) finds.
unfoldable pub refresh_conflict : SetterCall → Db → Option WeightEpoch
refresh_conflict call db =
    find?
      (λ e. (e.netuid == call.netuid) && str_eq e.weight_hash (refresh_epoch call db).weight_hash)
      db.weight_epochs

-- `_create_periodic_refresh_epoch_inside_tx`: INSERT ... ON CONFLICT DO NOTHING RETURNING, and where
-- it returned no row, the SELECT of the row in the way, whatever its state.
unfoldable pub create_refresh_epoch : SetterCall → Db → Db × Option WeightEpoch
create_refresh_epoch call db = elim (refresh_conflict call db) [
  | some existing ↦ (db, some existing)
  | none ↦
      let new = refresh_epoch call db in
      (record db { weight_epochs = db.weight_epochs ++ new ∷ [] }, some new)
]

-- The epoch to claim, with the submission that its reign was set for.
unfoldable pub choose_epoch : SetterCall → Db → Db × Option (WeightEpoch × Option ℕ)
choose_epoch call db = elim (newest_open_epoch call db) [
  | some epoch ↦ (supersede call epoch db, some (epoch, trigger_of db epoch.reign_id))
  | none ↦
      let (db', chosen) = create_refresh_epoch call db in (db', Option.map (λ e. (e, none)) chosen)
]
