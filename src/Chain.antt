-- ===== src/Chain.antt =====
-- The chain reader's writes (src/chain_reader/db.py) and the guard (src/chain_guard/): the tables as they
-- see them, with the columns that they read or write. A UUID is a number.
pub mod Insert
pub mod Swaps
pub mod Guard
pub mod Swapped
pub mod Kept
pub mod Linked
mod Tests
use albedo.Prelude.{
  leb, ◌==◌, if◌then◌else◌, any, ℕ, String, Bool, true, false, ◌&&◌, not, Option, none, some, List,
  [], ◌∷◌, ◌++◌, map, str_eq,
}

-- A commit that the reader found on the chain.
pub record Commit : Type 0 where
  pub netuid : ℕ
  pub block_number : ℕ
  pub block_hash : Option String
  pub uid : Option ℕ
  pub hotkey : String
  pub coldkey : Option String
  pub model_uri : String
  pub payload_hash : String

pub record MinerRow : Type 0 where
  pub hotkey : String
  pub coldkey : Option String
  pub uid : Option ℕ
  pub netuid : ℕ
  pub registration_block : Option ℕ

pub record CommitRow : Type 0 where
  pub id : ℕ
  pub netuid : ℕ
  pub hotkey : String
  pub payload_hash : String
  pub block_number : ℕ
  pub block_hash : Option String
  pub uid : Option ℕ
  pub model_uri : String
  pub submission_id : Option ℕ

-- `state` is SUBMITTED or TERMINAL_INVALID when the row is made, and other services move it on.
pub data MadeAs : Type 0 where
  made_submitted : MadeAs
  made_invalid : String → MadeAs

-- The idempotency key is chain:netuid:hotkey:payload_hash.
pub record SubmissionRow : Type 0 where
  pub id : ℕ
  pub netuid : ℕ
  pub hotkey : String
  pub payload_hash : String
  pub chain_commit_id : ℕ
  pub uid : Option ℕ
  pub model_uri : String
  pub made_as : MadeAs

pub data Source : Type 0 where
  backfill swap_source : Source

pub record UsedHotkey : Type 0 where
  pub hotkey : String
  pub block_number : ℕ
  pub source : Source

pub record ChainDb : Type 0 where
  pub miners : List MinerRow
  pub chain_commits : List CommitRow
  pub submissions : List SubmissionRow
  pub used_hotkeys : List UsedHotkey

-- `is_used`
unfoldable pub is_used : ChainDb → String → Bool
is_used db hotkey = any (λ u. str_eq u.hotkey hotkey) db.used_hotkeys

-- INSERT INTO used_hotkeys ... ON CONFLICT (hotkey) DO NOTHING; whether the row is new.
unfoldable pub insert_used : String → ℕ → Source → ChainDb → ChainDb × Bool
unfolding is_used
insert_used hotkey block source db = if is_used db hotkey then (db, false) else (
  record db {
    used_hotkeys =
        db.used_hotkeys ++ record { hotkey = hotkey; block_number = block; source = source } ∷ [];
  },
  true,
)

-- `record_legacy`, over the rows of a scan: the hotkeys of commitments up to a block.
unfoldable pub record_legacy : ℕ → List (String × ℕ) → ChainDb → ChainDb
unfolding insert_used
record_legacy ignore_to_block [] db = db
record_legacy ignore_to_block ((hotkey, block) ∷ rows) db =
    record_legacy ignore_to_block rows
      (if leb block ignore_to_block then (insert_used hotkey block backfill db).0 else db)

pub record SwapEvent : Type 0 where
  pub uid : ℕ
  pub old_hotkey : String
  pub new_hotkey : String
  pub registration_block : ℕ

-- prior.get(uid)
unfoldable pub prior_of : List (ℕ × (String × Option ℕ)) → ℕ → Option (String × Option ℕ)
prior_of [] uid = none
prior_of ((k, v) ∷ prior) uid = if k == uid then some v else prior_of prior uid

-- One round of the loop of `find_swaps`.
unfoldable pub swap_of : Option (String × Option ℕ) → ℕ → String → ℕ → List SwapEvent
swap_of none uid hotkey block = []
swap_of (some (old, none)) uid hotkey block = []
swap_of (some (old, some registered)) uid hotkey block =
    if not (str_eq old hotkey) && (block == registered)
    then record { uid = uid; old_hotkey = old; new_hotkey = hotkey; registration_block = block }
      ∷ []
    else []

-- `find_swaps`
unfoldable pub find_swaps :
    List (ℕ × (String × Option ℕ)) → List (ℕ × (String × ℕ)) → List SwapEvent
unfolding swap_of prior_of
find_swaps prior [] = []
find_swaps prior ((uid, (hotkey, block)) ∷ current) =
    swap_of (prior_of prior uid) uid hotkey block ++ find_swaps prior current

-- A round of `confirm_swaps`, with the owner of the old hotkey: with an owner it is no swap.
unfoldable pub confirm : SwapEvent → List SwapEvent → Option String → List SwapEvent
confirm s confirmed none = s ∷ confirmed
confirm s confirmed (some _) = confirmed

-- `confirm_swaps`
unfoldable pub confirm_swaps : (String → Option String) → List SwapEvent → List SwapEvent
unfolding confirm
confirm_swaps hotkey_owner [] = []
confirm_swaps hotkey_owner (s ∷ swaps) =
    confirm s (confirm_swaps hotkey_owner swaps) (hotkey_owner s.old_hotkey)

-- `record_swaps`
unfoldable pub record_swaps : ℕ → List SwapEvent → ChainDb → ChainDb
unfolding insert_used
record_swaps block [] db = db
record_swaps block (s ∷ swaps) db =
    record_swaps block swaps (insert_used s.new_hotkey block swap_source db).0

-- The block of registration that a snapshot has for a hotkey.
unfoldable pub registration_of : List (ℕ × (String × ℕ)) → String → Option ℕ
registration_of [] hotkey = none
registration_of ((uid, (other, block)) ∷ snapshot) hotkey =
    if str_eq other hotkey then some block else registration_of snapshot hotkey

-- `refresh_registration_blocks`
unfoldable pub refresh_registration_blocks : List (ℕ × (String × ℕ)) → ChainDb → ChainDb
unfolding registration_of
refresh_registration_blocks snapshot db = record db {
  miners =
      map
        (λ m. elim (registration_of snapshot m.hotkey) [
          | none ↦ m
          | some block ↦ record m { registration_block = some block }
        ])
        db.miners;
}
