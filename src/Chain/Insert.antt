-- ===== src/Chain/Insert.antt =====
-- `insert_new_commits` and `_reject_reused_commit` (src/chain_reader/db.py).
use albedo.Prelude.{
  ◌==◌, if◌then◌else◌, update, find?, any, ℕ, String, Bool, true, false, ◌&&◌, ◌||◌, not, Option,
  none, some, List, [], ◌∷◌, ◌++◌, str_eq,
}
use albedo.Chain.{
  ChainDb, Commit, CommitRow, MadeAs, MinerRow, SubmissionRow, backfill, is_used, made_invalid,
  made_submitted, swap_source, confirm_swaps, find_swaps, record_swaps, refresh_registration_blocks,
}

-- The ids that the tables draw for a commit.
pub record Ids : Type 0 where
  pub commit_id : ℕ
  pub submission_id : ℕ

unfoldable pub is_miner : Commit → MinerRow → Bool
is_miner c m = str_eq m.hotkey c.hotkey

unfoldable pub refresh_miner : Commit → MinerRow → MinerRow
refresh_miner c m = record m {
  coldkey = elim c.coldkey [ none ↦ m.coldkey | some k ↦ some k ];
  uid = c.uid;
  netuid = c.netuid;
}

-- INSERT INTO miners ... ON CONFLICT (hotkey) DO UPDATE
unfoldable pub upsert_miner : Commit → ChainDb → ChainDb
unfolding is_miner refresh_miner
upsert_miner c db =
    if any (is_miner c) db.miners
    then record db { miners = update (is_miner c) (refresh_miner c) db.miners }
    else record db {
      miners =
          db.miners
          ++ record {
            hotkey = c.hotkey;
            coldkey = c.coldkey;
            uid = c.uid;
            netuid = c.netuid;
            registration_block = none;
          }
            ∷ [];
    }

-- UNIQUE (netuid, hotkey, payload_hash)
unfoldable pub is_commit : Commit → CommitRow → Bool
is_commit c r =
    (r.netuid == c.netuid) && str_eq r.hotkey c.hotkey && str_eq r.payload_hash c.payload_hash

unfoldable pub refresh_commit : Commit → CommitRow → CommitRow
refresh_commit c r = record r {
  block_number = c.block_number;
  block_hash = c.block_hash;
  uid = c.uid;
  model_uri = c.model_uri;
}

unfoldable pub new_commit : Commit → ℕ → CommitRow
new_commit c id = record {
  id = id;
  netuid = c.netuid;
  hotkey = c.hotkey;
  payload_hash = c.payload_hash;
  block_number = c.block_number;
  block_hash = c.block_hash;
  uid = c.uid;
  model_uri = c.model_uri;
  submission_id = none;
}

-- INSERT INTO chain_commits ... ON CONFLICT DO UPDATE
unfoldable pub upsert_commit : Commit → ℕ → ChainDb → ChainDb
unfolding is_commit refresh_commit new_commit
upsert_commit c id db =
    if any (is_commit c) db.chain_commits
    then record db { chain_commits = update (is_commit c) (refresh_commit c) db.chain_commits }
    else record db { chain_commits = db.chain_commits ++ new_commit c id ∷ [] }

-- ON CONFLICT (idempotency_key)
unfoldable pub is_submission : Commit → SubmissionRow → Bool
is_submission c s =
    (s.netuid == c.netuid) && str_eq s.hotkey c.hotkey && str_eq s.payload_hash c.payload_hash

unfoldable pub refresh_submission : Commit → ℕ → SubmissionRow → SubmissionRow
refresh_submission c commit_id s = record s {
  chain_commit_id = commit_id;
  uid = c.uid;
  model_uri = c.model_uri;
}

-- The refresh of a rejected commit leaves the uid.
unfoldable pub refresh_rejected : Commit → ℕ → SubmissionRow → SubmissionRow
refresh_rejected c commit_id s = record s { chain_commit_id = commit_id; model_uri = c.model_uri }

unfoldable pub new_submission : Commit → ℕ → ℕ → MadeAs → SubmissionRow
new_submission c id commit_id made = record {
  id = id;
  netuid = c.netuid;
  hotkey = c.hotkey;
  payload_hash = c.payload_hash;
  chain_commit_id = commit_id;
  uid = c.uid;
  model_uri = c.model_uri;
  made_as = made;
}

-- INSERT INTO model_submissions ... ON CONFLICT (idempotency_key) DO UPDATE ... RETURNING id: what it
-- does where the key is free, and where a row has it.
unfoldable pub place_submission :
    Commit
    → ℕ
    → MadeAs
    → (SubmissionRow → SubmissionRow)
    → ℕ
    → ChainDb
    → Option SubmissionRow
    → ChainDb × ℕ
unfolding is_submission new_submission
place_submission c commit_id made refresh id db none =
    (record db { submissions = db.submissions ++ new_submission c id commit_id made ∷ [] }, id)
place_submission c commit_id made refresh id db (some s) =
    (record db { submissions = update (is_submission c) refresh db.submissions }, s.id)

unfoldable pub upsert_submission :
    Commit → ℕ → MadeAs → (SubmissionRow → SubmissionRow) → ℕ → ChainDb → ChainDb × ℕ
unfolding place_submission
upsert_submission c commit_id made refresh id db =
    place_submission c commit_id made refresh id db (find? (is_submission c) db.submissions)

-- UPDATE chain_commits SET submission_id WHERE id AND submission_id IS NULL
unfoldable pub link_commit : ℕ → ChainDb × ℕ → ChainDb
link_commit commit_id (db, submission_id) = record db {
  chain_commits =
      update (λ r. (r.id == commit_id) && (elim r.submission_id [ none ↦ true | some _ ↦ false ]))
        (λ r. record r { submission_id = some submission_id }) db.chain_commits;
}

-- The fault of `_reject_reused_commit`.
unfoldable pub reuse_fault : ChainDb → String → String
reuse_fault db hotkey = elim (find? (λ u. str_eq u.hotkey hotkey) db.used_hotkeys) [
  | none ↦ "hotkey_reused"
  | some u ↦ elim u.source [ swap_source ↦ "hotkey_swap" | backfill ↦ "hotkey_reused" ]
]

-- The submission of a commit row that has none.
unfoldable pub submit : Commit → ℕ → ℕ → ChainDb → ChainDb
unfolding is_used reuse_fault refresh_submission refresh_rejected upsert_submission link_commit
submit c commit_id id db =
    if is_used db c.hotkey
    then link_commit commit_id (
        upsert_submission c commit_id (made_invalid (reuse_fault db c.hotkey))
          (refresh_rejected c commit_id) id db)
    else link_commit commit_id
        (upsert_submission c commit_id made_submitted (refresh_submission c commit_id) id db)

unfoldable pub submit_row : Commit → ℕ → Option CommitRow → ChainDb → ChainDb
unfolding submit
submit_row c id none db = db
submit_row c id (some r) db = elim r.submission_id [ some _ ↦ db | none ↦ submit c r.id id db ]

-- One round of `insert_new_commits` for a commit that violates no constraint.
unfoldable pub insert_commit : Commit → Ids → ChainDb → ChainDb
unfolding upsert_miner upsert_commit submit_row
insert_commit c ids db =
    let db' = upsert_commit c ids.commit_id (upsert_miner c db) in
    submit_row c ids.submission_id (find? (is_commit c) db'.chain_commits) db'

-- block_hash and uid are NOT NULL in chain_commits.
unfoldable pub has_null : Commit × Ids → Bool
has_null (c, ids) =
    elim c.block_hash [ none ↦ true | some _ ↦ false ]
    || elim c.uid [ none ↦ true | some _ ↦ false ]

-- model_submissions_chain_commit_id_uidx: the commit row belongs to a submission under another key. The
-- ON CONFLICT is about the key alone.
unfoldable pub is_taken : Commit → ℕ → ChainDb → Bool
unfolding is_submission
is_taken c commit_id db =
    any (λ s. (s.chain_commit_id == commit_id) && not (is_submission c s)) db.submissions

unfoldable pub row_clashes : Commit → Option CommitRow → ChainDb → Bool
unfolding is_taken
row_clashes c none db = false
row_clashes c (some r) db = elim r.submission_id [ some _ ↦ false | none ↦ is_taken c r.id db ]

-- The submission of the round violates the index.
unfoldable pub clashes : Commit × Ids → ChainDb → Bool
unfolding row_clashes upsert_miner upsert_commit
clashes (c, ids) db =
    let db' = upsert_commit c ids.commit_id (upsert_miner c db) in
    row_clashes c (find? (is_commit c) db'.chain_commits) db'

unfoldable pub raises : Commit × Ids → ChainDb → Bool
unfolding has_null clashes
raises k db = has_null k || clashes k db

-- The loop, which ends in an exception where a constraint is violated.
unfoldable pub insert_all : List (Commit × Ids) → ChainDb → Option ChainDb
unfolding insert_commit raises
insert_all [] db = some db
insert_all ((c, ids) ∷ commits) db =
    let rest = insert_all commits (insert_commit c ids db) in
    if raises (c, ids) db then none else rest

-- An exception rolls the transaction back; whether there was none.
unfoldable pub end_transaction : ChainDb → Option ChainDb → ChainDb × Bool
end_transaction db none = (db, false)
end_transaction db (some db') = (db', true)

-- `insert_new_commits`
unfoldable pub insert_new_commits : List (Commit × Ids) → ChainDb → ChainDb × Bool
unfolding insert_all end_transaction
insert_new_commits commits db = end_transaction db (insert_all commits db)

-- What `run` does with a block, up to the signals: `prior` is the answer of load_uid_state.
unfoldable pub read_block :
    (String → Option String)
    → List (ℕ × (String × Option ℕ))
    → List (ℕ × (String × ℕ))
    → ℕ
    → List (Commit × Ids)
    → ChainDb
    → ChainDb × Bool
unfolding find_swaps confirm_swaps record_swaps refresh_registration_blocks insert_new_commits
read_block hotkey_owner prior snapshot cur commits db =
    let swaps = confirm_swaps hotkey_owner (find_swaps prior snapshot) in
    insert_new_commits commits (refresh_registration_blocks snapshot (record_swaps cur swaps db))
