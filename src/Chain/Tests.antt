-- ===== src/Chain/Tests.antt =====
-- The chain reader on a block in which a hotkey was swapped, with a commit of the new hotkey and one of
-- another miner.
use albedo.Prelude.{
  update, find?, any, count, In, String, ◌≡◌, refl, ◌↔◌, inl, true, false, Option, none, some, List,
  [], ◌∷◌, map,
}
use albedo.Chain.{ChainDb, Commit, SwapEvent, find_swaps, prior_of, is_used, swap_source}
use albedo.Chain.Swaps.{IsSwap, Prior, Snapshot, find_swaps_iff}
use albedo.Chain.Guard.{opened, is_opened, insert_new_commits-guards}
use albedo.Chain.Insert.{Ids, insert_new_commits, read_block}
use albedo.Chain.Swapped.{read_block-guards}
use albedo.Chain.Linked.{IsAtomic, insert_new_commits-IsAtomic}

abbrev swapped_commit : Commit
swapped_commit = record {
  netuid = 97;
  block_number = 90;
  block_hash = some "0xaa";
  uid = some 4;
  hotkey = "new";
  coldkey = none;
  model_uri = "repo@sha";
  payload_hash = "p";
}

abbrev honest_commit : Commit
honest_commit = record swapped_commit { hotkey = "honest"; uid = some 5; payload_hash = "q" }

abbrev batch : List (Commit × Ids)
batch =
    (swapped_commit, record { commit_id = 1; submission_id = 11 })
    ∷ (honest_commit, record { commit_id = 2; submission_id = 12 })
    ∷ []

abbrev empty_db : ChainDb
empty_db = record { miners = []; chain_commits = []; submissions = []; used_hotkeys = [] }

abbrev before : Prior
before = (4, ("old", some 70)) ∷ (5, ("honest", some 60)) ∷ []

abbrev snapshot : Snapshot
snapshot = (4, ("new", 70)) ∷ (5, ("honest", 60)) ∷ []

abbrev swap : SwapEvent
swap = record { uid = 4; old_hotkey = "old"; new_hotkey = "new"; registration_block = 70 }

abbrev no_owner : String → Option String
no_owner hotkey = none

swap-IsSwap : IsSwap before snapshot swap
unfolding prior_of
swap-IsSwap = (inl refl, (refl, refl))

-- The honest commit is submitted, the other one is not.
read_block_opens :
    map
      (λ h. opened h (read_block no_owner before snapshot 90 batch empty_db).0)
      ("new" ∷ "honest" ∷ [])
    ≡ 0 ∷ 1 ∷ []
unfolding read_block count find? any update is_opened
read_block_opens = refl

-- A commit without a block hash leaves its neighbour out as well.
one_without_hash :
    insert_new_commits
      ((record swapped_commit { block_hash = none }, record { commit_id = 1; submission_id = 11 })
        ∷ batch)
      empty_db
    ≡ (empty_db, false)
unfolding insert_new_commits
one_without_hash = refl

-- The new hotkey is in the ledger already.
abbrev marked_db : ChainDb
marked_db = record empty_db {
  used_hotkeys = record { hotkey = "new"; block_number = 90; source = swap_source } ∷ [];
}

marked-is_used : is_used marked_db "new" ≡ true
unfolding is_used any
marked-is_used = refl

insert_new_commits-guards_example :
    opened "new" (insert_new_commits batch marked_db).0 ≡ opened "new" marked_db
insert_new_commits-guards_example = insert_new_commits-guards batch "new" marked_db marked-is_used

find_swaps_iff_example : In swap (find_swaps before snapshot) ↔ IsSwap before snapshot swap
find_swaps_iff_example = find_swaps_iff before snapshot swap

read_block-guards_example :
    opened "new" (read_block no_owner before snapshot 90 batch empty_db).0 ≡ opened "new" empty_db
read_block-guards_example =
    read_block-guards no_owner before snapshot 90 batch empty_db swap swap-IsSwap refl

insert_new_commits-IsAtomic_example : IsAtomic batch empty_db (insert_new_commits batch empty_db)
insert_new_commits-IsAtomic_example = insert_new_commits-IsAtomic batch empty_db
