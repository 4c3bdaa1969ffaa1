-- ===== src/Chain/Kept.antt =====
-- What the writes of a commit keep of the commits before it (src/chain_reader/db.py).
use albedo.Prelude.{
  ==_refl, Bool-cases, Option-cases, any-append, any_last, any-update, find?, any, ℕ, ◌≡◌, refl,
  sym, ap, ◌∙◌, inl, inr, Bool, true, false, ◌&&◌, Option, none, some, some-injective, List, [],
  ◌∷◌, arith, str_eq_iff,
}
use albedo.Chain.{
  Commit, CommitRow, ChainDb, MadeAs, SubmissionRow, is_used, made_invalid, made_submitted,
}
use albedo.Chain.Insert.{
  is_commit, link_commit, new_commit, refresh_commit, upsert_commit, Ids, insert_commit, is_miner,
  is_submission, place_submission, refresh_rejected, refresh_submission, reuse_fault, submit,
  submit_row, upsert_miner, upsert_submission, raises, insert_all,
}

-- The row of the commit, with a submission.
unfoldable pub is_linked : Commit → CommitRow → Bool
unfolding is_commit
is_linked c r = is_commit c r && (elim r.submission_id [ none ↦ false | some _ ↦ true ])

abbrev pub linked : Commit → ChainDb → Bool
linked c db = any (is_linked c) db.chain_commits

new_commit-true : (c : Commit) (id : ℕ) → is_commit c (new_commit c id) ≡ true
unfolding is_commit new_commit
new_commit-true c id =
    rw
      (
        ==_refl c.netuid,
        (str_eq_iff c.hotkey c.hotkey).1 refl,
        (str_eq_iff c.payload_hash c.payload_hash).1 refl,
      )
      refl

pub upsert_commit-true :
    (c : Commit) (id : ℕ) (db : ChainDb)
    → any (is_commit c) (upsert_commit c id db).chain_commits ≡ true
unfolding upsert_commit
upsert_commit-true c id db = elim (Bool-cases (any (is_commit c) db.chain_commits)) [
  | inl e ↦ rw e (
      any-update (is_commit c) (is_commit c) (refresh_commit c) db.chain_commits
        (λ r hit. unfold is_commit refresh_commit in hit) e)
  | inr e ↦ rw e (any_last (is_commit c) db.chain_commits (new_commit c id) (new_commit-true c id))
]

-- The writes of another commit keep the submission of a commit.
module _ (c : Commit) where
  pub set-linked :
      (r : CommitRow) (id : ℕ)
      → is_commit c r ≡ true
      → is_linked c (record r { submission_id = some id }) ≡ true
  unfolding is_linked is_commit
  set-linked r id h = ground (arith, h)

  pub link_commit-keeps :
      (id : ℕ) (done : ChainDb × ℕ)
      → linked c (done.0) ≡ true
      → linked c (link_commit id done) ≡ true
  unfolding link_commit
  link_commit-keeps id (db, k) h =
      any-update (is_linked c) _ (λ r. record r { submission_id = some k }) db.chain_commits
        (λ r hit. set-linked r k (unfold is_linked in ground (arith, hit))) h

  upsert_commit-keeps :
      (d : Commit) (id : ℕ) (db : ChainDb)
      → linked c db ≡ true
      → linked c (upsert_commit d id db) ≡ true
  unfolding upsert_commit
  upsert_commit-keeps d id db h = elim (Bool-cases (any (is_commit d) db.chain_commits)) [
    | inl e ↦ rw e (
        any-update (is_linked c) (is_commit d) (refresh_commit d) db.chain_commits
          (λ r hit. unfold is_linked is_commit refresh_commit in hit) h)
    | inr e ↦ rw e (any-append (is_linked c) db.chain_commits (new_commit d id ∷ []) h)
  ]

  place_submission-commits :
      (d : Commit) (commit_id id : ℕ) (made : MadeAs) (refresh : SubmissionRow → SubmissionRow)
      (db : ChainDb) (o : Option SubmissionRow)
      → (place_submission d commit_id made refresh id db o).0.chain_commits ≡ db.chain_commits
  unfolding place_submission
  place_submission-commits d commit_id id made refresh db none = refl
  place_submission-commits d commit_id id made refresh db (some s) = refl

  -- What a property of the linked rows needs of `submit`.
  pub submit-by :
      (P : List CommitRow → Type 0) (d : Commit) (commit_id id : ℕ) (db : ChainDb)
      → ((done : ChainDb × ℕ)
          → done.0.chain_commits ≡ db.chain_commits
          → P (link_commit commit_id done).chain_commits)
      → P (submit d commit_id id db).chain_commits
  unfolding submit upsert_submission
  submit-by P d commit_id id db each =
      let found = find? (is_submission d) db.submissions in
      elim (Bool-cases (is_used db d.hotkey)) [
        | inl e ↦
            let made = made_invalid (reuse_fault db d.hotkey) in
            let refresh = refresh_rejected d commit_id in
            rw e (
              each (place_submission d commit_id made refresh id db found)
                (place_submission-commits d commit_id id made refresh db found))
        | inr e ↦
            let refresh = refresh_submission d commit_id in
            rw e (
              each (place_submission d commit_id made_submitted refresh id db found)
                (place_submission-commits d commit_id id made_submitted refresh db found))
      ]

  submit_row-keeps :
      (d : Commit) (id : ℕ) (row : Option CommitRow) (db : ChainDb)
      → linked c db ≡ true
      → linked c (submit_row d id row db) ≡ true
  unfolding submit_row
  submit_row-keeps d id none db h = h
  submit_row-keeps d id (some r) db h = elim (Option-cases r.submission_id) [
    | inl e ↦ rw e (
        submit-by (λ rows. any (is_linked c) rows ≡ true) d r.id id db
          (λ done same. link_commit-keeps r.id done (ap (any (is_linked c)) same ∙ h)))
    | inr (k, e) ↦ rw e h
  ]

  pub upsert_miner-commits :
      (d : Commit) (db : ChainDb) → (upsert_miner d db).chain_commits ≡ db.chain_commits
  unfolding upsert_miner
  upsert_miner-commits d db = elim (Bool-cases (any (is_miner d) db.miners)) [
    | inl e ↦ rw e refl
    | inr e ↦ rw e refl
  ]

  insert_commit-keeps :
      (d : Commit) (ids : Ids) (db : ChainDb)
      → linked c db ≡ true
      → linked c (insert_commit d ids db) ≡ true
  unfolding insert_commit
  insert_commit-keeps d ids db h =
      let db' = upsert_commit d ids.commit_id (upsert_miner d db) in
      submit_row-keeps d ids.submission_id (find? (is_commit d) db'.chain_commits) db' (
        upsert_commit-keeps d ids.commit_id (upsert_miner d db)
          (ap (any (is_linked c)) (upsert_miner-commits d db) ∙ h))

  pub insert_all-keeps :
      (commits : List (Commit × Ids)) (db done : ChainDb)
      → linked c db ≡ true
      → insert_all commits db ≡ some done
      → linked c done ≡ true
  unfolding insert_all
  insert_all-keeps [] db done h e = ap (linked c) (sym (some-injective db done e)) ∙ h
  insert_all-keeps ((d, ids) ∷ commits) db done h e = elim (Bool-cases (raises (d, ids) db)) [
    | inl null ↦ absurd (let wrong : none ≡ some done = rw null at e in cc wrong)
    | inr set ↦
        insert_all-keeps commits (insert_commit d ids db) done (insert_commit-keeps d ids db h)
          (rw set at e)
  ]
