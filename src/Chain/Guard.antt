-- ===== src/Chain/Guard.antt =====
-- A hotkey that the guard marked opens no submission (src/chain_guard/db.py, src/chain_reader/db.py).
use albedo.Prelude.{
  Bool-cases, Option-cases, count-update, find?, any, count, count-append, ℕ, String, ◌≡◌, refl,
  sym, ap, ◌∙◌, inl, inr, Bool, true, false, ◌&&◌, Option, none, some, some-injective, List, [],
  ◌∷◌, arith, str_eq, str_eq_iff,
}
use albedo.Chain.{
  ChainDb, Commit, MadeAs, SubmissionRow, is_used, made_invalid, made_submitted, CommitRow,
}
use albedo.Chain.Insert.{
  is_submission, link_commit, new_submission, refresh_rejected, refresh_submission, reuse_fault,
  submit, upsert_submission, upsert_commit, upsert_miner, Ids, insert_commit, insert_new_commits,
  is_commit, is_miner, submit_row, place_submission, end_transaction, raises, insert_all,
}

-- A submission of the hotkey that went in as SUBMITTED.
unfoldable pub is_opened : String → SubmissionRow → Bool
is_opened h s =
    str_eq s.hotkey h && (elim s.made_as [ made_submitted ↦ true | made_invalid _ ↦ false ])

abbrev pub opened : String → ChainDb → ℕ
opened h db = count (is_opened h) db.submissions

link_commit-opened :
    (h : String) (commit_id : ℕ) (done : ChainDb × ℕ)
    → opened h (link_commit commit_id done) ≡ opened h (done.0)
unfolding link_commit
link_commit-opened h commit_id (db, id) = refl

place_submission-opened :
    (c : Commit) (h : String) (commit_id id : ℕ) (made : MadeAs)
    (refresh : SubmissionRow → SubmissionRow) (db : ChainDb) (o : Option SubmissionRow)
    → ((s : SubmissionRow) → is_opened h (refresh s) ≡ is_opened h s)
    → is_opened h (new_submission c id commit_id made) ≡ false
    → opened h (place_submission c commit_id made refresh id db o).0 ≡ opened h db
unfolding place_submission
place_submission-opened c h commit_id id made refresh db none same shut =
    count-append (is_opened h) db.submissions (new_submission c id commit_id made ∷ [])
    ∙ unfold count in rw shut (omega arith)
place_submission-opened c h commit_id id made refresh db (some s) same shut =
    count-update (is_opened h) (is_submission c) refresh db.submissions same

upsert_submission-opened :
    (c : Commit) (h : String) (commit_id id : ℕ) (made : MadeAs)
    (refresh : SubmissionRow → SubmissionRow) (db : ChainDb)
    → ((s : SubmissionRow) → is_opened h (refresh s) ≡ is_opened h s)
    → is_opened h (new_submission c id commit_id made) ≡ false
    → opened h (link_commit commit_id (upsert_submission c commit_id made refresh id db))
      ≡ opened h db
unfolding upsert_submission
upsert_submission-opened c h commit_id id made refresh db same shut =
    let found = find? (is_submission c) db.submissions in
    link_commit-opened h commit_id (upsert_submission c commit_id made refresh id db)
    ∙ place_submission-opened c h commit_id id made refresh db found same shut

-- A commit under a used hotkey goes in as invalid; one under another hotkey is not counted.
new_submission-shut :
    (c : Commit) (h : String) (id commit_id : ℕ) (db : ChainDb)
    → is_used db h ≡ true
    → is_used db c.hotkey ≡ false
    → is_opened h (new_submission c id commit_id made_submitted) ≡ false
unfolding is_opened new_submission
new_submission-shut c h id commit_id db used free = elim (Bool-cases (str_eq c.hotkey h)) [
  | inl e ↦ absurd (
      let same : c.hotkey ≡ h = (str_eq_iff c.hotkey h).0 e in
      cc (ap (is_used db) same, used, free))
  | inr e ↦ rw e refl
]

submit-opened :
    (c : Commit) (h : String) (commit_id id : ℕ) (db : ChainDb)
    → is_used db h ≡ true
    → opened h (submit c commit_id id db) ≡ opened h db
unfolding submit
submit-opened c h commit_id id db used = elim (Bool-cases (is_used db c.hotkey)) [
  | inl hit ↦
      let made = made_invalid (reuse_fault db c.hotkey) in
      rw hit (
        upsert_submission-opened c h commit_id id made (refresh_rejected c commit_id) db
          (λ s. unfold is_opened refresh_rejected in refl)
          (unfold is_opened new_submission in ground arith))
  | inr miss ↦ rw miss (
      upsert_submission-opened c h commit_id id made_submitted (refresh_submission c commit_id) db
        (λ s. unfold is_opened refresh_submission in refl)
        (new_submission-shut c h id commit_id db used miss))
]

-- The other writes leave the submissions and the used hotkeys alone.
upsert_miner-rest :
    (c : Commit) (db : ChainDb)
    → ((upsert_miner c db).submissions ≡ db.submissions)
      × ((upsert_miner c db).used_hotkeys ≡ db.used_hotkeys)
unfolding upsert_miner
upsert_miner-rest c db = elim (Bool-cases (any (is_miner c) db.miners)) [
  | inl e ↦ rw e (refl, refl)
  | inr e ↦ rw e (refl, refl)
]

upsert_commit-rest :
    (c : Commit) (id : ℕ) (db : ChainDb)
    → ((upsert_commit c id db).submissions ≡ db.submissions)
      × ((upsert_commit c id db).used_hotkeys ≡ db.used_hotkeys)
unfolding upsert_commit
upsert_commit-rest c id db = elim (Bool-cases (any (is_commit c) db.chain_commits)) [
  | inl e ↦ rw e (refl, refl)
  | inr e ↦ rw e (refl, refl)
]

place_submission-used :
    (c : Commit) (commit_id id : ℕ) (made : MadeAs) (refresh : SubmissionRow → SubmissionRow)
    (db : ChainDb) (o : Option SubmissionRow)
    → (link_commit commit_id (place_submission c commit_id made refresh id db o)).used_hotkeys
      ≡ db.used_hotkeys
unfolding place_submission link_commit
place_submission-used c commit_id id made refresh db none = refl
place_submission-used c commit_id id made refresh db (some s) = refl

submit-used :
    (c : Commit) (commit_id id : ℕ) (db : ChainDb)
    → (submit c commit_id id db).used_hotkeys ≡ db.used_hotkeys
unfolding submit upsert_submission
submit-used c commit_id id db = elim (Bool-cases (is_used db c.hotkey)) [
  | inl e ↦ rw e (
      place_submission-used c commit_id id (made_invalid (reuse_fault db c.hotkey))
        (refresh_rejected c commit_id) db (find? (is_submission c) db.submissions))
  | inr e ↦ rw e (
      place_submission-used c commit_id id made_submitted (refresh_submission c commit_id) db
        (find? (is_submission c) db.submissions))
]

submit_row-guards :
    (c : Commit) (h : String) (id : ℕ) (row : Option CommitRow) (db : ChainDb)
    → is_used db h ≡ true
    → (opened h (submit_row c id row db) ≡ opened h db)
      × ((submit_row c id row db).used_hotkeys ≡ db.used_hotkeys)
unfolding submit_row
submit_row-guards c h id none db used = (refl, refl)
submit_row-guards c h id (some r) db used = elim (Option-cases r.submission_id) [
  | inl e ↦ rw e (submit-opened c h r.id id db used, submit-used c r.id id db)
  | inr (k, e) ↦ rw e (refl, refl)
]

is_used-same :
    (h : String) (a b : ChainDb)
    → a.used_hotkeys ≡ b.used_hotkeys
    → is_used b h ≡ true
    → is_used a h ≡ true
unfolding is_used
is_used-same h a b same used = ap (any (λ u. str_eq u.hotkey h)) same ∙ used

insert_commit-guards :
    (c : Commit) (ids : Ids) (h : String) (db : ChainDb)
    → is_used db h ≡ true
    → (opened h (insert_commit c ids db) ≡ opened h db)
      × (is_used (insert_commit c ids db) h ≡ true)
unfolding insert_commit
insert_commit-guards c ids h db used =
    let first = upsert_miner-rest c db in
    let second = upsert_commit-rest c ids.commit_id (upsert_miner c db) in
    let db' = upsert_commit c ids.commit_id (upsert_miner c db) in
    let used' = is_used-same h db' db (second.1 ∙ first.1) used in
    let row = find? (is_commit c) db'.chain_commits in
    let last = submit_row-guards c h ids.submission_id row db' used' in
    (
      last.0 ∙ ap (count (is_opened h)) (second.0 ∙ first.0),
      is_used-same h (submit_row c ids.submission_id row db') db' last.1 used',
    )

insert_all-guards :
    (commits : List (Commit × Ids)) (h : String) (db done : ChainDb)
    → is_used db h ≡ true
    → insert_all commits db ≡ some done
    → opened h done ≡ opened h db
unfolding insert_all
insert_all-guards [] h db done used e = ap (opened h) (sym (some-injective db done e))
insert_all-guards ((c, ids) ∷ commits) h db done used e = elim (Bool-cases (raises (c, ids) db)) [
  | inl null ↦ absurd (let wrong : none ≡ some done = rw null at e in cc wrong)
  | inr set ↦
      let round = insert_commit-guards c ids h db used in
      insert_all-guards commits h (insert_commit c ids db) done round.1 (rw set at e) ∙ round.0
]

-- Inserting commits opens no submission of a hotkey that the guard marked: as many of its submissions
-- went in as SUBMITTED after as before.
pub insert_new_commits-guards :
    (commits : List (Commit × Ids)) (h : String) (db : ChainDb)
    → is_used db h ≡ true
    → opened h (insert_new_commits commits db).0 ≡ opened h db
unfolding insert_new_commits end_transaction
insert_new_commits-guards commits h db used = elim (Option-cases (insert_all commits db)) [
  | inl e ↦ rw e refl
  | inr (done, e) ↦ rw e (insert_all-guards commits h db done used e)
]
