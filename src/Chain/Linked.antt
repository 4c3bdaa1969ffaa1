-- ===== src/Chain/Linked.antt =====
-- Every commit that is inserted ends with a submission (src/chain_reader/db.py).
use albedo.Prelude.{
  ==_refl, Bool-cases, Option-cases, In-update, any-In, All, find?-some, any, In, find?-In, ℕ, ◌≡◌,
  refl, sym, ap, ◌⊎◌, inl, inr, Bool, true, false, ◌||◌, none, some, List, [], ◌∷◌, ◌++◌, arith,
}
use mathlib.Core.Path.{subst}
use albedo.Chain.{Commit, CommitRow, ChainDb}
use albedo.Chain.Insert.{
  is_commit, link_commit, upsert_commit, Ids, insert_commit, insert_new_commits, submit_row,
  upsert_miner, end_transaction, has_null, insert_all, clashes, raises,
}
use albedo.Chain.Kept.{
  insert_all-keeps, is_linked, linked, set-linked, submit-by, upsert_commit-true,
}

module _ (c : Commit) where
  -- The row of the commit, once it is there, is linked.
  link_commit-links :
      (r : CommitRow) (done : ChainDb × ℕ)
      → In r done.0.chain_commits
      → is_commit c r ≡ true
      → r.submission_id ≡ none
      → linked c (link_commit r.id done) ≡ true
  unfolding link_commit
  link_commit-links r (db, k) m named free =
      any-In (is_linked c) _
        (In-update _ (λ r. record r { submission_id = some k }) db.chain_commits m
          (rw (==_refl r.id, free) refl))
        (set-linked c r k named)

  submit_row-links :
      (id : ℕ) (r : CommitRow) (db : ChainDb)
      → In r db.chain_commits
      → is_commit c r ≡ true
      → linked c (submit_row c id (some r) db) ≡ true
  unfolding submit_row
  submit_row-links id r db m named = elim (Option-cases r.submission_id) [
    | inl e ↦ rw e (
        submit-by c (λ rows. any (is_linked c) rows ≡ true) c r.id id db
          (λ done same. link_commit-links r done (subst (In r) (sym same) m) named e))
    | inr (k, e) ↦
        rw e (any-In (is_linked c) db.chain_commits m (unfold is_linked in rw (named, e) refl))
  ]

  insert_commit-links : (ids : Ids) (db : ChainDb) → linked c (insert_commit c ids db) ≡ true
  unfolding insert_commit
  insert_commit-links ids db =
      let db' = upsert_commit c ids.commit_id (upsert_miner c db) in
      let (r, found) =
        find?-some (is_commit c) db'.chain_commits
          (upsert_commit-true c ids.commit_id (upsert_miner c db)) in
      let (m, named) = find?-In (is_commit c) db'.chain_commits found in
      rw found (submit_row-links ids.submission_id r db' m named)

insert_all-links :
    (commits : List (Commit × Ids)) (db done : ChainDb)
    → insert_all commits db ≡ some done
    → All (λ k. linked (k.0) done ≡ true) commits
unfolding insert_all
insert_all-links [] db done e = tt
insert_all-links ((c, ids) ∷ commits) db done e = elim (Bool-cases (raises (c, ids) db)) [
  | inl null ↦ absurd (let wrong : none ≡ some done = rw null at e in cc wrong)
  | inr set ↦
      let e' = rw set at e in
      (
        insert_all-keeps c commits (insert_commit c ids db) done (insert_commit-links c ids db) e',
        insert_all-links commits (insert_commit c ids db) done e',
      )
]

either : (a b : Bool) → a || b ≡ true → (a ≡ true) ⊎ (b ≡ true)
either true b h = inl refl
either false b h = inr h

-- Why nothing was inserted: the commits before one of them go in, and that one has no block hash or no
-- uid, or its commit row belongs to a submission under another key.
pub record Stopped (commits : List (Commit × Ids)) (db : ChainDb) : Type 0 where
  pub before : List (Commit × Ids)
  pub at_fault : Commit × Ids
  pub after : List (Commit × Ids)
  pub split : commits ≡ before ++ at_fault ∷ after
  pub here : ChainDb
  pub went_in : insert_all before db ≡ some here
  pub why : (has_null at_fault ≡ true) ⊎ (clashes at_fault here ≡ true)

insert_all-none :
    (commits : List (Commit × Ids)) (db : ChainDb)
    → insert_all commits db ≡ none
    → Stopped commits db
unfolding insert_all
insert_all-none [] db e = cc
insert_all-none ((c, ids) ∷ commits) db e = elim (Bool-cases (raises (c, ids) db)) [
  | inl hit ↦ record {
    before = [];
    at_fault = (c, ids);
    after = commits;
    split = refl;
    here = db;
    went_in = refl;
    why = unfold raises in either (has_null (c, ids)) (clashes (c, ids) db) hit;
  }
  | inr go ↦
      let rest = insert_all-none commits (insert_commit c ids db) (rw go at e) in
      record {
        before = (c, ids) ∷ rest.before;
        at_fault = rest.at_fault;
        after = rest.after;
        split = ap (λ l. (c, ids) ∷ l) rest.split;
        here = rest.here;
        went_in = rw go rest.went_in;
        why = rest.why;
      }
]

insert_all-some :
    (commits : List (Commit × Ids)) (db done : ChainDb)
    → insert_all commits db ≡ some done
    → any has_null commits ≡ false
unfolding insert_all any raises
insert_all-some [] db done e = refl
insert_all-some ((c, ids) ∷ commits) db done e = elim (Bool-cases (raises (c, ids) db)) [
  | inl hit ↦ absurd (let wrong : none ≡ some done = rw hit at e in cc wrong)
  | inr go ↦
      let rest = insert_all-some commits (insert_commit c ids db) done (rw go at e) in
      ground (arith, go, rest)
]

-- Nothing was written, for a reason; or each commit has a block hash and a uid, and a row with a
-- submission.
abbrev pub IsAtomic : List (Commit × Ids) → ChainDb → ChainDb × Bool → Type 0
IsAtomic commits db done =
    ((done ≡ (db, false)) × Stopped commits db)
    ⊎ ((done.1 ≡ true)
        × (any has_null commits ≡ false)
        × All (λ k. linked (k.0) (done.0) ≡ true) commits)

-- Inserting commits is atomic. Either nothing is written of any, and then, once the commits before it are
-- in, one of them has no block hash or no uid, or its commit row belongs to a submission under another
-- key; or all have a block hash and a uid, and each has a row with a submission after it.
pub insert_new_commits-IsAtomic :
    (commits : List (Commit × Ids)) (db : ChainDb)
    → IsAtomic commits db (insert_new_commits commits db)
unfolding insert_new_commits end_transaction
insert_new_commits-IsAtomic commits db = elim (Option-cases (insert_all commits db)) [
  | inl e ↦ rw e (inl (refl, insert_all-none commits db e))
  | inr (done, e) ↦
      rw e (inr (refl, insert_all-some commits db done e, insert_all-links commits db done e))
]
