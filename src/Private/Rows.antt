-- ===== src/Private/Rows.antt =====
-- What every SET of the private store keeps of a row, every step keeps of every row.
pub mod Ids
pub mod Always
use albedo.Prelude.{
  ◌==◌, ==_iff, IsKeyed, All-update, keyed_unique, All-update-In, All, select, In, In-select,
  first_by-In, ℕ, String, ◌≡◌, refl, ap, ◌∙◌, Bool, true, false, Option, none, some, List,
}
use albedo.Private.{
  Registration, RegistrationState, World, call_out, update_row, activated, credentialed, failed,
  ready, reaped, revoked, submitted,
}
use albedo.Private.Controller.{
  Answers, Verification, broken, credential, credential_under, dispatch, is_pending, issue,
  next_row, release, retry_later, revoke, set_credentialed, set_failed, set_revoked, set_submitted,
  settle, store, submit_under, tick_on, touch, unverified, verified, verify, verify_under,
}
use albedo.Private.Sweep.{reset_for_retry}
use albedo.Private.Intake.{
  IntakeCall, PrivateSignal, is_readied, is_rekeyed, make_ready, new_registration, rekey,
}
use albedo.Private.Contracts.{codes, model_prefix}
use albedo.Private.Freeze.Calls.{call_out_keeps, HasRows, issue_rows, release_rows}
use albedo.Chain.Insert.{insert_commit}

-- The SETs, each with what the row is known to be.
pub record Kept (max_attempts : ℕ) (P : Registration → Type 0) : Type 0 where
  pub credentialed_row :
      (a : Answers) (prefix : List ℕ) (r : Registration)
      → model_prefix (codes r.registration_id) r.attempt_count ≡ some prefix
      → P r
      → P (set_credentialed a prefix r)
  pub revoked_row :
      (a : Answers) (r : Registration)
      → r.state ≡ RegistrationState.ready
      → P r
      → P (set_revoked a r)
  pub failed_row :
      (a : Answers) (fault : String) (r : Registration) → P r → P (set_failed a fault r)
  pub submitted_row :
      (a : Answers) (digest : String) (submission : Option ℕ) (r : Registration)
      → P r
      → P (set_submitted a digest submission r)
  pub touched_row : (a : Answers) (r : Registration) → P r → P (touch a r)
  pub reset_row :
      (now newest_block : ℕ) (r : Registration)
      → r.state ≡ RegistrationState.submitted
      → P r
      → P (reset_for_retry now newest_block r)
  pub rekeyed_row :
      (call : IntakeCall) (signal : PrivateSignal) (rid pubkey : String) (r : Registration)
      → call.max_attempts ≡ max_attempts
      → is_rekeyed call signal rid pubkey r ≡ true
      → P r
      → P (rekey call signal pubkey r)
  pub new_row :
      (call : IntakeCall) (signal : PrivateSignal) (uid : ℕ) (rid pubkey : String)
      → P (new_registration call signal uid rid pubkey)
  pub ready_row :
      (call : IntakeCall) (signal : PrivateSignal) (manifest rid : String) (r : Registration)
      → is_readied signal rid r ≡ true
      → P r
      → P (make_ready call signal manifest r)

module _ (P : Registration → Type 0) where
  pub stored_rows :
      (id : ℕ) (f : Registration → Registration) (rows : List Registration) (s : World × Bool)
      → ((r : Registration) → In r rows → r.id ≡ id → P r → P (f r))
      → s.0.registrations ≡ rows
      → All P rows
      → All P (store id f s).0.registrations
  unfolding store update_row
  stored_rows id f rows (w, false) keep same h = rw same h
  stored_rows id f rows (w, true) keep same h =
      rw same
        (All-update-In P (λ r. r.id == id) f rows (λ r m hit. keep r m ((==_iff r.id id).0 hit)) h)

module _ (max_attempts : ℕ) (P : Registration → Type 0) (kept : Kept max_attempts P) where
  -- The step of one row of the table.
  module _ (a : Answers) (w : World) (ids : IsKeyed (λ r. r.id) w.registrations)
      (h : All P w.registrations) (r : Registration) (here : In r w.registrations) where
    mine : (s : Registration) → In s w.registrations → s.id ≡ r.id → s ≡ r
    mine s m e = keyed_unique (λ x. x.id) w.registrations ids m here e

    credential_rows :
        (o : Option (List ℕ))
        → model_prefix (codes r.registration_id) r.attempt_count ≡ o
        → All P (credential_under a r o w).0.registrations
    unfolding credential_under
    credential_rows none e = h
    credential_rows (some prefix) e =
        stored_rows P r.id (set_credentialed a prefix) w.registrations (issue a r w)
          (λ s m same k.
            kept.credentialed_row a prefix s
              (ap (λ x. model_prefix (codes x.registration_id) x.attempt_count) (mine s m same) ∙ e)
              k)
          (issue_rows a r w) h

    revoke_rows : r.state ≡ RegistrationState.ready → All P (revoke a r w).0.registrations
    unfolding revoke
    revoke_rows e =
        stored_rows P r.id (set_revoked a) w.registrations (release a r w)
          (λ s m same k. kept.revoked_row a s (ap (λ x. x.state) (mine s m same) ∙ e) k)
          (release_rows a r w) h

    submit_rows :
        (digest : String) (o : Option (Option ℕ))
        → All P (submit_under a r digest o w).0.registrations
    unfolding submit_under
    submit_rows digest none = h
    submit_rows digest (some submission) =
        stored_rows P r.id (set_submitted a digest submission) w.registrations (w, true)
          (λ s m same. kept.submitted_row a digest submission s) refl h

    settle_rows : (v : Verification) → All P (settle a r v w).0.registrations
    unfolding settle
    settle_rows unverified = h
    settle_rows (broken fault) =
        stored_rows P r.id (set_failed a fault) w.registrations
          (call_out a.aborting (λ v. v) (w, true)) (λ s m same. kept.failed_row a fault s)
          (call_out_keeps (HasRows w.registrations) a.aborting (λ v. v) (w, true) (λ v k. k) refl) h
    settle_rows (verified digest) = submit_rows digest (a.insert_commit r digest)

    verify_rows : (o : Option (List ℕ)) → All P (verify_under a r o w).0.registrations
    unfolding verify_under
    verify_rows none = h
    verify_rows (some _) = settle_rows a.verification

    dispatch_rows :
        (state : RegistrationState) → r.state ≡ state → All P (dispatch a r state w).0.registrations
    unfolding dispatch credential verify
    dispatch_rows RegistrationState.activated e = credential_rows _ refl
    dispatch_rows RegistrationState.ready e = revoke_rows e
    dispatch_rows RegistrationState.revoked e = verify_rows _
    dispatch_rows RegistrationState.credentialed e = verify_rows _
    dispatch_rows RegistrationState.submitted e = verify_rows _
    dispatch_rows RegistrationState.failed e = verify_rows _
    dispatch_rows RegistrationState.reaped e = verify_rows _

  retry_rows :
      (a : Answers) (id : ℕ) (s : World × Bool)
      → All P s.0.registrations
      → All P (retry_later a id s).registrations
  unfolding retry_later update_row
  retry_rows a id (w, true) h = h
  retry_rows a id (w, false) h =
      All-update P (λ r. r.id == id) (touch a) w.registrations (kept.touched_row a) h

  pub tick_rows :
      (a : Answers) (w : World) (o : Option Registration)
      → next_row a w ≡ o
      → IsKeyed (λ r. r.id) w.registrations
      → All P w.registrations
      → All P (tick_on a o w).0.registrations
  unfolding tick_on next_row
  tick_rows a w none e ids h = h
  tick_rows a w (some r) e ids h =
      let here =
        In-select (is_pending a) w.registrations
          (first_by-In _ (select (is_pending a) w.registrations) e) in
      retry_rows a r.id _ (dispatch_rows a w ids h r here.0 r.state refl)
