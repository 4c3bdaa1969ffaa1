-- ===== src/Private/Rows/Ids.antt =====
-- The primary keys stay distinct, whatever the services answer.
use albedo.Prelude.{
  ◌==◌, Bool-cases, IsKeyed, update-IsKeyed, append-IsKeyed, All, any, ℕ, String, ◌≡◌, refl, ◌≢◌,
  inl, inr, Bool, true, false, Option, none, some, List, str_eq,
}
use albedo.Private.{Registration, RegistrationState, World, call_out, update_row}
use albedo.Private.Controller.{
  Answers, Verification, broken, credential, credential_under, dispatch, issue, next_row, prefix_of,
  release, retry_later, revoke, set_credentialed, set_failed, set_revoked, set_submitted, settle,
  store, submit_under, tick, tick_on, touch, unverified, verified, verify, verify_under,
}
use albedo.Private.Sweep.{close_under, close_upload_window, reset_for_retry}
use albedo.Private.Intake.{
  IntakeCall, PrivateSignal, activate, activate_parsed, apply_activate, apply_ready, is_readied,
  is_rekeyed, make_ready, new_registration, ready_parsed, rekey,
}
use albedo.Private.Steps.{
  Step, Steps, activated_by, readied_by, retry_offered, step, stop, ticked, window_closed,
}
use albedo.Private.Freeze.Calls.{HasRows, call_out_keeps, issue_rows, release_rows}

-- A SET that leaves the key alone.
KeepsId : (Registration → Registration) → Type 0
KeepsId f = (r : Registration) → (f r).id ≡ r.id

abbrev pub HasIds : World → Type 0
HasIds w = IsKeyed (λ r. r.id) w.registrations

module _ (rows : List Registration) (ids : IsKeyed (λ r. r.id) rows) where
  stored_ids :
      (id : ℕ) (f : Registration → Registration) (s : World × Bool)
      → KeepsId f
      → s.0.registrations ≡ rows
      → HasIds (store id f s).0
  unfolding store update_row KeepsId
  stored_ids id f (w, false) set same = rw same ids
  stored_ids id f (w, true) set same =
      rw same (update-IsKeyed (λ r. r.id) (λ r. r.id == id) f rows set ids)

module _ (a : Answers) (w : World) (ids : HasIds w) where
  module _ (r : Registration) where
    credential_ids : (o : Option (List ℕ)) → HasIds (credential_under a r o w).0
    unfolding credential_under set_credentialed KeepsId
    credential_ids none = ids
    credential_ids (some prefix) =
        stored_ids w.registrations ids r.id (set_credentialed a prefix) (issue a r w) (λ s. refl)
          (issue_rows a r w)

    submit_ids : (digest : String) (o : Option (Option ℕ)) → HasIds (submit_under a r digest o w).0
    unfolding submit_under set_submitted KeepsId
    submit_ids digest none = ids
    submit_ids digest (some submission) =
        stored_ids w.registrations ids r.id (set_submitted a digest submission) (w, true)
          (λ s. refl) refl

    settle_ids : (v : Verification) → HasIds (settle a r v w).0
    unfolding settle set_failed KeepsId
    settle_ids unverified = ids
    settle_ids (broken fault) =
        stored_ids w.registrations ids r.id (set_failed a fault)
          (call_out a.aborting (λ v. v) (w, true)) (λ s. refl)
          (call_out_keeps (HasRows w.registrations) a.aborting (λ v. v) (w, true) (λ v k. k) refl)
    settle_ids (verified digest) = submit_ids digest (a.insert_commit r digest)

    verify_ids : (o : Option (List ℕ)) → HasIds (verify_under a r o w).0
    unfolding verify_under
    verify_ids none = ids
    verify_ids (some _) = settle_ids a.verification

    revoke_ids : HasIds (revoke a r w).0
    unfolding revoke set_revoked KeepsId
    revoke_ids =
        stored_ids w.registrations ids r.id (set_revoked a) (release a r w) (λ s. refl)
          (release_rows a r w)

    dispatch_ids : (state : RegistrationState) → HasIds (dispatch a r state w).0
    unfolding dispatch credential verify
    dispatch_ids RegistrationState.activated = credential_ids _
    dispatch_ids RegistrationState.ready = revoke_ids
    dispatch_ids RegistrationState.revoked = verify_ids _
    dispatch_ids RegistrationState.credentialed = verify_ids _
    dispatch_ids RegistrationState.submitted = verify_ids _
    dispatch_ids RegistrationState.failed = verify_ids _
    dispatch_ids RegistrationState.reaped = verify_ids _

    close_ids :
        (reason : String) (o : Option (List ℕ))
        → HasIds (close_under a reason r o (release a r w)).0
    unfolding close_under set_failed KeepsId
    close_ids reason none = rw (release_rows a r w) ids
    close_ids reason (some _) =
        stored_ids w.registrations ids r.id (set_failed a reason)
          (call_out a.aborting (λ v. v) (release a r w)) (λ s. refl)
          (call_out_keeps (HasRows w.registrations) a.aborting (λ v. v) (release a r w) (λ v k. k)
            (release_rows a r w))

  retry_ids : (id : ℕ) (s : World × Bool) → HasIds s.0 → HasIds (retry_later a id s)
  unfolding retry_later update_row touch
  retry_ids id (v, true) h = h
  retry_ids id (v, false) h =
      update-IsKeyed (λ r. r.id) (λ r. r.id == id) (touch a) v.registrations (λ r. refl) h

  tick_ids : (o : Option Registration) → HasIds (tick_on a o w).0
  unfolding tick_on
  tick_ids none = ids
  tick_ids (some r) = retry_ids r.id (dispatch a r r.state w) (dispatch_ids r r.state)

module _ (call : IntakeCall) (signal : PrivateSignal) (w : World) (ids : HasIds w) where
  activate_ids :
      (uid : Option ℕ) (pubkey rid : Option String)
      → All (λ r. r.id ≢ call.row_id) w.registrations
      → HasIds (activate_parsed call signal uid pubkey rid w).0
  unfolding activate_parsed activate rekey new_registration
  activate_ids none pubkey rid new = ids
  activate_ids (some uid) none rid new = ids
  activate_ids (some uid) (some pubkey) none new = ids
  activate_ids (some uid) (some pubkey) (some rid) new =
      elim (Bool-cases (call.is_used signal.hotkey)) [
        | inl used ↦ rw used ids
        | inr unused ↦ elim (Bool-cases (any (λ r. str_eq r.registration_id rid) w.registrations)) [
          | inl there ↦
              rw (unused, there)
                (update-IsKeyed (λ r. r.id) (is_rekeyed call signal rid pubkey)
                  (rekey call signal pubkey) w.registrations (λ r. refl) ids)
          | inr none_yet ↦
              rw (unused, none_yet)
                (append-IsKeyed (λ r. r.id) w.registrations
                  (new_registration call signal uid rid pubkey) ids new)
        ]
      ]

  ready_ids : (manifest rid : Option String) → HasIds (ready_parsed call signal manifest rid w).0
  unfolding ready_parsed make_ready
  ready_ids none rid = ids
  ready_ids (some manifest) none = ids
  ready_ids (some manifest) (some rid) =
      update-IsKeyed (λ r. r.id) (is_readied signal rid) (make_ready call signal manifest)
        w.registrations (λ r. refl) ids

Step-ids : {max_attempts : ℕ} {w w' : World} → Step max_attempts w w' → HasIds w → HasIds w'
unfolding tick apply_activate apply_ready close_upload_window update_row reset_for_retry
Step-ids {w = w} (ticked a) h = tick_ids a w h (next_row a w)
Step-ids {w = w} (activated_by call signal same new) h = activate_ids call signal w h _ _ _ new
Step-ids {w = w} (readied_by call signal) h = ready_ids call signal w h _ _
Step-ids {w = w} (window_closed a reason r) h = close_ids a w h r reason (prefix_of r)
Step-ids {w = w} (retry_offered r now newest_block here e) h =
    update-IsKeyed (λ s. s.id) (λ s. s.id == r.id) (reset_for_retry now newest_block)
      w.registrations (λ s. refl) h

pub Steps-ids : {max_attempts : ℕ} {w w' : World} → Steps max_attempts w w' → HasIds w → HasIds w'
Steps-ids stop h = h
Steps-ids (step steps last) h = Step-ids last (Steps-ids steps h)
