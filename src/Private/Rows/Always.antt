-- ===== src/Private/Rows/Always.antt =====
-- The signals and the sweeps keep of every row what their SETs keep, and so do all steps.
use albedo.Prelude.{
  ◌==◌, ==_iff, Bool-cases, IsKeyed, keyed_unique, All-update-In, All, All-append, any, In, ℕ,
  String, ◌≡◌, refl, ap, ◌∙◌, inl, inr, Option, none, some, List, [], ◌∷◌, str_eq,
}
use albedo.Private.{Registration, RegistrationState, World, call_out, update_row}
use albedo.Private.Sweep.{close_under, close_upload_window, reset_for_retry}
use albedo.Private.Intake.{
  IntakeCall, PrivateSignal, activate, activate_parsed, apply_activate, apply_ready, is_readied,
  is_rekeyed, make_ready, new_registration, ready_parsed, rekey,
}
use albedo.Private.Controller.{Answers, next_row, prefix_of, release, set_failed, tick}
use albedo.Private.Steps.{
  Step, Steps, activated_by, window_closed, readied_by, retry_offered, step, stop, ticked,
}
use albedo.Private.Rows.{HasRows, Kept, release_rows, stored_rows, tick_rows}
use albedo.Private.Freeze.Calls.{call_out_keeps}
use albedo.Private.Rows.Ids.{Steps-ids}

module _ (max_attempts : ℕ) (P : Registration → Type 0) (kept : Kept max_attempts P) where
  module _ (call : IntakeCall) (signal : PrivateSignal) (w : World)
      (h : All P w.registrations) where
    activate_rows :
        call.max_attempts ≡ max_attempts
        → (uid : ℕ) (rid pubkey : String)
        → All P (activate call signal uid rid pubkey w).0.registrations
    unfolding activate
    activate_rows same uid rid pubkey = elim (Bool-cases (call.is_used signal.hotkey)) [
      | inl used ↦ rw used h
      | inr unused ↦ elim (Bool-cases (any (λ r. str_eq r.registration_id rid) w.registrations)) [
        | inl there ↦
            rw (unused, there)
              (All-update-In P (is_rekeyed call signal rid pubkey) (rekey call signal pubkey)
                w.registrations (λ r m hit. kept.rekeyed_row call signal rid pubkey r same hit) h)
        | inr new ↦
            rw (unused, new)
              (All-append P w.registrations (new_registration call signal uid rid pubkey ∷ []) h
                (kept.new_row call signal uid rid pubkey, tt))
      ]
    ]

    activate_parsed_rows :
        call.max_attempts ≡ max_attempts
        → (uid : Option ℕ) (pubkey rid : Option String)
        → All P (activate_parsed call signal uid pubkey rid w).0.registrations
    unfolding activate_parsed
    activate_parsed_rows same none pubkey rid = h
    activate_parsed_rows same (some uid) none rid = h
    activate_parsed_rows same (some uid) (some pubkey) none = h
    activate_parsed_rows same (some uid) (some pubkey) (some rid) =
        activate_rows same uid rid pubkey

    ready_parsed_rows :
        (manifest rid : Option String)
        → All P (ready_parsed call signal manifest rid w).0.registrations
    unfolding ready_parsed
    ready_parsed_rows none rid = h
    ready_parsed_rows (some manifest) none = h
    ready_parsed_rows (some manifest) (some rid) =
        All-update-In P (is_readied signal rid) (make_ready call signal manifest) w.registrations
          (λ r m hit. kept.ready_row call signal manifest rid r hit) h

  close_rows :
      (a : Answers) (reason : String) (r : Registration) (o : Option (List ℕ)) (w : World)
      → All P w.registrations
      → All P (close_under a reason r o (release a r w)).0.registrations
  unfolding close_under
  close_rows a reason r none w h = rw (release_rows a r w) h
  close_rows a reason r (some _) w h =
      stored_rows P r.id (set_failed a reason) w.registrations
        (call_out a.aborting (λ v. v) (release a r w)) (λ s m same. kept.failed_row a reason s)
        (call_out_keeps (HasRows w.registrations) a.aborting (λ v. v) (release a r w) (λ v k. k)
          (release_rows a r w))
        h

  reset_rows :
      (r : Registration) (now newest_block : ℕ) (w : World)
      → IsKeyed (λ s. s.id) w.registrations
      → In r w.registrations
      → r.state ≡ RegistrationState.submitted
      → All P w.registrations
      → All P (update_row r.id (reset_for_retry now newest_block) w).registrations
  unfolding update_row
  reset_rows r now newest_block w ids here e h =
      All-update-In P (λ s. s.id == r.id) (reset_for_retry now newest_block) w.registrations
        (λ s m hit. kept.reset_row now newest_block s (
          ap (λ x. x.state)
            (keyed_unique (λ x. x.id) w.registrations ids m here ((==_iff s.id r.id).0 hit))
          ∙ e))
        h

  Step-rows :
      {w w' : World}
      → Step max_attempts w w'
      → IsKeyed (λ r. r.id) w.registrations
      → All P w.registrations
      → All P w'.registrations
  unfolding tick apply_activate apply_ready close_upload_window
  Step-rows {w} (ticked a) keyed h = tick_rows max_attempts P kept a w (next_row a w) refl keyed h
  Step-rows {w} (activated_by call signal same _) keyed h =
      activate_parsed_rows call signal w h same _ _ _
  Step-rows {w} (readied_by call signal) keyed h = ready_parsed_rows call signal w h _ _
  Step-rows {w} (window_closed a reason r) keyed h = close_rows a reason r (prefix_of r) w h
  Step-rows {w} (retry_offered r now newest_block here e) keyed h =
      reset_rows r now newest_block w keyed here e h

  -- What the SETs keep holds of every row after any steps.
  pub Steps-rows :
      {w w' : World}
      → Steps max_attempts w w'
      → IsKeyed (λ r. r.id) w.registrations
      → All P w.registrations
      → All P w'.registrations
  Steps-rows stop keyed h = h
  Steps-rows (step steps last) keyed h =
      Step-rows last (Steps-ids steps keyed) (Steps-rows steps keyed h)
