-- ===== src/Private/Freeze/Signals.antt =====
-- The signals and the sweeps keep the rows safe.
use albedo.Prelude.{
  ◌==◌, ==_iff, Bool-cases, append-IsKeyed, keyed_unique, All, All-append, All-map, update, any, In,
  ℕ, String, ◌≡◌, refl, ap, ◌∙◌, ◌≢◌, inl, inr, Bool, true, false, Option, none, some, List, [],
  ◌∷◌, ◌++◌, arith, str_eq, str_eq_iff,
}
use albedo.Private.{Registration, World, call_out, update_row, RegistrationState}
use albedo.Private.Sweep.{close_under, close_upload_window, reset_for_retry}
use albedo.Private.Intake.{
  IntakeCall, PrivateSignal, activate, activate_parsed, apply_activate, apply_ready, is_readied,
  is_rekeyed, make_ready, new_registration, ready_parsed, rekey,
}
use albedo.Private.Controller.{Answers, prefix_of, release, set_failed}
use albedo.Private.Freeze.{Frozen, SafeRow, is_frozen, is_open}
use albedo.Private.Freeze.Calls.{IsSafe, call_out_keeps, IsSafe-release}
use albedo.Private.Freeze.Steps.{stored-Frozen, thaw-Frozen, update-Frozen}

any_none :
    (p : Registration → Bool) (rows : List Registration)
    → any p rows ≡ false
    → All (λ r. p r ≡ false) rows
unfolding any
any_none p [] h = tt
any_none p (r ∷ rows) h = ground (arith, any_none p rows)

readied_open :
    (signal : PrivateSignal) (rid : String) (r : Registration)
    → is_readied signal rid r ≡ true
    → is_open r ≡ true
unfolding is_readied is_open
readied_open signal rid r hit = ground (arith, hit)

module _ (call : IntakeCall) (signal : PrivateSignal) (w : World) (h : Frozen w) where
  rekey-Frozen :
      (rid pubkey : String)
      → Frozen (record w {
        registrations =
            update (is_rekeyed call signal rid pubkey) (rekey call signal pubkey) w.registrations;
      })
  unfolding rekey is_frozen is_open
  rekey-Frozen rid pubkey =
      thaw-Frozen (is_rekeyed call signal rid pubkey) (rekey call signal pubkey) w
        (λ r. (refl, refl)) (λ r hit k. ((λ on. absurd (cc on)), (λ on. absurd (cc on)))) h

  insert-Frozen :
      (uid : ℕ) (rid pubkey : String)
      → All (λ r. r.id ≢ call.row_id) w.registrations
      → any (λ r. str_eq r.registration_id rid) w.registrations ≡ false
      → Frozen (record w {
        registrations = w.registrations ++ new_registration call signal uid rid pubkey ∷ [];
      })
  unfolding new_registration is_frozen is_open
  insert-Frozen uid rid pubkey new_id new_rid = (
    append-IsKeyed (λ r. r.id) w.registrations (new_registration call signal uid rid pubkey) h.0
        new_id,
    append-IsKeyed (λ r. r.registration_id) w.registrations
        (new_registration call signal uid rid pubkey) h.1
        (All-map
          (λ r (e : str_eq r.registration_id rid ≡ false).
            λ q. ground (arith, e, str_eq_iff r.registration_id rid, q))
          w.registrations (any_none (λ r. str_eq r.registration_id rid) w.registrations new_rid)),
    All-append (SafeRow w) w.registrations (new_registration call signal uid rid pubkey ∷ []) h.2
        (((λ on. absurd (cc on)), (λ on. absurd (cc on))), tt),
  )

  activate-Frozen :
      (uid : ℕ) (rid pubkey : String)
      → All (λ r. r.id ≢ call.row_id) w.registrations
      → Frozen (activate call signal uid rid pubkey w).0
  unfolding activate
  activate-Frozen uid rid pubkey new_id = elim (Bool-cases (call.is_used signal.hotkey)) [
    | inl used ↦ rw used h
    | inr unused ↦ elim (Bool-cases (any (λ r. str_eq r.registration_id rid) w.registrations)) [
      | inl there ↦ rw (unused, there) (rekey-Frozen rid pubkey)
      | inr new ↦ rw (unused, new) (insert-Frozen uid rid pubkey new_id new)
    ]
  ]

  activate_parsed-Frozen :
      (uid : Option ℕ) (pubkey rid : Option String)
      → All (λ r. r.id ≢ call.row_id) w.registrations
      → Frozen (activate_parsed call signal uid pubkey rid w).0
  unfolding activate_parsed
  activate_parsed-Frozen none pubkey rid new_id = h
  activate_parsed-Frozen (some uid) none rid new_id = h
  activate_parsed-Frozen (some uid) (some pubkey) none new_id = h
  activate_parsed-Frozen (some uid) (some pubkey) (some rid) new_id =
      activate-Frozen uid rid pubkey new_id

  pub apply_activate-Frozen :
      All (λ r. r.id ≢ call.row_id) w.registrations → Frozen (apply_activate call signal w).0
  unfolding apply_activate
  apply_activate-Frozen new_id = activate_parsed-Frozen _ _ _ new_id

  ready_parsed-Frozen :
      (manifest rid : Option String) → Frozen (ready_parsed call signal manifest rid w).0
  unfolding ready_parsed make_ready is_readied is_frozen is_open
  ready_parsed-Frozen none rid = h
  ready_parsed-Frozen (some manifest) none = h
  ready_parsed-Frozen (some manifest) (some rid) =
      thaw-Frozen (is_readied signal rid) (make_ready call signal manifest) w (λ r. (refl, refl))
        (λ r hit k. ((λ on. absurd (cc on)), (λ on. k.1 (readied_open signal rid r hit)))) h

  pub apply_ready-Frozen : Frozen (apply_ready call signal w).0
  unfolding apply_ready
  apply_ready-Frozen = ready_parsed-Frozen _ _

module _ (w : World) (h : Frozen w) where
  -- The row may have changed since the sweep read it.
  close_under-Frozen :
      (a : Answers) (reason : String) (r : Registration) (o : Option (List ℕ))
      → Frozen (close_under a reason r o (release a r w)).0
  unfolding close_under set_failed is_frozen is_open
  close_under-Frozen a reason r none =
      let safe = IsSafe-release w.registrations a r w (refl, h.2) in rw safe.0 (h.0, h.1, safe.1)
  close_under-Frozen a reason r (some _) =
      stored-Frozen a w h r.id (set_failed a reason) (call_out a.aborting (λ v. v) (release a r w))
        (λ s. (refl, refl)) (λ good s m e k. ((λ on. absurd (cc on)), (λ on. absurd (cc on))))
        (call_out_keeps (IsSafe w.registrations) a.aborting (λ v. v) (release a r w) (λ v k. k)
          (IsSafe-release w.registrations a r w (refl, h.2)))

  pub close-Frozen :
      (a : Answers) (reason : String) (r : Registration)
      → Frozen (close_upload_window a reason r w).0
  unfolding close_upload_window
  close-Frozen a reason r = close_under-Frozen a reason r (prefix_of r)

  -- A SUBMITTED row stays frozen.
  pub reset-Frozen :
      (r : Registration) (now newest_block : ℕ)
      → In r w.registrations
      → r.state ≡ RegistrationState.submitted
      → Frozen (update_row r.id (reset_for_retry now newest_block) w)
  unfolding update_row reset_for_retry is_frozen is_open
  reset-Frozen r now newest_block here e =
      update-Frozen (λ s. s.id == r.id) (reset_for_retry now newest_block) w.registrations w h.0 h.1
        (λ s. (refl, refl))
        (λ s m hit k.
          let state : s.state ≡ RegistrationState.submitted =
            ap (λ x. x.state)
              (keyed_unique (λ x. x.id) w.registrations h.0 m here ((==_iff s.id r.id).0 hit))
            ∙ e in
          (k.0, (λ on. ground (arith, state, on))))
        (refl, h.2)
