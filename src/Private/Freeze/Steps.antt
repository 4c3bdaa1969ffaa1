-- ===== src/Private/Freeze/Steps.antt =====
-- Every step of the controller keeps the rows safe.
use albedo.Prelude.{
  ◌==◌, ==_iff, IsKeyed, update-IsKeyed, keyed_unique, All-update-In, select, update, In, In-select,
  first_by-In, All-In, ℕ, String, ◌≡◌, refl, ap, ◌∙◌, Bool, true, false, Option, none, some, List,
  arith, str_eq, str_eq_iff,
}
use albedo.Private.{Registration, World, update_row, call_out, RegistrationState, Token}
use albedo.Private.Controller.{
  Answers, Verification, revoke, set_credentialed, set_failed, set_revoked, set_submitted, settle,
  store, touch, broken, credential_under, issue, release, unverified, verified, credential,
  dispatch, is_pending, next_row, retry_later, submit_under, tick, verify, verify_under, prefix_of,
  tick_on,
}
use albedo.Private.Freeze.{Frozen, SafeRow, is_frozen, is_open}
use albedo.Private.Freeze.Calls.{IsSafe, call_out_keeps, IsSafe-issue, IsSafe-release}
use albedo.Private.Freeze.Done.{issued_only, release-IsShut}
use albedo.Chain.Guard.{opened}

-- An UPDATE keeps the invariant, if it keeps the rows it is about.
pub update-Frozen :
    (p : Registration → Bool) (f : Registration → Registration) (rows : List Registration)
    (w : World)
    → IsKeyed (λ r. r.id) rows
    → IsKeyed (λ r. r.registration_id) rows
    → ((r : Registration) → ((f r).id ≡ r.id) × ((f r).registration_id ≡ r.registration_id))
    → ((r : Registration) → In r rows → p r ≡ true → SafeRow w r → SafeRow w (f r))
    → IsSafe rows w
    → Frozen (record w { registrations = update p f w.registrations })
update-Frozen p f rows w ids rids same keep (here, safe) = rw here (
  update-IsKeyed (λ r. r.id) p f rows (λ r. (same r).0) ids,
  update-IsKeyed (λ r. r.registration_id) p f rows (λ r. (same r).1) rids,
  All-update-In (SafeRow w) p f rows keep safe,
)

-- An UPDATE that leaves its rows in a state that is not frozen, or as frozen as they were.
pub thaw-Frozen :
    (p : Registration → Bool) (f : Registration → Registration) (w : World)
    → ((r : Registration) → ((f r).id ≡ r.id) × ((f r).registration_id ≡ r.registration_id))
    → ((r : Registration) → p r ≡ true → SafeRow w r → SafeRow w (f r))
    → Frozen w
    → Frozen (record w { registrations = update p f w.registrations })
thaw-Frozen p f w same keep (ids, rids, safe) =
    update-Frozen p f w.registrations w ids rids same (λ r m. keep r) (refl, safe)

-- Nothing of the step's end changes a frozen row, or the row is shut already.
touch-Frozen : (a : Answers) (id : ℕ) (w : World) → Frozen w → Frozen (update_row id (touch a) w)
unfolding touch is_frozen is_open update_row
touch-Frozen a id w = thaw-Frozen (λ r. r.id == id) (touch a) w (λ r. (refl, refl)) (λ r hit h. h)

module _ (a : Answers) (w : World) (h : Frozen w) where
  -- A step that has raised leaves its calls behind, and no row changed.
  pub stored-Frozen :
      (id : ℕ) (f : Registration → Registration) (s : World × Bool)
      → ((r : Registration) → ((f r).id ≡ r.id) × ((f r).registration_id ≡ r.registration_id))
      → (s.1 ≡ true
          → (r : Registration) → In r w.registrations
          → r.id ≡ id
          → SafeRow s.0 r
          → SafeRow s.0 (f r))
      → IsSafe w.registrations s.0
      → Frozen (store id f s).0
  unfolding store update_row
  stored-Frozen id f (v, true) same keep safe =
      update-Frozen (λ r. r.id == id) f w.registrations v h.0 h.1 same
        (λ r m hit. keep refl r m ((==_iff r.id id).0 hit)) safe
  stored-Frozen id f (v, false) same keep safe = rw safe.0 (h.0, h.1, safe.1)

  module _ (r : Registration) (here : In r w.registrations) where
    mine : (s : Registration) → In s w.registrations → s.id ≡ r.id → s ≡ r
    mine s m e = keyed_unique (λ x. x.id) w.registrations h.0 m here e

    -- A token or an envelope of a row that is neither frozen nor open is of no row that is.
    not_closed :
        is_frozen r ≡ false
        → is_open r ≡ false
        → (s : Registration) → In s w.registrations
        → str_eq r.registration_id s.registration_id ≡ true
        → (is_frozen s ≡ false) × (is_open s ≡ false)
    not_closed thawed shut s m e =
        let same : r ≡ s =
          keyed_unique (λ x. x.registration_id) w.registrations h.1 here m
            ((str_eq_iff r.registration_id s.registration_id).0 e) in
        rw (← same) (thawed, shut)

    safe : SafeRow w r
    safe = All-In (SafeRow w) w.registrations h.2 here

    credential-Frozen :
        (o : Option (List ℕ))
        → ((t : Token) → a.on_page t ≡ true)
        → is_frozen r ≡ false
        → is_open r ≡ false
        → Frozen (credential_under a r o w).0
    unfolding credential_under set_credentialed is_frozen is_open
    credential-Frozen none full thawed shut = h
    credential-Frozen (some prefix) full thawed shut =
        stored-Frozen r.id (set_credentialed a prefix) (issue a r w) (λ s. (refl, refl))
          (λ good s m e k.
            ((λ on. absurd (cc on)), (λ on. rw (mine s m e) (issued_only a r w full good))))
          (IsSafe-issue w.registrations a r w (not_closed thawed shut) (refl, h.2))

    revoke-Frozen : is_open r ≡ true → Frozen (revoke a r w).0
    unfolding revoke set_revoked is_frozen is_open
    revoke-Frozen opened =
        stored-Frozen r.id (set_revoked a) (release a r w) (λ s. (refl, refl))
          (λ good s m e k. (
            (λ on. rw (mine s m e) (release-IsShut a r w (safe.1 opened) good)),
            (λ on. absurd (cc on)),
          ))
          (IsSafe-release w.registrations a r w (refl, h.2))

    submit-Frozen :
        (digest : String) (o : Option (Option ℕ))
        → is_frozen r ≡ true
        → Frozen (submit_under a r digest o w).0
    unfolding submit_under set_submitted is_frozen is_open
    submit-Frozen digest none frozen = h
    submit-Frozen digest (some submission) frozen =
        stored-Frozen r.id (set_submitted a digest submission) (w, true) (λ s. (refl, refl))
          (λ good s m e k.
            ((λ on. k.0 (ap is_frozen (mine s m e) ∙ frozen)), (λ on. absurd (cc on))))
          (refl, h.2)

    settle-Frozen : (v : Verification) → is_frozen r ≡ true → Frozen (settle a r v w).0
    unfolding settle set_failed is_frozen is_open
    settle-Frozen unverified frozen = h
    settle-Frozen (broken fault) frozen =
        stored-Frozen r.id (set_failed a fault) (call_out a.aborting (λ v. v) (w, true))
          (λ s. (refl, refl)) (λ good s m e k. ((λ on. absurd (cc on)), (λ on. absurd (cc on))))
          (call_out_keeps (IsSafe w.registrations) a.aborting (λ v. v) (w, true) (λ v k. k)
            (refl, h.2))
    settle-Frozen (verified digest) frozen = submit-Frozen digest (a.insert_commit r digest) frozen

    verify-Frozen : (o : Option (List ℕ)) → is_frozen r ≡ true → Frozen (verify_under a r o w).0
    unfolding verify_under
    verify-Frozen none frozen = h
    verify-Frozen (some _) frozen = settle-Frozen a.verification frozen

    dispatch-Frozen :
        (state : RegistrationState)
        → r.state ≡ state
        → is_pending a r ≡ true
        → ((t : Token) → a.on_page t ≡ true)
        → Frozen (dispatch a r state w).0
    unfolding dispatch is_pending credential verify is_frozen is_open
    dispatch-Frozen RegistrationState.activated e pending full =
        credential-Frozen _ full (ground (arith, e)) (ground (arith, e))
    dispatch-Frozen RegistrationState.ready e pending full = revoke-Frozen (ground (arith, e))
    dispatch-Frozen RegistrationState.revoked e pending full =
        verify-Frozen (prefix_of r) (ground (arith, e))
    dispatch-Frozen RegistrationState.credentialed e pending full = ground (arith, e, pending)
    dispatch-Frozen RegistrationState.submitted e pending full = ground (arith, e, pending)
    dispatch-Frozen RegistrationState.failed e pending full = ground (arith, e, pending)
    dispatch-Frozen RegistrationState.reaped e pending full = ground (arith, e, pending)

  retry-Frozen : (id : ℕ) (s : World × Bool) → Frozen s.0 → Frozen (retry_later a id s)
  unfolding retry_later
  retry-Frozen id (v, true) k = k
  retry-Frozen id (v, false) k = touch-Frozen a id v k

  tick_on-Frozen :
      (o : Option Registration)
      → next_row a w ≡ o
      → ((t : Token) → a.on_page t ≡ true)
      → Frozen (tick_on a o w).0
  unfolding tick_on next_row
  tick_on-Frozen none e full = h
  tick_on-Frozen (some r) e full =
      let (here, pending) =
        In-select (is_pending a) w.registrations
          (first_by-In _ (select (is_pending a) w.registrations) e) in
      retry-Frozen r.id _ (dispatch-Frozen r here r.state refl pending full)

  -- `tick` keeps the invariant, if the page had all tokens.
  pub tick-Frozen : ((t : Token) → a.on_page t ≡ true) → Frozen (tick a w).0
  unfolding tick
  tick-Frozen = tick_on-Frozen (next_row a w) refl
