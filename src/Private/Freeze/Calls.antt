-- ===== src/Private/Freeze/Calls.antt =====
-- The calls of a step keep the rows safe, whatever the services answer; and what the calls of a step
-- that did not raise have done.
use albedo.Prelude.{
  All, All-map, In, All-In, All-of_In, ℕ, String, ◌≡◌, refl, Bool, true, false, Option, none, some,
  List, [], ◌∷◌, str_eq,
}
use albedo.Private.{
  Envelope, Outcome, Registration, Token, World, call_out, clear_mailbox, create_token, lost,
  publish, refused, returned, revoke_token,
}
use albedo.Private.Freeze.{
  SafeRow, is_frozen, is_open, SafeRow-clear_mailbox, SafeRow-create_token, SafeRow-publish,
  SafeRow-revoke_token,
}
use albedo.Private.Controller.{
  Answers, compute, create_parent_token, existing_token_ids, issue, release, revoke_all,
  revoke_parent,
}

module _ (P : World → Type 0) where
  pub call_out_keeps :
      (o : Outcome) (f : World → World) (s : World × Bool)
      → ((w : World) → P w → P (f w))
      → P s.0
      → P (call_out o f s).0
  unfolding call_out
  call_out_keeps o f (w, false) keep h = h
  call_out_keeps returned f (w, true) keep h = keep w h
  call_out_keeps refused f (w, true) keep h = h
  call_out_keeps lost f (w, true) keep h = keep w h

  pub compute_keeps : (b : Bool) (s : World × Bool) → P s.0 → P (compute b s).0
  unfolding compute
  compute_keeps b (w, good) h = h

-- What the calls of `_credential` and of a release keep, if each of their effects keeps it.
pub record Held (P : World → Type 0) (a : Answers) (rid : String) : Type 0 where
  pub revoked : (token : ℕ) (w : World) → P w → P (revoke_token token w)
  pub cleared : (w : World) → P w → P (clear_mailbox rid w)

module _ (P : World → Type 0) (a : Answers) (r : Registration)
    (held : Held P a r.registration_id) where
  revoke_parent_keeps :
      (parent : Option ℕ) (s : World × Bool) → P s.0 → P (revoke_parent a parent s).0
  unfolding revoke_parent
  revoke_parent_keeps none s h = h
  revoke_parent_keeps (some token) s h =
      call_out_keeps P (a.revoking token) (revoke_token token) s (held.revoked token) h

  revoke_all_keeps : (tokens : List ℕ) (s : World × Bool) → P s.0 → P (revoke_all a tokens s).0
  unfolding revoke_all
  revoke_all_keeps [] s h = h
  revoke_all_keeps (token ∷ tokens) s h =
      revoke_all_keeps tokens (call_out (a.revoking token) (revoke_token token) s)
        (call_out_keeps P (a.revoking token) (revoke_token token) s (held.revoked token) h)

  pub release_keeps : (w : World) → P w → P (release a r w).0
  unfolding release
  release_keeps w h =
      call_out_keeps P a.deleting (clear_mailbox r.registration_id)
        (revoke_parent a r.parent_token_id (w, true)) held.cleared
        (revoke_parent_keeps r.parent_token_id (w, true) h)

  pub issue_keeps :
      ((w : World)
        → P w
        → P (create_token (record { id = a.token; registration_id = r.registration_id }) w))
      → ((w : World)
          → P w
          → P (publish (record { registration_id = r.registration_id; token = a.token }) w))
      → (w : World) → P w
      → P (issue a r w).0
  unfolding issue create_parent_token
  issue_keeps created published w h =
      let rid = r.registration_id in
      let token : Token = record { id = a.token; registration_id = rid } in
      let envelope : Envelope = record { registration_id = rid; token = a.token } in
      let s1 = revoke_parent a r.parent_token_id (w, true) in
      let h1 : P s1.0 = revoke_parent_keeps r.parent_token_id (w, true) h in
      let s2 = compute a.is_listed s1 in
      let s3 = revoke_all a (existing_token_ids a rid s1.0) s2 in
      let h3 : P s3.0 =
        revoke_all_keeps (existing_token_ids a rid s1.0) s2 (compute_keeps P a.is_listed s1 h1) in
      let s4 = call_out a.creating (create_token token) s3 in
      let h4 : P s4.0 = call_out_keeps P a.creating (create_token token) s3 created h3 in
      let s5 = compute a.is_sealed s4 in
      let s6 = call_out a.deleting (clear_mailbox rid) s5 in
      let h6 : P s6.0 =
        call_out_keeps P a.deleting (clear_mailbox rid) s5 held.cleared
          (compute_keeps P a.is_sealed s4 h4) in
      call_out_keeps P a.publishing (publish envelope) s6 published h6

-- The calls do not touch the table.
abbrev pub HasRows : List Registration → World → Type 0
HasRows rows w = w.registrations ≡ rows

rows-Held : (rows : List Registration) (a : Answers) (rid : String) → Held (HasRows rows) a rid
unfolding revoke_token clear_mailbox
rows-Held rows a rid = record { revoked = λ token w h. h; cleared = λ w h. h }

pub release_rows :
    (a : Answers) (r : Registration) (w : World) → (release a r w).0.registrations ≡ w.registrations
release_rows a r w =
    release_keeps (HasRows w.registrations) a r (rows-Held w.registrations a r.registration_id) w
      refl

pub issue_rows :
    (a : Answers) (r : Registration) (w : World) → (issue a r w).0.registrations ≡ w.registrations
unfolding create_token publish
issue_rows a r w =
    issue_keeps (HasRows w.registrations) a r (rows-Held w.registrations a r.registration_id)
      (λ v h. h) (λ v h. h) w refl

-- The rows are `rows`, and safe.
abbrev pub IsSafe : List Registration → World → Type 0
IsSafe rows w = (w.registrations ≡ rows) × All (SafeRow w) rows

module _ (rows : List Registration) where
  IsSafe-Held : (a : Answers) (rid : String) → Held (IsSafe rows) a rid
  unfolding revoke_token clear_mailbox
  IsSafe-Held a rid = record {
    revoked = λ token w h.
        (h.0, All-map {Q = SafeRow (revoke_token token w)} (SafeRow-revoke_token token w) rows h.1);
    cleared = λ w h.
        (h.0, All-map {Q = SafeRow (clear_mailbox rid w)} (SafeRow-clear_mailbox rid w) rows h.1);
  }

  pub IsSafe-release :
      (a : Answers) (r : Registration) (w : World) → IsSafe rows w → IsSafe rows (release a r w).0
  IsSafe-release a r w h = release_keeps (IsSafe rows) a r (IsSafe-Held a r.registration_id) w h

  pub IsSafe-issue :
      (a : Answers) (r : Registration) (w : World)
      → ((s : Registration)
          → In s rows
          → str_eq r.registration_id s.registration_id ≡ true
          → (is_frozen s ≡ false) × (is_open s ≡ false))
      → IsSafe rows w
      → IsSafe rows (issue a r w).0
  unfolding create_token publish
  IsSafe-issue a r w other h =
      issue_keeps (IsSafe rows) a r (IsSafe-Held a r.registration_id)
        (λ v k. (
          k.0,
          All-of_In (SafeRow (create_token _ v)) rows
              λ s m. SafeRow-create_token _ v s (other s m) (All-In (SafeRow v) rows k.1 m),
        ))
        (λ v k. (
          k.0,
          All-of_In (SafeRow (publish _ v)) rows
              λ s m. SafeRow-publish _ v s (other s m) (All-In (SafeRow v) rows k.1 m),
        ))
        w h
