-- ===== src/Private/Controller.antt =====
-- The steps of the access controller (src/private_store/controller.py): `_credential`, `_revoke`,
-- `_verify` and `tick`.
use albedo.Prelude.{
  ltb, select, first_by, ℕ, String, Bool, true, false, ◌&&◌, not, Option, none, some, List, [], ◌∷◌,
  map, str_eq,
}
use albedo.Private.{
  Outcome, Registration, RegistrationState, World, call_out, clear_mailbox, create_token, publish,
  revoke_token, update_row, Token,
}
use albedo.Private.Contracts.{codes, model_prefix}

-- What `verify_manifest` gives: it raises, it finds the upload broken, or it finds its digest.
pub data Verification : Type 0 where
  unverified : Verification
  broken : String → Verification
  verified : String → Verification

-- What the services answer in one step.
pub record Answers : Type 0 where
  pub now : ℕ
  -- the rows that another transaction has locked
  pub is_locked : Registration → Bool
  -- the DELETE of a token
  pub revoking : ℕ → Outcome
  -- create_parent_token: the GET of the tokens, and the POST with the token that it makes
  pub is_listed : Bool
  -- the GET is paginated, and only its first page is read: the tokens on it
  pub on_page : Token → Bool
  pub creating : Outcome
  pub token : ℕ
  -- create_local_temporary_credentials and create_ciphertext return
  pub is_sealed : Bool
  pub expires_at : ℕ
  pub deleting : Outcome
  pub publishing : Outcome
  pub verification : Verification
  pub aborting : Outcome
  -- insert_new_commits of the chain reader for the row's commit, and the submission it stands under
  pub insert_commit : Registration → String → Option (Option ℕ)

-- Code between two calls, which raises or not.
unfoldable pub compute : Bool → World × Bool → World × Bool
compute b (w, good) = (w, good && b)

-- `_existing_token_ids`
unfoldable pub existing_token_ids : Answers → String → World → List ℕ
existing_token_ids a rid w =
    map (λ t. t.id) (select (λ t. str_eq t.registration_id rid && a.on_page t) w.live_tokens)

unfoldable pub revoke_all : Answers → List ℕ → World × Bool → World × Bool
unfolding call_out revoke_token
revoke_all a [] s = s
revoke_all a (token ∷ tokens) s =
    revoke_all a tokens (call_out (a.revoking token) (revoke_token token) s)

-- create_parent_token(f"albedo-registration-{rid}"): it first revokes the tokens of that name that it
-- sees.
unfoldable pub create_parent_token : Answers → String → World × Bool → World × Bool
unfolding existing_token_ids revoke_all compute call_out create_token
create_parent_token a rid s =
    call_out a.creating (create_token (record { id = a.token; registration_id = rid }))
      (revoke_all a (existing_token_ids a rid s.0) (compute a.is_listed s))

-- `if row["parent_token_id"]: gateway.revoke_parent_token(...)`
unfoldable pub revoke_parent : Answers → Option ℕ → World × Bool → World × Bool
unfolding call_out revoke_token
revoke_parent a none w = w
revoke_parent a (some token) w = call_out (a.revoking token) (revoke_token token) w

-- The calls of `_revoke`, and the first calls of `_close_upload_window`.
unfoldable pub release : Answers → Registration → World → World × Bool
unfolding revoke_parent call_out clear_mailbox
release a r w =
    call_out a.deleting (clear_mailbox r.registration_id)
      (revoke_parent a r.parent_token_id (w, true))

-- The calls of `_credential`.
unfoldable pub issue : Answers → Registration → World → World × Bool
unfolding revoke_parent call_out create_parent_token compute clear_mailbox publish
issue a r w =
    call_out a.publishing
      (publish (record { registration_id = r.registration_id; token = a.token }))
      (call_out a.deleting (clear_mailbox r.registration_id) (
        compute a.is_sealed
          (create_parent_token a r.registration_id (revoke_parent a r.parent_token_id (w, true)))))

unfoldable pub set_credentialed : Answers → List ℕ → Registration → Registration
set_credentialed a prefix r = record r {
  state = RegistrationState.credentialed;
  parent_token_id = some a.token;
  credential_expires_at = some a.expires_at;
  model_prefix = some prefix;
  updated_at = a.now;
}

-- The UPDATE that ends a step, which is not reached where a call raised.
unfoldable pub store : ℕ → (Registration → Registration) → World × Bool → World × Bool
unfolding update_row
store id f (w, true) = (update_row id f w, true)
store id f (w, false) = (w, false)

-- `_credential` under the prefix of its attempt; false where it raises.
unfoldable pub credential_under : Answers → Registration → Option (List ℕ) → World → World × Bool
unfolding issue store set_credentialed
credential_under a r none w = (w, false)
credential_under a r (some prefix) w = store r.id (set_credentialed a prefix) (issue a r w)

-- `_credential`
unfoldable pub credential : Answers → Registration → World → World × Bool
unfolding model_prefix credential_under
credential a r w = credential_under a r (model_prefix (codes r.registration_id) r.attempt_count) w

unfoldable pub set_revoked : Answers → Registration → Registration
set_revoked a r = record r { state = RegistrationState.revoked; updated_at = a.now }

-- `_revoke`
unfoldable pub revoke : Answers → Registration → World → World × Bool
unfolding release store set_revoked
revoke a r w = store r.id (set_revoked a) (release a r w)

unfoldable pub set_failed : Answers → String → Registration → Registration
set_failed a fault r = record r {
  state = RegistrationState.failed;
  fault_message = some fault;
  updated_at = a.now;
}

unfoldable pub set_submitted : Answers → String → Option ℕ → Registration → Registration
set_submitted a digest submission r = record r {
  state = RegistrationState.submitted;
  model_digest = some digest;
  submission_id = submission;
  updated_at = a.now;
}

-- `_prefix_of`
unfoldable pub prefix_of : Registration → Option (List ℕ)
unfolding model_prefix
prefix_of r = elim r.model_prefix [
  | some (c ∷ prefix) ↦ some (c ∷ prefix)
  | _ ↦ model_prefix (codes r.registration_id) 1
]

-- `_verify` of a sound upload, under the answer of insert_new_commits.
unfoldable pub submit_under :
    Answers → Registration → String → Option (Option ℕ) → World → World × Bool
unfolding store set_submitted
submit_under a r digest none w = (w, false)
submit_under a r digest (some submission) w =
    store r.id (set_submitted a digest submission) (w, true)

-- `_verify`, once the prefix is there.
unfoldable pub settle : Answers → Registration → Verification → World → World × Bool
unfolding call_out store set_failed submit_under
settle a r unverified w = (w, false)
settle a r (broken fault) w =
    store r.id (set_failed a fault) (call_out a.aborting (λ v. v) (w, true))
settle a r (verified digest) w = submit_under a r digest (a.insert_commit r digest) w

unfoldable pub verify_under : Answers → Registration → Option (List ℕ) → World → World × Bool
unfolding settle
verify_under a r none w = (w, false)
verify_under a r (some _) w = settle a r a.verification w

-- `_verify`
unfoldable pub verify : Answers → Registration → World → World × Bool
unfolding prefix_of verify_under
verify a r w = verify_under a r (prefix_of r) w

-- The WHERE of the row that `tick` takes.
unfoldable pub is_pending : Answers → Registration → Bool
is_pending a r =
    (elim r.state [
      | RegistrationState.activated ↦ true
      | RegistrationState.ready ↦ true
      | RegistrationState.revoked ↦ true
      | _ ↦ false
    ])
    && not (a.is_locked r)

unfoldable pub dispatch : Answers → Registration → RegistrationState → World → World × Bool
unfolding credential revoke verify
dispatch a r RegistrationState.activated w = credential a r w
dispatch a r RegistrationState.ready w = revoke a r w
dispatch a r _ w = verify a r w

unfoldable pub touch : Answers → Registration → Registration
touch a r = record r { updated_at = a.now }

-- The handler of `tick`: the row of a step that raised goes to the end of the queue.
unfoldable pub retry_later : Answers → ℕ → World × Bool → World
unfolding update_row touch
retry_later a id (w, true) = w
retry_later a id (w, false) = update_row id (touch a) w

-- ORDER BY updated_at ASC LIMIT 1 FOR UPDATE SKIP LOCKED
unfoldable pub next_row : Answers → World → Option Registration
unfolding is_pending
next_row a w =
    first_by (λ r s. ltb r.updated_at s.updated_at) (select (is_pending a) w.registrations)

unfoldable pub tick_on : Answers → Option Registration → World → World × Bool
unfolding dispatch retry_later
tick_on a none w = (w, false)
tick_on a (some r) w = (retry_later a r.id (dispatch a r r.state w), true)

-- `tick`
unfoldable pub tick : Answers → World → World × Bool
unfolding next_row tick_on
tick a w = tick_on a (next_row a w) w
