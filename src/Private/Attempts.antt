-- ===== src/Private/Attempts.antt =====
-- What the rows of the private store always satisfy: the bound on the attempts, and the columns that
-- each state needs.
use albedo.Prelude.{
  IsKeyed, All, ℕ, ◌+◌, ◌≤◌, ◌<◌, String, ◌≡◌, refl, Bool, true, false, Option, none, some, arith,
}
use albedo.Private.{Registration, RegistrationState, World}
use albedo.Private.Sweep.{reset_for_retry}
use albedo.Private.Intake.{
  is_readied, is_rekeyed, make_ready, new_registration, rekey, PrivateSignal,
}
use albedo.Private.Controller.{set_credentialed, set_failed, set_revoked, set_submitted, touch}
use albedo.Private.Contracts.{codes, model_prefix}
use albedo.Private.Steps.{Steps}
use albedo.Private.Rows.{Kept}
use albedo.Private.Rows.Always.{Steps-rows}
use albedo.Private.Again.{later}

abbrev pub IsWithin : ℕ → Registration → Type 0
IsWithin max_attempts r =
    (0 < r.attempt_count) × (r.attempt_count ≤ max_attempts + r.extra_attempts)

attempts-Kept : (max_attempts : ℕ) → 0 < max_attempts → Kept max_attempts (IsWithin max_attempts)
unfolding set_credentialed set_revoked set_failed set_submitted touch reset_for_retry rekey
    is_rekeyed new_registration make_ready
attempts-Kept max_attempts pos = record {
  credentialed_row = λ a prefix r e h. h;
  revoked_row = λ a r e h. h;
  failed_row = λ a fault r h. h;
  submitted_row = λ a digest submission r h. h;
  touched_row = λ a r h. h;
  reset_row = λ now newest_block r e h. h;
  rekeyed_row = λ call signal rid pubkey r same hit h. ground (arith, same, hit, h);
  new_row = λ call signal uid rid pubkey. omega arith;
  ready_row = λ call signal manifest rid r hit h. h;
}

-- If the primary keys are distinct, at least one attempt is allowed and no row has used more than its attempts, then after any steps
-- no row has: its attempt_count is at least 1 and at most max_attempts + extra_attempts.
pub attempts_bounded :
    (max_attempts : ℕ) {w w' : World}
    → 0 < max_attempts
    → IsKeyed (λ r. r.id) w.registrations
    → All (IsWithin max_attempts) w.registrations
    → Steps max_attempts w w'
    → All (IsWithin max_attempts) w'.registrations
attempts_bounded max_attempts pos keyed h steps =
    Steps-rows max_attempts (IsWithin max_attempts) (attempts-Kept max_attempts pos) steps keyed h

-- The states in which a row has credentials, or has had them for the upload that is frozen.
unfoldable pub has_credentials : Registration → Bool
has_credentials r = elim r.state [
  | RegistrationState.credentialed ↦ true
  | RegistrationState.ready ↦ true
  | RegistrationState.revoked ↦ true
  | _ ↦ false
]

unfoldable pub is_announced : Registration → Bool
is_announced r = elim r.state [
  | RegistrationState.ready ↦ true
  | RegistrationState.revoked ↦ true
  | _ ↦ false
]

unfoldable pub is_some : {A : Type 0} → Option A → Bool
is_some none = false
is_some (some a) = true

-- Such a row is about the prefix of its present attempt, and names the token of its credentials; once
-- the miner has announced the upload, the row has its manifest, signalled after the activation.
abbrev pub IsWhole : Registration → Type 0
IsWhole r =
    (has_credentials r ≡ true
      → (model_prefix (codes r.registration_id) r.attempt_count ≡ r.model_prefix)
        × (is_some r.model_prefix ≡ true)
        × (is_some r.parent_token_id ≡ true))
    × (is_announced r ≡ true
        → (is_some r.manifest_sha256 ≡ true)
          × ((block : ℕ) × (r.ready_block ≡ some block) × (r.activation_block < block)))

readied_row :
    (signal : PrivateSignal) (rid : String) (r : Registration)
    → is_readied signal rid r ≡ true
    → (has_credentials r ≡ true) × (r.activation_block < signal.block_number)
unfolding is_readied has_credentials
readied_row signal rid r hit = ground (arith, hit)

columns-Kept : (max_attempts : ℕ) → Kept max_attempts IsWhole
unfolding set_credentialed set_revoked set_failed set_submitted touch reset_for_retry rekey
    is_readied new_registration make_ready has_credentials is_announced is_some
columns-Kept max_attempts = record {
  credentialed_row = λ a prefix r e h. ((λ on. (e, refl, refl)), (λ on. absurd (cc on)));
  revoked_row = λ a r e h. ((λ _. h.0 (rw e refl)), (λ _. h.1 (rw e refl)));
  failed_row = λ a fault r h. ((λ on. absurd (cc on)), (λ on. absurd (cc on)));
  submitted_row = λ a digest submission r h. ((λ on. absurd (cc on)), (λ on. absurd (cc on)));
  touched_row = λ a r h. h;
  reset_row =
      λ now newest_block r e h. ((λ on. ground (arith, e, on)), (λ on. ground (arith, e, on)));
  rekeyed_row =
      λ call signal rid pubkey r same hit h. ((λ on. absurd (cc on)), (λ on. absurd (cc on)));
  new_row = λ call signal uid rid pubkey. ((λ on. absurd (cc on)), (λ on. absurd (cc on)));
  ready_row = λ call signal manifest rid r hit h.
      let (credentials, later) = readied_row signal rid r hit in
      ((λ _. h.0 credentials), (λ _. (refl, (signal.block_number, refl, later))));
}

-- After any steps from rows that are whole and have distinct primary keys, a row that is CREDENTIALED, READY or REVOKED is about the
-- prefix of its present attempt and names a parent token, and one that is READY or REVOKED has the
-- manifest of a signal in a block after its activation.
pub Steps-IsWhole :
    (max_attempts : ℕ) {w w' : World}
    → IsKeyed (λ r. r.id) w.registrations
    → All IsWhole w.registrations
    → Steps max_attempts w w'
    → All IsWhole w'.registrations
Steps-IsWhole max_attempts keyed h steps =
    Steps-rows max_attempts IsWhole (columns-Kept max_attempts) steps keyed h
