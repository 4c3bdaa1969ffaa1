-- ===== src/Private.antt =====
-- The private model store (src/private_store/): the rows of `private_registrations`, and what its
-- controller and the chain reader's intake share. A UUID, a token and a timestamp are numbers.
pub mod Intake
pub mod Contracts
pub mod Controller
pub mod Sweep
pub mod Freeze
pub mod Steps
pub mod Rows
pub mod Attempts
pub mod Again
pub mod Reaping
pub mod Tests
use albedo.Prelude.{
  ◌==◌, select, update, ℕ, String, Bool, true, false, not, Option, List, ◌∷◌, str_eq,
}

-- private_registrations.state
pub data RegistrationState : Type 0 where
  activated credentialed ready revoked submitted failed reaped : RegistrationState

pub record Registration : Type 0 where
  pub id : ℕ
  pub netuid : ℕ
  pub uid : ℕ
  pub hotkey : String
  pub coldkey : Option String
  pub registration_id : String
  pub state : RegistrationState
  pub activation_block : ℕ
  pub submission_pubkey : String
  pub ready_block : Option ℕ
  pub ready_block_hash : Option String
  pub manifest_sha256 : Option String
  pub model_digest : Option String
  pub parent_token_id : Option ℕ
  pub credential_expires_at : Option ℕ
  pub fault_message : Option String
  pub attempt_count : ℕ
  pub extra_attempts : ℕ
  pub model_prefix : Option (List ℕ)
  pub submission_id : Option ℕ
  pub updated_at : ℕ

-- What is published under `mailbox_object_key(rid, 1)`: credentials sealed for a parent token.
pub record Envelope : Type 0 where
  pub registration_id : String
  pub token : ℕ

-- A token of the Cloudflare account, named after the registration it was made for.
pub record Token : Type 0 where
  pub id : ℕ
  pub registration_id : String

-- The table, with what the controller has done outside of the database: the parent tokens that are not
-- revoked, and the envelopes of the mailbox.
pub record World : Type 0 where
  pub registrations : List Registration
  pub live_tokens : List Token
  pub mailbox : List Envelope

-- UPDATE private_registrations ... WHERE id
unfoldable pub update_row : ℕ → (Registration → Registration) → World → World
update_row id f w = record w { registrations = update (λ r. r.id == id) f w.registrations }

-- The DELETE of revoke_parent_token: a token that is not there (404) counts as revoked.
unfoldable pub revoke_token : ℕ → World → World
revoke_token token w = record w { live_tokens = select (λ t. not (t.id == token)) w.live_tokens }

-- The POST of create_parent_token.
unfoldable pub create_token : Token → World → World
create_token t w = record w { live_tokens = t ∷ w.live_tokens }

-- mailbox.delete([mailbox_object_key(rid, 1)])
unfoldable pub clear_mailbox : String → World → World
clear_mailbox rid w = record w {
  mailbox = select (λ e. not (str_eq e.registration_id rid)) w.mailbox;
}

-- mailbox.publish(mailbox_object_key(rid, 1), ciphertext)
unfoldable pub publish : Envelope → World → World
publish e w = record w { mailbox = e ∷ w.mailbox }

-- A call of a service: it returns, or it raises without an effect, or it raises after its effect (the
-- answer was lost).
pub data Outcome : Type 0 where
  returned refused lost : Outcome

-- A call with its effect, in a step that has not raised so far.
unfoldable pub call_out : Outcome → (World → World) → World × Bool → World × Bool
call_out o f (w, false) = (w, false)
call_out returned f (w, true) = (f w, true)
call_out refused f (w, true) = (w, false)
call_out lost f (w, true) = (f w, false)
