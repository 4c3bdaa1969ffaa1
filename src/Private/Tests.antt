-- ===== src/Private/Tests.antt =====
-- The private store on a small history: a registration is activated, its credentials are issued at the
-- second try, the miner announces the upload, and access is revoked.
use albedo.Prelude.{
  length, All, select, update, any, pick, first_by, sort_by, ℕ, String, ◌≡◌, refl, ◌≢◌, inl, Bool,
  true, false, Option, none, some, List, [], ◌∷◌, arith,
}
use albedo.Private.{
  Outcome, Registration, World, call_out, clear_mailbox, create_token, lost, publish, returned,
  revoke_token, update_row,
}
use albedo.Private.Attempts.{IsWhole, IsWithin, attempts_bounded, Steps-IsWhole}
use albedo.Private.Sweep.{Outcomes, Upload, reap_expired, terminal_invalid}
use albedo.Private.Again.{later, signal_once}
use albedo.Private.Intake.{
  IntakeCall, PrivateSignal, SignalKind, activate, activate_parsed, activate_signal, apply_activate,
  apply_ready, handle_signal, is_readied, is_rekeyed, make_ready, may_rekey, new_registration,
  ready_parsed, ready_signal, rekey,
}
use albedo.Private.Controller.{
  Answers, compute, create_parent_token, credential, credential_under, dispatch, existing_token_ids,
  is_pending, issue, next_row, release, retry_later, revoke, revoke_all, revoke_parent,
  set_credentialed, set_revoked, store, tick, tick_on, touch, verified, verify,
}
use albedo.Private.Contracts.{codes, decimal, is_hash, model_prefix, parse_model_prefix}
use albedo.Private.Freeze.{IsShut, is_frozen, is_only, is_sealed_off}
use albedo.Private.Steps.{Steps, activated_by, readied_by, step, stop, ticked}
use albedo.Private.Reaping.{IsExpired, reap_expired-IsExpired}
use albedo.Private.Contracts.RoundTrip.{model_prefix-apart, model_prefix-parse, parse-model_prefix}
use albedo.Private.Freeze.Always.{Steps-IsShut, AllListed, ListsAll}

abbrev rid : String
rid = "0123456789abcdef0123456789abcdef0123456789abcdef0123456789abcdef"

abbrev answers : ℕ → Outcome → Answers
answers now publishing = record {
  now = now;
  is_locked = λ _. false;
  revoking = λ _. returned;
  is_listed = true;
  on_page = λ _. true;
  creating = returned;
  token = now;
  is_sealed = true;
  expires_at = 100;
  deleting = returned;
  publishing = publishing;
  verification = verified "digest";
  aborting = returned;
  insert_commit = λ _ _. some (some 9);
}

abbrev intake : ℕ → IntakeCall
intake now = record {
  now = now;
  max_attempts = 2;
  chain_generation = "g";
  row_id = now;
  parse_activation_pubkey = λ _. some "key";
  parse_ready_signal = λ _. some "manifest";
  derive_id = λ _ _ _. some rid;
  is_used = λ _. false;
}

abbrev signal : SignalKind → ℕ → PrivateSignal
signal kind block = record {
  kind = kind;
  payload = "payload";
  netuid = 97;
  uid = some 3;
  hotkey = "hotkey";
  coldkey = none;
  block_number = block;
  block_hash = "hash";
}

abbrev empty : World
empty = record { registrations = []; live_tokens = []; mailbox = [] }

abbrev activated_world : World
activated_world = (apply_activate (intake 1) (signal activate_signal 50) empty).0

-- The answer of the mailbox is lost: the envelope is there, and the row stays ACTIVATED.
abbrev retried_world : World
retried_world = (tick (answers 2 lost) activated_world).0

abbrev open_world : World
open_world = (tick (answers 3 returned) retried_world).0

abbrev ready_world : World
ready_world = (apply_ready (intake 4) (signal ready_signal 60) open_world).0

abbrev revoked_world : World
revoked_world = (tick (answers 5 returned) ready_world).0

abbrev history : Steps 2 empty revoked_world
history =
    step
      (step
        (step
          (step (step stop (activated_by (intake 1) (signal activate_signal 50) refl tt))
            (ticked (answers 2 lost)))
          (ticked (answers 3 returned)))
        (readied_by (intake 4) (signal ready_signal 60)))
      (ticked (answers 5 returned))

unfoldable private_program : Unit {0}
unfolding apply_activate activate_parsed activate new_registration is_rekeyed may_rekey rekey
    apply_ready ready_parsed is_readied make_ready tick tick_on next_row is_pending dispatch
    credential credential_under issue store set_credentialed revoke release set_revoked verify
    retry_later touch update_row call_out compute create_parent_token existing_token_ids revoke_all
    revoke_parent revoke_token create_token clear_mailbox publish model_prefix is_hash decimal
    first_by pick select update any is_frozen is_only is_sealed_off handle_signal
private_program = tt

the_row : World → Registration
the_row w = elim w.registrations [
  | [] ↦ new_registration (intake 0) (signal activate_signal 0) 0 "" ""
  | r ∷ _ ↦ r
]

lost_answer : length retried_world.mailbox ≡ 1
unfolding private_program
lost_answer = refl

reissued : (length open_world.live_tokens ≡ 1) × (length open_world.mailbox ≡ 1)
unfolding private_program
reissued = (refl, refl)

all_listed : AllListed history
unfolding AllListed ListsAll
all_listed = (((((tt, tt), (λ t. refl)), (λ t. refl)), tt), (λ t. refl))

Steps-IsShut_example : IsShut revoked_world (the_row revoked_world)
unfolding private_program the_row
Steps-IsShut_example =
    Steps-IsShut (tt, tt, tt) history all_listed (the_row revoked_world) (inl refl) refl

attempts_bounded_example : All (IsWithin 2) revoked_world.registrations
attempts_bounded_example = attempts_bounded 2 (omega arith) tt tt history

Steps-IsWhole_example : All IsWhole revoked_world.registrations
Steps-IsWhole_example = Steps-IsWhole 2 tt tt history

abbrev again : World × Option Bool
again =
    handle_signal (later 9 9 (λ _. true) (intake 1)) (signal activate_signal 50)
      (handle_signal (intake 1) (signal activate_signal 50) empty).0

signal_once_example :
    (again.0 ≡ (handle_signal (intake 1) (signal activate_signal 50) empty).0)
    × (again.1 ≢ some true)
signal_once_example =
    signal_once (intake 1) (signal activate_signal 50) 9 9 (λ _. true) (λ _. refl) empty

abbrev attempt_12 : List ℕ
attempt_12 =
    codes "models/attempts/0123456789abcdef0123456789abcdef0123456789abcdef0123456789abcdef/a12/"

parse-model_prefix_example : parse_model_prefix attempt_12 ≡ some (codes rid, 12)
unfolding private_program
parse-model_prefix_example = parse-model_prefix (codes rid) 12 refl

model_prefix-parse_example : model_prefix (codes rid) 12 ≡ some attempt_12
unfolding parse_model_prefix
model_prefix-parse_example = model_prefix-parse attempt_12 (codes rid) 12 refl

model_prefix-apart_example :
    (codes rid ≡ codes rid) × (◌≡◌ {A = ℕ} 12 12) × (◌≡◌ {A = List ℕ} [] [])
unfolding private_program
model_prefix-apart_example = model_prefix-apart (codes rid) (codes rid) 12 12 [] refl refl refl

leading_zero :
    parse_model_prefix (
      codes "models/attempts/0123456789abcdef0123456789abcdef0123456789abcdef0123456789abcdef/a02/")
    ≡ none
unfolding parse_model_prefix
leading_zero = refl

abbrev outcomes : Outcomes
outcomes = record {
  end = λ _. terminal_invalid;
  fault_code = λ _. "";
  is_sanity_blocked = λ _. false;
  preeval_fail_count = λ _. 0;
  max_strikes = 3;
}

abbrev orphan : Upload
orphan = record { prefix = codes "models/attempts/x/"; newest_at = 5 }

abbrev old_upload : Upload
old_upload = record { prefix = attempt_12; newest_at = 499 }

abbrev new_upload : Upload
new_upload = record { prefix = codes "models/registrations/y/"; newest_at = 500 }

reap_expired-IsExpired_example :
    All (IsExpired outcomes 600 100 revoked_world) (old_upload ∷ orphan ∷ [])
unfolding private_program reap_expired sort_by
reap_expired-IsExpired_example =
    reap_expired-IsExpired outcomes 600 100 revoked_world (λ _. true)
      (orphan ∷ old_upload ∷ new_upload ∷ []) refl
