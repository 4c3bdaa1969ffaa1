-- ===== src/Private/Intake.antt =====
-- `_apply_activate` and `_apply_ready` (src/private_store/intake.py).
use albedo.Prelude.{
  ltb, if◌then◌else◌, update, any, count, ℕ, ◌+◌, String, Bool, true, false, ◌&&◌, not, Option,
  none, some, List, [], ◌∷◌, ◌++◌, str_eq,
}
use albedo.Private.{Registration, RegistrationState, World}

pub data SignalKind : Type 0 where
  activate_signal ready_signal : SignalKind

-- A signal that the chain reader found in a revealed commitment.
pub record PrivateSignal : Type 0 where
  pub kind : SignalKind
  pub payload : String
  pub netuid : ℕ
  pub uid : Option ℕ
  pub hotkey : String
  pub coldkey : Option String
  pub block_number : ℕ
  pub block_hash : String

-- What a call is given: the settings, the clock, the id that the table draws, and the functions of
-- contracts.py, over re, base64 and hashlib, which raise for a malformed payload or hotkey.
pub record IntakeCall : Type 0 where
  pub now : ℕ
  pub max_attempts : ℕ
  pub chain_generation : String
  pub row_id : ℕ
  pub parse_activation_pubkey : String → Option String
  pub parse_ready_signal : String → Option String
  pub derive_id : ℕ → String → String → Option String
  -- guard.is_used: the hotkey stands in used_hotkeys
  pub is_used : String → Bool

-- The row of the INSERT, with the defaults of the schema.
unfoldable pub new_registration : IntakeCall → PrivateSignal → ℕ → String → String → Registration
new_registration call signal uid rid pubkey = record {
  id = call.row_id;
  netuid = signal.netuid;
  uid = uid;
  hotkey = signal.hotkey;
  coldkey = signal.coldkey;
  registration_id = rid;
  state = RegistrationState.activated;
  activation_block = signal.block_number;
  submission_pubkey = pubkey;
  ready_block = none;
  ready_block_hash = none;
  manifest_sha256 = none;
  model_digest = none;
  parent_token_id = none;
  credential_expires_at = none;
  fault_message = none;
  attempt_count = 1;
  extra_attempts = 0;
  model_prefix = none;
  submission_id = none;
  updated_at = call.now;
}

-- The state and the key, in the WHERE of the UPDATE.
unfoldable pub may_rekey : String → Registration → Bool
may_rekey pubkey r = elim r.state [
  | RegistrationState.activated ↦ not (str_eq r.submission_pubkey pubkey)
  | RegistrationState.credentialed ↦ not (str_eq r.submission_pubkey pubkey)
  | RegistrationState.submitted ↦ elim r.submission_id [ none ↦ true | some _ ↦ false ]
  | RegistrationState.failed ↦ true
  | _ ↦ false
]

-- The WHERE of the UPDATE.
unfoldable pub is_rekeyed : IntakeCall → PrivateSignal → String → String → Registration → Bool
unfolding may_rekey
is_rekeyed call signal rid pubkey r =
    str_eq r.registration_id rid
    && may_rekey pubkey r
    && ltb r.activation_block signal.block_number
    && ltb r.attempt_count (call.max_attempts + r.extra_attempts)

-- COALESCE
unfoldable pub coalesce : Option String → Option String → Option String
coalesce none other = other
coalesce (some s) other = some s

-- The SET of the UPDATE.
unfoldable pub rekey : IntakeCall → PrivateSignal → String → Registration → Registration
unfolding coalesce
rekey call signal pubkey r = record r {
  submission_pubkey = pubkey;
  attempt_count = r.attempt_count + 1;
  state = RegistrationState.activated;
  activation_block = signal.block_number;
  credential_expires_at = none;
  model_prefix = none;
  coldkey = coalesce signal.coldkey r.coldkey;
  updated_at = call.now;
}

-- The writes of `_apply_activate`, once the payload is parsed.
unfoldable pub activate : IntakeCall → PrivateSignal → ℕ → String → String → World → World × Bool
unfolding new_registration is_rekeyed rekey
activate call signal uid rid pubkey w =
    if call.is_used signal.hotkey
    then (w, false)
    else if not (any (λ r. str_eq r.registration_id rid) w.registrations)
    then (
      record w {
        registrations = w.registrations ++ new_registration call signal uid rid pubkey ∷ [];
      },
      true,
    )
    else (
      record w {
        registrations =
            update (is_rekeyed call signal rid pubkey) (rekey call signal pubkey) w.registrations;
      },
      any (is_rekeyed call signal rid pubkey) w.registrations,
    )

-- Its parameters: the uid of the signal, the key in its payload, and its registration. The answer is
-- none where a parse raises, and otherwise says whether the signal was applied.
unfoldable pub activate_parsed :
    IntakeCall
    → PrivateSignal
    → Option ℕ
    → Option String
    → Option String
    → World
    → World × Option Bool
unfolding activate
activate_parsed call signal none pubkey rid w = (w, some false)
activate_parsed call signal (some uid) none rid w = (w, none)
activate_parsed call signal (some uid) (some pubkey) none w = (w, none)
activate_parsed call signal (some uid) (some pubkey) (some rid) w =
    let (w', applied) = activate call signal uid rid pubkey w in (w', some applied)

-- `_apply_activate`
unfoldable pub apply_activate : IntakeCall → PrivateSignal → World → World × Option Bool
unfolding activate_parsed
apply_activate call signal w =
    activate_parsed call signal signal.uid (call.parse_activation_pubkey signal.payload)
      (call.derive_id signal.netuid signal.hotkey call.chain_generation) w

unfoldable pub is_readied : PrivateSignal → String → Registration → Bool
is_readied signal rid r =
    str_eq r.registration_id rid
    && (elim r.state [ RegistrationState.credentialed ↦ true | _ ↦ false ])
    && ltb r.activation_block signal.block_number

unfoldable pub make_ready : IntakeCall → PrivateSignal → String → Registration → Registration
make_ready call signal manifest r = record r {
  state = RegistrationState.ready;
  manifest_sha256 = some manifest;
  ready_block = some signal.block_number;
  ready_block_hash = some signal.block_hash;
  updated_at = call.now;
}

unfoldable pub ready_parsed :
    IntakeCall → PrivateSignal → Option String → Option String → World → World × Option Bool
unfolding is_readied make_ready
ready_parsed call signal none rid w = (w, none)
ready_parsed call signal (some manifest) none w = (w, none)
ready_parsed call signal (some manifest) (some rid) w = (
  record w {
    registrations =
        update (is_readied signal rid) (make_ready call signal manifest) w.registrations;
  },
  some (any (is_readied signal rid) w.registrations),
)

-- `_apply_ready`
unfoldable pub apply_ready : IntakeCall → PrivateSignal → World → World × Option Bool
unfolding ready_parsed
apply_ready call signal w =
    ready_parsed call signal (call.parse_ready_signal signal.payload)
      (call.derive_id signal.netuid signal.hotkey call.chain_generation) w

unfoldable pub handle_signal : IntakeCall → PrivateSignal → World → World × Option Bool
unfolding apply_activate apply_ready
handle_signal call signal w = elim signal.kind [
  | activate_signal ↦ apply_activate call signal w
  | ready_signal ↦ apply_ready call signal w
]

-- `handle_signals`, with the call of each signal: a signal that raises counts as not applied.
unfoldable pub handle_signals : List (IntakeCall × PrivateSignal) → World → World × ℕ
unfolding handle_signal
handle_signals [] w = (w, 0)
handle_signals ((call, signal) ∷ signals) w =
    let (w', applied) = handle_signal call signal w in
    let (w'', count) = handle_signals signals w' in
    (w'', (elim applied [ some true ↦ 1 | _ ↦ 0 ]) + count)
