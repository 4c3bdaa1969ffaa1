-- ===== src/Private/Again.antt =====
-- A signal that is scanned again changes nothing: RevealedCommitments gives every signal on every scan.
use albedo.Prelude.{
  Bool-cases, update_none, All, All-append, update, any, ℕ, String, ◌≡◌, refl, ◌∙◌, ◌≢◌, ◌⊎◌, inl,
  inr, Bool, true, false, Option, none, some, List, [], ◌∷◌, ◌++◌, arith, str_eq, str_eq_iff,
}
use albedo.Private.{Registration, World}
use albedo.Private.Intake.{
  IntakeCall, PrivateSignal, is_readied, is_rekeyed, make_ready, new_registration, rekey, activate,
  activate_parsed, ready_parsed, SignalKind, activate_signal, apply_activate, apply_ready,
  handle_signal, ready_signal,
}

update_once :
    (p : Registration → Bool) (f g : Registration → Registration) (rows : List Registration)
    → ((r : Registration) → p r ≡ true → p (f r) ≡ false)
    → update p g (update p f rows) ≡ update p f rows
unfolding update
update_once p f g [] over = refl
update_once p f g (r ∷ rows) over = elim (Bool-cases (p r)) [
  | inl hit ↦ rw (hit, over r hit, update_once p f g rows over) refl
  | inr miss ↦ rw (miss, miss, update_once p f g rows over) refl
]

any_over :
    (p : Registration → Bool) (f : Registration → Registration) (rows : List Registration)
    → ((r : Registration) → p r ≡ true → p (f r) ≡ false)
    → any p (update p f rows) ≡ false
unfolding update any
any_over p f [] over = refl
any_over p f (r ∷ rows) over = ground (arith, over r, any_over p f rows over)

any-update :
    (q p : Registration → Bool) (f : Registration → Registration) (rows : List Registration)
    → ((r : Registration) → q (f r) ≡ q r)
    → any q (update p f rows) ≡ any q rows
unfolding update any
any-update q p f [] same = refl
any-update q p f (r ∷ rows) same = ground (arith, same r, any-update q p f rows same)

any-append :
    (q : Registration → Bool) (rows : List Registration) (r : Registration)
    → q r ≡ true
    → any q (rows ++ r ∷ []) ≡ true
unfolding any
any-append q [] r h = ground (arith, h)
any-append q (s ∷ rows) r h = ground (arith, any-append q rows r h)

rekeyed_over :
    (call : IntakeCall) (signal : PrivateSignal) (rid pubkey : String) (r : Registration)
    → is_rekeyed call signal rid pubkey (rekey call signal pubkey r) ≡ false
unfolding is_rekeyed rekey
rekeyed_over call signal rid pubkey r = ground arith

readied_over :
    (call : IntakeCall) (signal : PrivateSignal) (rid manifest : String) (r : Registration)
    → is_readied signal rid (make_ready call signal manifest r) ≡ false
unfolding is_readied make_ready
readied_over call signal rid manifest r = ground arith

new_over :
    (call call' : IntakeCall) (signal : PrivateSignal) (uid : ℕ) (rid pubkey : String)
    → is_rekeyed call' signal rid pubkey (new_registration call signal uid rid pubkey) ≡ false
unfolding is_rekeyed new_registration
new_over call call' signal uid rid pubkey = ground arith

any_none :
    (p q : Registration → Bool) (rows : List Registration)
    → ((r : Registration) → p r ≡ true → q r ≡ true)
    → any q rows ≡ false
    → (any p rows ≡ false) × All (λ r. p r ≡ false) rows
unfolding any
any_none p q [] sub h = (refl, tt)
any_none p q (r ∷ rows) sub h = ground (arith, sub r, any_none p q rows sub)

any_one_more :
    (p : Registration → Bool) (rows : List Registration) (r : Registration)
    → any p rows ≡ false
    → p r ≡ false
    → any p (rows ++ r ∷ []) ≡ false
unfolding any
any_one_more p [] r h e = ground (arith, e)
any_one_more p (s ∷ rows) r h e = ground (arith, any_one_more p rows r)

rid_of_rekeyed :
    (call : IntakeCall) (signal : PrivateSignal) (rid pubkey : String) (r : Registration)
    → is_rekeyed call signal rid pubkey r ≡ true
    → str_eq r.registration_id rid ≡ true
unfolding is_rekeyed
rid_of_rekeyed call signal rid pubkey r h = ground (arith, h)

-- A later scan: another time, another row id, and the hotkeys that are used by then.
unfoldable pub later : ℕ → ℕ → (String → Bool) → IntakeCall → IntakeCall
later now row_id is_used call = record call { now = now; row_id = row_id; is_used = is_used }

-- What an activation finds when it was applied before.
IsApplied : IntakeCall → PrivateSignal → String → String → List Registration → Type 0
IsApplied call signal rid pubkey rows =
    (any (λ r. str_eq r.registration_id rid) rows ≡ true)
    × (any (is_rekeyed call signal rid pubkey) rows ≡ false)
    × (update (is_rekeyed call signal rid pubkey) (rekey call signal pubkey) rows ≡ rows)

IsApplied-rests :
    (call : IntakeCall) (signal : PrivateSignal) (uid : ℕ) (rid pubkey : String) (w : World)
    → (call.is_used signal.hotkey ≡ false → IsApplied call signal rid pubkey w.registrations)
    → activate call signal uid rid pubkey w ≡ (w, false)
unfolding activate IsApplied
IsApplied-rests call signal uid rid pubkey w h = elim (Bool-cases (call.is_used signal.hotkey)) [
  | inl used ↦ rw used refl
  | inr unused ↦ let (there, over, same) = h unused in rw (unused, there, over, same) refl
]

module _ (call : IntakeCall) (signal : PrivateSignal) (now row_id : ℕ) (is_used : String → Bool)
    (rid pubkey : String) (rows : List Registration) where
  rekeyed-IsApplied :
      any (λ r. str_eq r.registration_id rid) rows ≡ true
      → IsApplied
          (later now row_id is_used call)
          signal
          rid
          pubkey
          (update (is_rekeyed call signal rid pubkey) (rekey call signal pubkey) rows)
  unfolding IsApplied later rekey is_rekeyed
  rekeyed-IsApplied there = (
    any-update (λ r. str_eq r.registration_id rid) (is_rekeyed call signal rid pubkey)
          (rekey call signal pubkey) rows (λ r. refl)
        ∙ there,
    any_over (is_rekeyed call signal rid pubkey) (rekey call signal pubkey) rows
        (λ r hit. rekeyed_over call signal rid pubkey r),
    update_once (is_rekeyed call signal rid pubkey) (rekey call signal pubkey) _ rows
        (λ r hit. rekeyed_over call signal rid pubkey r),
  )

  inserted-IsApplied :
      (uid : ℕ)
      → any (λ r. str_eq r.registration_id rid) rows ≡ false
      → IsApplied
          (later now row_id is_used call)
          signal
          rid
          pubkey
          (rows ++ new_registration call signal uid rid pubkey ∷ [])
  unfolding IsApplied new_registration
  inserted-IsApplied uid new =
      let call' = later now row_id is_used call in
      let row = new_registration call signal uid rid pubkey in
      let p = is_rekeyed call' signal rid pubkey in
      let (none_hit, no_row) =
        any_none p (λ r. str_eq r.registration_id rid) rows (rid_of_rekeyed call' signal rid pubkey)
          new in
      let over : p row ≡ false = new_over call call' signal uid rid pubkey in
      (
        any-append (λ r. str_eq r.registration_id rid) rows row ((str_eq_iff rid rid).1 refl),
        any_one_more p rows row none_hit over,
        update_none p (rekey call' signal pubkey) (rows ++ row ∷ [])
            (All-append (λ r. p r ≡ false) rows (row ∷ []) no_row (over, tt)),
      )

kind_cases : (k : SignalKind) → (k ≡ activate_signal) ⊎ (k ≡ ready_signal)
kind_cases activate_signal = inl refl
kind_cases ready_signal = inr refl

module _ (call : IntakeCall) (signal : PrivateSignal) (now row_id : ℕ) (is_used : String → Bool)
    (grows : call.is_used signal.hotkey ≡ true → is_used signal.hotkey ≡ true) (w : World) where
  activated-IsApplied :
      (uid : ℕ) (rid pubkey : String)
      → is_used signal.hotkey ≡ false
      → IsApplied
          (later now row_id is_used call)
          signal
          rid
          pubkey
          (activate call signal uid rid pubkey w).0.registrations
  unfolding activate
  activated-IsApplied uid rid pubkey unused = elim (Bool-cases (call.is_used signal.hotkey)) [
    | inl used ↦ ground (arith, grows used, unused)
    | inr fresh ↦ elim (Bool-cases (any (λ r. str_eq r.registration_id rid) w.registrations)) [
      | inl there ↦
          rw (fresh, there)
            (rekeyed-IsApplied call signal now row_id is_used rid pubkey w.registrations there)
      | inr new ↦
          rw (fresh, new)
            (inserted-IsApplied call signal now row_id is_used rid pubkey w.registrations uid new)
    ]
  ]

  abbrev call' : IntakeCall
  call' = later now row_id is_used call

  -- A second handling of the signal changes nothing and applies nothing.
  abbrev Rests : (World × Option Bool) → (World → World × Option Bool) → Type 0
  Rests once again = ((again once.0).0 ≡ once.0) × ((again once.0).1 ≢ some true)

  activate_twice :
      (uid : Option ℕ) (pubkey rid : Option String)
      → Rests
          (activate_parsed call signal uid pubkey rid w)
          (activate_parsed call' signal uid pubkey rid)
  unfolding activate_parsed later
  activate_twice none pubkey rid = (refl, cc)
  activate_twice (some uid) none rid = (refl, cc)
  activate_twice (some uid) (some pubkey) none = (refl, cc)
  activate_twice (some uid) (some pubkey) (some rid) =
      let rests =
        IsApplied-rests call' signal uid rid pubkey (activate call signal uid rid pubkey w).0
          (activated-IsApplied uid rid pubkey) in
      rw rests (refl, cc)

  ready_twice :
      (manifest rid : Option String)
      → Rests (ready_parsed call signal manifest rid w) (ready_parsed call' signal manifest rid)
  unfolding ready_parsed later
  ready_twice none rid = (refl, cc)
  ready_twice (some manifest) none = (refl, cc)
  ready_twice (some manifest) (some rid) =
      let p = is_readied signal rid in
      let f = make_ready call signal manifest in
      let over = any_over p f w.registrations (λ r hit. readied_over call signal rid manifest r) in
      let same =
        update_once p f (make_ready call' signal manifest) w.registrations
          (λ r hit. readied_over call signal rid manifest r) in
      rw (same, over) (refl, cc)

  -- On the very store that the handling of a signal left, and before anything else happens to it,
  -- handle_signal on the same signal leaves the store as it is and reports nothing applied, at any time
  -- and with any row id, where the hotkey stays used if it was.
  pub signal_once :
      ((handle_signal call' signal (handle_signal call signal w).0).0
        ≡ (handle_signal call signal w).0)
      × ((handle_signal call' signal (handle_signal call signal w).0).1 ≢ some true)
  unfolding handle_signal apply_activate apply_ready later
  signal_once = elim (kind_cases signal.kind) [
    | inl e ↦ rw e (activate_twice _ _ _)
    | inr e ↦ rw e (ready_twice _ _)
  ]
