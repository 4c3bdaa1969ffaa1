-- ===== src/Private/Freeze.antt =====
-- A registration whose upload is frozen: no live token of it and no envelope in the mailbox.
pub mod Calls
pub mod Steps
pub mod Signals
pub mod Always
pub mod Done
use albedo.Prelude.{
  ◌==◌, IsKeyed, All, select, any, ℕ, String, ◌≡◌, refl, Bool, true, false, ◌&&◌, ◌||◌, not, Option,
  none, some, List, [], ◌∷◌, arith, str_eq,
}
use albedo.Private.{
  Envelope, Registration, RegistrationState, Token, World, clear_mailbox, create_token,
  credentialed, publish, ready, revoke_token, revoked, submitted,
}

unfoldable pub is_frozen : Registration → Bool
is_frozen r = elim r.state [
  | RegistrationState.revoked ↦ true
  | RegistrationState.submitted ↦ true
  | _ ↦ false
]

-- The states in which a miner holds credentials.
unfoldable pub is_open : Registration → Bool
is_open r = elim r.state [
  | RegistrationState.credentialed ↦ true
  | RegistrationState.ready ↦ true
  | _ ↦ false
]

-- Every live token of the registration is the one given.
unfoldable pub is_parent : ℕ → Option ℕ → Bool
is_parent token none = false
is_parent token (some parent) = token == parent

unfoldable pub is_only : List Token → String → Option ℕ → Bool
unfolding is_parent
is_only [] rid parent = true
is_only (t ∷ tokens) rid parent =
    (not (str_eq t.registration_id rid) || is_parent t.id parent) && is_only tokens rid parent

unfoldable pub is_sealed_off : String → List Envelope → Bool
is_sealed_off rid mailbox = not (any (λ e. str_eq e.registration_id rid) mailbox)

-- No token of the registration is live, and no envelope of it is published.
abbrev pub IsShut : World → Registration → Type 0
IsShut w r =
    (is_only w.live_tokens r.registration_id none ≡ true)
    × (is_sealed_off r.registration_id w.mailbox ≡ true)

-- A frozen row is shut; the live tokens of an open row are the one that it names.
abbrev pub SafeRow : World → Registration → Type 0
SafeRow w r =
    (is_frozen r ≡ true → IsShut w r)
    × (is_open r ≡ true → is_only w.live_tokens r.registration_id r.parent_token_id ≡ true)

-- The invariant: the primary key, the unique registration_id, and every row is safe.
abbrev pub Frozen : World → Type 0
Frozen w =
    IsKeyed (λ r. r.id) w.registrations
    × IsKeyed (λ r. r.registration_id) w.registrations
    × All (SafeRow w) w.registrations

only-revoke :
    (token : ℕ) (tokens : List Token) (rid : String) (parent : Option ℕ)
    → is_only tokens rid parent ≡ true
    → is_only (select (λ t. not (t.id == token)) tokens) rid parent ≡ true
unfolding is_only select
only-revoke token [] rid parent h = refl
only-revoke token (t ∷ tokens) rid parent h = ground (arith, only-revoke token tokens rid parent)

-- Without the token that it names, an open registration has none.
pub only-revoke_parent :
    (parent : ℕ) (tokens : List Token) (rid : String)
    → is_only tokens rid (some parent) ≡ true
    → is_only (select (λ t. not (t.id == parent)) tokens) rid none ≡ true
unfolding is_only is_parent select
only-revoke_parent parent [] rid h = refl
only-revoke_parent parent (t ∷ tokens) rid h = ground (arith, only-revoke_parent parent tokens rid)

sealed-clear :
    (rid' rid : String) (mailbox : List Envelope)
    → is_sealed_off rid mailbox ≡ true
    → is_sealed_off rid (select (λ e. not (str_eq e.registration_id rid')) mailbox) ≡ true
unfolding is_sealed_off any select
sealed-clear rid' rid [] h = refl
sealed-clear rid' rid (e ∷ mailbox) h = ground (arith, sealed-clear rid' rid mailbox)

pub cleared-sealed :
    (rid : String) (mailbox : List Envelope)
    → is_sealed_off rid (select (λ e. not (str_eq e.registration_id rid)) mailbox) ≡ true
unfolding is_sealed_off any select
cleared-sealed rid [] = refl
cleared-sealed rid (e ∷ mailbox) = ground (arith, cleared-sealed rid mailbox)

pub SafeRow-revoke_token :
    (token : ℕ) (w : World) (r : Registration) → SafeRow w r → SafeRow (revoke_token token w) r
unfolding revoke_token
SafeRow-revoke_token token w r h = (
  (λ on. (only-revoke token w.live_tokens r.registration_id none (h.0 on).0, (h.0 on).1)),
  (λ on. only-revoke token w.live_tokens r.registration_id r.parent_token_id (h.1 on)),
)

pub SafeRow-clear_mailbox :
    (rid : String) (w : World) (r : Registration) → SafeRow w r → SafeRow (clear_mailbox rid w) r
unfolding clear_mailbox
SafeRow-clear_mailbox rid w r h =
    ((λ on. ((h.0 on).0, sealed-clear rid r.registration_id w.mailbox (h.0 on).1)), h.1)

-- A new token, and a new envelope, are of no other registration.
pub SafeRow-create_token :
    (t : Token) (w : World) (r : Registration)
    → (str_eq t.registration_id r.registration_id ≡ true
        → (is_frozen r ≡ false) × (is_open r ≡ false))
    → SafeRow w r
    → SafeRow (create_token t w) r
unfolding create_token is_only
SafeRow-create_token t w r other h =
    ((λ on. ground (arith, other, on, h.0 on)), (λ on. ground (arith, other, on, h.1 on)))

pub SafeRow-publish :
    (e : Envelope) (w : World) (r : Registration)
    → (str_eq e.registration_id r.registration_id ≡ true
        → (is_frozen r ≡ false) × (is_open r ≡ false))
    → SafeRow w r
    → SafeRow (publish e w) r
unfolding publish is_sealed_off any
SafeRow-publish e w r other h = ((λ on. ground (arith, other, on, h.0 on)), h.1)
