-- ===== src/Private/Freeze/Done.antt =====
-- What the calls of a step that did not raise have done.
use albedo.Prelude.{
  ◌==◌, ==_refl, select, any, ℕ, String, ◌≡◌, refl, Bool, true, false, ◌&&◌, ◌||◌, not, Option,
  none, some, List, [], ◌∷◌, map, arith, str_eq,
}
use albedo.Private.{
  Envelope, Outcome, Registration, Token, World, call_out, clear_mailbox, create_token, lost,
  publish, refused, returned, revoke_token,
}
use albedo.Private.Controller.{
  Answers, compute, create_parent_token, existing_token_ids, issue, release, revoke_all,
  revoke_parent,
}
use albedo.Private.Freeze.{IsShut, cleared-sealed, is_only, is_parent, only-revoke_parent}

-- A call that returned, after steps that did not raise, had its effect.
call_out-true :
    (o : Outcome) (f : World → World) (s : World × Bool)
    → (call_out o f s).1 ≡ true
    → ((call_out o f s).0 ≡ f s.0) × (s.1 ≡ true)
unfolding call_out
call_out-true o f (w, false) h = cc
call_out-true returned f (w, true) h = (refl, refl)
call_out-true refused f (w, true) h = cc
call_out-true lost f (w, true) h = cc

compute-true :
    (b : Bool) (s : World × Bool) → (compute b s).1 ≡ true → ((compute b s).0 ≡ s.0) × (s.1 ≡ true)
unfolding compute
compute-true b (w, good) h = ground (arith, h)

-- Without its parent token, an open registration has no live token.
parent_revoked :
    (a : Answers) (rid : String) (parent : Option ℕ) (w : World)
    → is_only w.live_tokens rid parent ≡ true
    → (revoke_parent a parent (w, true)).1 ≡ true
    → is_only (revoke_parent a parent (w, true)).0.live_tokens rid none ≡ true
unfolding revoke_parent revoke_token
parent_revoked a rid none w only h = only
parent_revoked a rid (some token) w only h =
    rw (call_out-true (a.revoking token) (revoke_token token) (w, true) h).0
      (only-revoke_parent token w.live_tokens rid only)

-- A release of an open row that has not raised leaves it shut.
pub release-IsShut :
    (a : Answers) (r : Registration) (w : World)
    → is_only w.live_tokens r.registration_id r.parent_token_id ≡ true
    → (release a r w).1 ≡ true
    → IsShut (release a r w).0 r
unfolding release clear_mailbox
release-IsShut a r w only h =
    let rid = r.registration_id in
    let s = revoke_parent a r.parent_token_id (w, true) in
    let (deleted, good) = call_out-true a.deleting (clear_mailbox rid) s h in
    rw deleted (parent_revoked a rid r.parent_token_id w only good, cleared-sealed rid s.0.mailbox)

-- Every live token of the registration is among those listed.
covers : List ℕ → String → List Token → Bool
covers ids rid [] = true
covers ids rid (t ∷ tokens) =
    (not (str_eq t.registration_id rid) || any (λ k. t.id == k) ids) && covers ids rid tokens

covers-more :
    (k : ℕ) (ids : List ℕ) (rid : String) (tokens : List Token)
    → covers ids rid tokens ≡ true
    → covers (k ∷ ids) rid tokens ≡ true
unfolding covers any
covers-more k ids rid [] h = refl
covers-more k ids rid (t ∷ tokens) h = ground (arith, covers-more k ids rid tokens)

covers-existing :
    (on_page : Token → Bool)
    → ((t : Token) → on_page t ≡ true)
    → (rid : String) (tokens : List Token)
    → covers
        (map (λ t. t.id) (select (λ t. str_eq t.registration_id rid && on_page t) tokens))
        rid
        tokens
      ≡ true
unfolding covers any select
covers-existing on_page full rid [] = refl
covers-existing on_page full rid (t ∷ tokens) =
    let ids = map (λ t. t.id) (select (λ t. str_eq t.registration_id rid && on_page t) tokens) in
    let rest = covers-existing on_page full rid tokens in
    ground (arith, ==_refl t.id, full t, rest, covers-more t.id ids rid tokens)

covers-revoke :
    (k : ℕ) (ids : List ℕ) (rid : String) (tokens : List Token)
    → covers (k ∷ ids) rid tokens ≡ true
    → covers ids rid (select (λ t. not (t.id == k)) tokens) ≡ true
unfolding covers any select
covers-revoke k ids rid [] h = refl
covers-revoke k ids rid (t ∷ tokens) h = ground (arith, covers-revoke k ids rid tokens)

covers-none :
    (rid : String) (tokens : List Token)
    → covers [] rid tokens ≡ true
    → is_only tokens rid none ≡ true
unfolding covers any is_only is_parent
covers-none rid [] h = refl
covers-none rid (t ∷ tokens) h = ground (arith, covers-none rid tokens)

revoke_all-true :
    (a : Answers) (ids : List ℕ) (s : World × Bool) → (revoke_all a ids s).1 ≡ true → s.1 ≡ true
unfolding revoke_all
revoke_all-true a [] s h = h
revoke_all-true a (k ∷ ids) s h =
    (call_out-true (a.revoking k) (revoke_token k) s
      (revoke_all-true a ids (call_out (a.revoking k) (revoke_token k) s) h)).1

revoked_all :
    (a : Answers) (rid : String) (ids : List ℕ) (s : World × Bool)
    → covers ids rid s.0.live_tokens ≡ true
    → (revoke_all a ids s).1 ≡ true
    → is_only (revoke_all a ids s).0.live_tokens rid none ≡ true
unfolding revoke_all revoke_token
revoked_all a rid [] s covered h = covers-none rid s.0.live_tokens covered
revoked_all a rid (k ∷ ids) s covered h =
    let s' = call_out (a.revoking k) (revoke_token k) s in
    let done = call_out-true (a.revoking k) (revoke_token k) s (revoke_all-true a ids s' h) in
    revoked_all a rid ids s' (rw done.0 (covers-revoke k ids rid s.0.live_tokens covered)) h

only-created :
    (token : ℕ) (rid : String) (tokens : List Token)
    → is_only tokens rid none ≡ true
    → is_only tokens rid (some token) ≡ true
unfolding is_only is_parent
only-created token rid [] h = refl
only-created token rid (t ∷ tokens) h = ground (arith, only-created token rid tokens)

created_only :
    (a : Answers) (rid : String) (s : World × Bool)
    → ((t : Token) → a.on_page t ≡ true)
    → (create_parent_token a rid s).1 ≡ true
    → is_only (create_parent_token a rid s).0.live_tokens rid (some a.token) ≡ true
unfolding create_parent_token existing_token_ids create_token is_only is_parent
created_only a rid s full h =
    let token : Token = record { id = a.token; registration_id = rid } in
    let s2 = compute a.is_listed s in
    let ids = existing_token_ids a rid s.0 in
    let done = call_out-true a.creating (create_token token) (revoke_all a ids s2) h in
    let listed = compute-true a.is_listed s (revoke_all-true a ids s2 done.1) in
    let covered : covers ids rid s2.0.live_tokens ≡ true =
      rw listed.0 (covers-existing a.on_page full rid s.0.live_tokens) in
    rw (done.0, ==_refl a.token)
      (ground (arith, only-created a.token rid _ (revoked_all a rid ids s2 covered done.1)))

-- The calls of `_credential`, when none raised and the page had all tokens, leave one live token of the registration.
pub issued_only :
    (a : Answers) (r : Registration) (w : World)
    → ((t : Token) → a.on_page t ≡ true)
    → (issue a r w).1 ≡ true
    → is_only (issue a r w).0.live_tokens r.registration_id (some a.token) ≡ true
unfolding issue clear_mailbox publish
issued_only a r w full h =
    let rid = r.registration_id in
    let envelope : Envelope = record { registration_id = rid; token = a.token } in
    let s1 = revoke_parent a r.parent_token_id (w, true) in
    let s2 = create_parent_token a rid s1 in
    let s3 = compute a.is_sealed s2 in
    let s4 = call_out a.deleting (clear_mailbox rid) s3 in
    let published = call_out-true a.publishing (publish envelope) s4 h in
    let deleted = call_out-true a.deleting (clear_mailbox rid) s3 published.1 in
    let sealed = compute-true a.is_sealed s2 deleted.1 in
    rw (published.0, deleted.0, sealed.0) (created_only a rid s1 full sealed.1)
