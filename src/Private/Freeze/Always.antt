-- ===== src/Private/Freeze/Always.antt =====
-- No order of events leaves a frozen registration with upload access.
use albedo.Prelude.{In, All-In, ℕ, ◌≡◌, true}
use albedo.Private.{Registration, World, Token}
use albedo.Private.Freeze.{Frozen, IsShut, is_frozen, SafeRow}
use albedo.Private.Steps.{
  Step, Steps, activated_by, window_closed, readied_by, retry_offered, step, stop, ticked,
}
use albedo.Private.Freeze.Signals.{
  apply_activate-Frozen, apply_ready-Frozen, close-Frozen, reset-Frozen,
}
use albedo.Private.Freeze.Steps.{tick-Frozen}

-- The GET of the tokens, which reads one page, has every live token in each tick.
unfoldable pub ListsAll : {max_attempts : ℕ} {w w' : World} → Step max_attempts w w' → Type 0
ListsAll (ticked a) = (t : Token) → a.on_page t ≡ true
ListsAll (activated_by call signal _ _) = Unit
ListsAll (readied_by call signal) = Unit
ListsAll (window_closed a reason r) = Unit
ListsAll (retry_offered r now newest_block _ _) = Unit

unfoldable pub AllListed : {max_attempts : ℕ} {w w' : World} → Steps max_attempts w w' → Type 0
unfolding ListsAll
AllListed stop = Unit
AllListed (step steps last) = AllListed steps × ListsAll last

Step-Frozen :
    {max_attempts : ℕ} {w w' : World} (next : Step max_attempts w w')
    → ListsAll next
    → Frozen w
    → Frozen w'
unfolding ListsAll
Step-Frozen (ticked a) full h = tick-Frozen a _ h full
Step-Frozen (activated_by call signal _ new_id) full h =
    apply_activate-Frozen call signal _ h new_id
Step-Frozen (readied_by call signal) full h = apply_ready-Frozen call signal _ h
Step-Frozen (window_closed a reason r) full h = close-Frozen _ h a reason r
Step-Frozen (retry_offered r now newest_block here e) full h =
    reset-Frozen _ h r now newest_block here e

Steps-Frozen :
    {max_attempts : ℕ} {w w' : World} (steps : Steps max_attempts w w')
    → AllListed steps
    → Frozen w
    → Frozen w'
unfolding AllListed
Steps-Frozen stop full h = h
Steps-Frozen (step steps last) full h = Step-Frozen last full.1 (Steps-Frozen steps full.0 h)

-- Where the primary key and the registration ids are distinct and every row is safe (a REVOKED or
-- SUBMITTED row has no live token and no envelope, a CREDENTIALED or READY row no live token but the one
-- it names), and the one page of tokens that each tick may read has all live tokens, after any ticks, signals and sweeps a REVOKED or SUBMITTED row still has no live parent
-- token made for its registration and no envelope in the mailbox, whichever calls of Cloudflare and of
-- the mailbox failed or lost their answer on the way.
pub Steps-IsShut :
    {max_attempts : ℕ} {w w' : World}
    → Frozen w
    → (steps : Steps max_attempts w w') → AllListed steps
    → (r : Registration) → In r w'.registrations
    → is_frozen r ≡ true
    → IsShut w' r
Steps-IsShut {w' = w'} h steps full r here frozen =
    (All-In (SafeRow w') w'.registrations (Steps-Frozen steps full h).2 here).0 frozen
