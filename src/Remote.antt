-- ===== src/Remote.antt =====
-- The runs that a remote evaluation host keeps (src/albedo_eval_service/remote/state.py), with the
-- handlers that start, read and cancel them (src/albedo_eval_service/remote/api.py). The lock of the
-- store makes each of its methods one step. The
-- cancellation changes the run after `get` has released the lock; it is one step here all the same, and
-- what a worker thread writes in the middle of it is not modelled.
pub mod Lookup
pub mod Once
pub mod Verdicts
pub mod Tests
pub mod Prefetch
use albedo.Prelude.{
  if◌then◌else◌, select, update, find?, ℕ, String, Bool, true, false, ◌||◌, not, Option, none, some,
  List, [], ◌∷◌, ◌++◌, str_eq,
}

pub data RunState : Type 0 where
  accepted queued generating scoring succeeded failed : RunState

-- An event of type "verdict", less its scores.
pub record Verdict : Type 0 where
  pub state : RunState
  pub challenger_won : Option Bool
  pub fault_code : Option String
  pub fault_message : Option String
  pub retryable : Bool

-- An event: a verdict, or another with its type.
pub data RunEvent : Type 0 where
  verdict : Verdict → RunEvent
  progress : String → RunEvent

pub record RemoteRun : Type 0 where
  pub remote_run_id : String
  pub state : RunState
  pub events : List RunEvent
  pub created_at : ℕ
  pub updated_at : ℕ
  pub worker_started : Bool

-- RemoteRun.set_state
unfoldable pub set_state : RunState → ℕ → RemoteRun → RemoteRun
set_state state now run = record run { state = state; updated_at = now }

-- RemoteRun.append_event
unfoldable pub append_event : RunEvent → ℕ → RemoteRun → RemoteRun
append_event event now run = record run { events = run.events ++ event ∷ []; updated_at = now }

abbrev pub failure : String → String → Bool → Verdict
failure fault_code fault_message retryable = record {
  state = failed;
  challenger_won = none;
  fault_code = some fault_code;
  fault_message = some fault_message;
  retryable = retryable;
}

-- RemoteRun.fail
unfoldable pub fail : String → String → Bool → ℕ → RemoteRun → RemoteRun
unfolding set_state append_event
fail fault_code fault_message retryable now run =
    set_state failed now
      (append_event (verdict (failure fault_code fault_message retryable)) now run)

-- RemoteRun.final_verdict: the first verdict of `reversed(self.events)`.
unfoldable pub last_verdict : List RunEvent → Option Verdict
last_verdict [] = none
last_verdict (e ∷ es) = elim (last_verdict es) [
  | some v ↦ some v
  | none ↦ elim e [ verdict v ↦ some v | progress _ ↦ none ]
]

-- RemoteRun.as_status: the verdict, or the state so far.
pub data Status : Type 0 where
  ended : Verdict → Status
  running : String → RunState → ℕ → ℕ → Status

unfoldable pub as_status : RemoteRun → Status
unfolding last_verdict
as_status run = elim (last_verdict run.events) [
  | some v ↦ ended v
  | none ↦ running run.remote_run_id run.state run.created_at run.updated_at
]

-- RemoteRunStore._runs, a dict by the id.
abbrev pub Runs : Type 0
Runs = List RemoteRun

unfoldable pub has_id : String → RemoteRun → Bool
has_id id run = str_eq run.remote_run_id id

-- RemoteRunStore.get
unfoldable pub get : String → Runs → Option RemoteRun
get id runs = find? (has_id id) runs

unfoldable pub is_over : RunState → Bool
is_over succeeded = true
is_over failed = true
is_over _ = false

-- `_smoke_progress_and_verdict`
smoke_events : Bool → List RunEvent
smoke_events challenger_won =
    progress "generation_started"
    ∷ progress "scoring_started"
    ∷ verdict (record {
      state = succeeded;
      challenger_won = some challenger_won;
      fault_code = none;
      fault_message = none;
      retryable = false;
    })
    ∷ []

-- The run that `start` makes.
unfoldable pub new_run : String → Bool → Bool → ℕ → RemoteRun
unfolding smoke_events
new_run id challenger_won auto_verdict now = record {
  remote_run_id = id;
  state = if auto_verdict then succeeded else accepted;
  events = progress "eval_started" ∷ (if auto_verdict then smoke_events challenger_won else []);
  created_at = now;
  updated_at = now;
  worker_started = false;
}

-- RemoteRunStore.start
unfoldable pub start : String → Bool → Bool → ℕ → Runs → Runs × RemoteRun
start id challenger_won auto_verdict now runs = elim (get id runs) [
  | some existing ↦ (runs, existing)
  | none ↦ let run = new_run id challenger_won auto_verdict now in (runs ++ run ∷ [], run)
]

-- What another method does to the run of an id, if there is one.
unfoldable pub change : String → (RemoteRun → RemoteRun) → Runs → Runs
change id f runs = update (has_id id) f runs

start_worker : ℕ → RemoteRun → RemoteRun
start_worker now run = record run { worker_started = true; state = queued; updated_at = now }

-- RemoteRunStore.mark_worker_started
unfoldable pub mark_worker_started : String → ℕ → Runs → Runs × Option RemoteRun
unfolding change start_worker is_over
mark_worker_started id now runs = elim (get id runs) [
  | none ↦ (runs, none)
  | some run ↦
      if run.worker_started || is_over run.state
      then (runs, none)
      else (change id (start_worker now) runs, some (start_worker now run))
]

-- RemoteRunStore.list_active
unfoldable pub list_active : Runs → List RemoteRun
unfolding is_over
list_active runs = select (λ run. not (is_over run.state)) runs

-- `start_eval_run`, once the host is ready; the second answer is the run that a worker is to execute.
unfoldable pub start_eval_run : String → Bool → Bool → ℕ → Runs → Runs × Option RemoteRun
unfolding start mark_worker_started
start_eval_run id challenger_won auto_verdict now runs =
    let (runs', run) = start id challenger_won auto_verdict now runs in
    if auto_verdict then (runs', none) else mark_worker_started run.remote_run_id now runs'

-- What a cancellation does to a run.
abbrev pub cancelled : ℕ → RemoteRun → RemoteRun
cancelled now run = fail "remote_run_cancelled" "Remote run cancelled by backend" true now run

-- `cancel_eval_run`: none is the 404.
unfoldable pub cancel_eval_run : String → ℕ → Runs → Option Runs
unfolding change fail
cancel_eval_run id now runs = elim (get id runs) [
  | none ↦ none
  | some _ ↦ some (change id (cancelled now) runs)
]
