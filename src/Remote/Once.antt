-- ===== src/Remote/Once.antt =====
-- A run is handed to a worker at most once.
use albedo.Prelude.{
  if◌then◌else◌, Bool-cases, Option-cases, ℕ, ◌+◌, ◌≤◌, String, ◌≡◌, refl, sym, ap, ◌∙◌, inl, inr,
  Bool, true, false, ◌||◌, Option, none, some, List, [], ◌∷◌, ◌++◌, arith, str_eq_iff,
}
use mathlib.Core.Option
use albedo.Remote.{
  RemoteRun, RunEvent, RunState, Runs, append_event, cancel_eval_run, change, fail, get, has_id,
  is_over, mark_worker_started, set_state, start_eval_run, start_worker, new_run, start, cancelled,
}
use albedo.Remote.Lookup.{
  Keeps, is_started, is_started-change, get-change, is_started-append, get-has_id,
}

-- What may happen to the store: a request, a cancellation, or a worker's change of a run. A request
-- takes the lock twice, so another action may come between its arrival and its marking.
pub data Action : Type 0 where
  request : String → Bool → Bool → ℕ → Action
  arrive : String → Bool → Bool → ℕ → Action
  mark : String → ℕ → Action
  cancel : String → ℕ → Action
  work_event : String → RunEvent → ℕ → Action
  work_state : String → RunState → ℕ → Action
  work_failure : String → String → String → Bool → ℕ → Action

-- The store after it, and the run that a worker is to execute.
unfoldable pub perform : Action → Runs → Runs × Option RemoteRun
perform (request id won auto now) runs = start_eval_run id won auto now runs
perform (arrive id won auto now) runs = ((start id won auto now runs).0, none)
perform (mark id now) runs = mark_worker_started id now runs
perform (cancel id now) runs =
    (elim (cancel_eval_run id now runs) [ none ↦ runs | some runs' ↦ runs' ], none)
perform (work_event id event now) runs = (change id (append_event event now) runs, none)
perform (work_state id state now) runs = (change id (set_state state now) runs, none)
perform (work_failure id code message retryable now) runs =
    (change id (fail code message retryable now) runs, none)

-- Whether it is the run of `id` that is handed over.
unfoldable pub handed : String → Option RemoteRun → ℕ
handed id none = 0
handed id (some run) = if has_id id run then 1 else 0

unfoldable pub times_handed : String → List Action → Runs → ℕ
unfolding perform handed
times_handed id [] runs = 0
times_handed id (a ∷ actions) runs =
    let (runs', given) = perform a runs in handed id given + times_handed id actions runs'

started : String → Runs → ℕ
started id runs = if is_started id runs then 1 else 0

started_below :
    (id : String) (runs runs' : Runs)
    → (is_started id runs ≡ true → is_started id runs' ≡ true)
    → started id runs ≤ started id runs'
unfolding started
started_below id runs runs' keeps = elim (Bool-cases (is_started id runs)) [
  | inl on ↦ rw (on, keeps on) (omega arith)
  | inr off ↦ rw off (omega arith)
]

started-change :
    (id j : String) (f : RemoteRun → RemoteRun) (runs : Runs)
    → Keeps f
    → started id runs ≤ started id (change j f runs)
started-change id j f runs keeps =
    started_below id runs (change j f runs) (is_started-change id j f runs keeps)

start_worker-Keeps : (now : ℕ) → Keeps (start_worker now)
unfolding start_worker
start_worker-Keeps now r = (refl, λ h. refl)

-- The run that is found for an id, before and after its worker starts.
found-started :
    (id : String) (now : ℕ) (runs : Runs) (run : RemoteRun)
    → get id runs ≡ some run
    → run.worker_started ≡ false
    → (started id runs ≡ 0) × (started id (change id (start_worker now) runs) ≡ 1)
unfolding started is_started start_worker
found-started id now runs run found off =
    let mine : has_id id run ≡ true = get-has_id id runs found in
    let after : get id (change id (start_worker now) runs) ≡ some (start_worker now run) =
      get-change id id (start_worker now) runs (start_worker-Keeps now)
      ∙ ap (Option.map (λ q. if has_id id q then start_worker now q else q)) found
      ∙ ap (λ b. some (if b then start_worker now run else run)) mine in
    (
      ap (λ o. if (elim o [ none ↦ false | some r ↦ r.worker_started ]) then 1 else 0) found
          ∙ ap (λ b. if b then 1 else 0) off,
      ap (λ o. if (elim o [ none ↦ false | some r ↦ r.worker_started ]) then 1 else 0) after,
    )

same_id : (id j : String) (run : RemoteRun) → has_id id run ≡ true → has_id j run ≡ true → id ≡ j
unfolding has_id
same_id id j run mine yours =
    sym ((str_eq_iff run.remote_run_id id).0 mine) ∙ (str_eq_iff run.remote_run_id j).0 yours

handed-start_worker :
    (id : String) (now : ℕ) (run : RemoteRun)
    → handed id (some (start_worker now run)) ≡ (if has_id id run then 1 else 0)
unfolding handed start_worker has_id
handed-start_worker id now run = refl

fail-Keeps :
    (code message : String) (retryable : Bool) (now : ℕ) → Keeps (fail code message retryable now)
unfolding fail
fail-Keeps code message retryable now r = (refl, λ h. h)

pub cancelled-Keeps : (now : ℕ) → Keeps (cancelled now)
unfolding fail
cancelled-Keeps now r = (refl, λ h. h)

append_event-Keeps : (event : RunEvent) (now : ℕ) → Keeps (append_event event now)
unfolding append_event
append_event-Keeps event now r = (refl, λ h. h)

set_state-Keeps : (state : RunState) (now : ℕ) → Keeps (set_state state now)
unfolding set_state
set_state-Keeps state now r = (refl, λ h. h)

mark-started :
    (id j : String) (now : ℕ) (runs : Runs)
    → handed id (mark_worker_started j now runs).1 + started id runs
      ≤ started id (mark_worker_started j now runs).0
unfolding mark_worker_started
mark-started id j now runs = elim (Option-cases (get j runs)) [
  | inl nothing ↦ rw (mark_worker_started, nothing) (unfold handed in omega arith)
  | inr (run, found) ↦ elim (Bool-cases (run.worker_started || is_over run.state)) [
    | inl busy ↦ rw (mark_worker_started, found, busy) (unfold handed in omega arith)
    | inr free ↦
        rw (mark_worker_started, found, free)
          (elim (Bool-cases (has_id id run)) [
            | inl mine ↦
                let yours : has_id j run ≡ true = get-has_id j runs found in
                let same = same_id id j run mine yours in
                let (before, after) = found-started j now runs run found (ground arith) in
                let one = handed-start_worker id now run ∙ ap (λ b. if b then 1 else 0) mine in
                rw one (rw same (omega (arith, before, after)))
            | inr other ↦
                let none_given =
                  handed-start_worker id now run ∙ ap (λ b. if b then 1 else 0) other in
                let kept = started-change id j (start_worker now) runs (start_worker-Keeps now) in
                rw none_given (omega (arith, kept))
          ])
  ]
]

start-started :
    (id j : String) (won auto : Bool) (now : ℕ) (runs : Runs)
    → started id runs ≤ started id (start j won auto now runs).0
unfolding start
start-started id j won auto now runs = elim (Option-cases (get j runs)) [
  | inl fresh ↦
      rw (start, fresh)
        (started_below id runs (runs ++ new_run j won auto now ∷ [])
          (is_started-append id runs (new_run j won auto now)))
  | inr (run, found) ↦ rw (start, found) (omega arith)
]

perform-started :
    (id : String) (a : Action) (runs : Runs)
    → handed id (perform a runs).1 + started id runs ≤ started id (perform a runs).0
unfolding perform handed start_eval_run cancel_eval_run
perform-started id (request j won true now) runs =
    omega (arith, start-started id j won true now runs)
perform-started id (request j won false now) runs =
    let (runs', run) = start j won false now runs in
    let given = mark-started id run.remote_run_id now runs' in
    omega (arith, given, start-started id j won false now runs)
perform-started id (arrive j won auto now) runs =
    omega (arith, start-started id j won auto now runs)
perform-started id (mark j now) runs = mark-started id j now runs
perform-started id (cancel j now) runs = elim (Option-cases (get j runs)) [
  | inl nothing ↦ rw (perform, cancel_eval_run, nothing) (omega arith)
  | inr (run, found) ↦
      let kept = started-change id j (cancelled now) runs (cancelled-Keeps now) in
      rw (perform, cancel_eval_run, found) (omega (arith, kept))
]
perform-started id (work_event j event now) runs =
    let kept = started-change id j (append_event event now) runs (append_event-Keeps event now) in
    omega (arith, kept)
perform-started id (work_state j state now) runs =
    let kept = started-change id j (set_state state now) runs (set_state-Keeps state now) in
    omega (arith, kept)
perform-started id (work_failure j code message retryable now) runs =
    let kept =
      started-change id j (fail code message retryable now) runs
        (fail-Keeps code message retryable now) in
    omega (arith, kept)

times_handed-started :
    (id : String) (actions : List Action) (runs : Runs)
    → times_handed id actions runs + started id runs ≤ 1
unfolding times_handed started
times_handed-started id [] runs = ground arith
times_handed-started id (a ∷ actions) runs =
    omega (arith, perform-started id a runs, times_handed-started id actions (perform a runs).0)

-- Whatever requests, cancellations and changes by workers come in whatever order, a run is handed to
-- a worker at most once, also when it is requested again.
pub times_handed-le-one :
    (id : String) (actions : List Action) (runs : Runs) → times_handed id actions runs ≤ 1
times_handed-le-one id actions runs = omega (arith, times_handed-started id actions runs)
