-- ===== src/Remote/Verdicts.antt =====
-- The status of a run after a cancellation, and the effect of a second request.
use albedo.Prelude.{
  if◌then◌else◌, Bool-cases, Option-cases, All, select, update, ℕ, String, ◌≡◌, refl, ap, ◌∙◌, inl,
  inr, Bool, true, false, none, some, List, [], ◌∷◌, ◌++◌, str_eq_iff,
}
use mathlib.Core.Option
use albedo.Remote.{
  RemoteRun, RunEvent, Runs, Verdict, append_event, as_status, cancel_eval_run, change, ended, fail,
  failure, get, has_id, is_over, last_verdict, set_state, start, verdict, cancelled, failed,
  new_run, running, list_active,
}
use albedo.Remote.Lookup.{get-change, get-has_id, get-append}
use albedo.Remote.Once.{cancelled-Keeps}

pub last_verdict-last :
    (events : List RunEvent) (v : Verdict) → last_verdict (events ++ verdict v ∷ []) ≡ some v
unfolding last_verdict
last_verdict-last [] v = refl
last_verdict-last (e ∷ events) v = rw (last_verdict-last events v) refl

as_status-fail :
    (code message : String) (retryable : Bool) (now : ℕ) (run : RemoteRun)
    → as_status (fail code message retryable now run) ≡ ended (failure code message retryable)
unfolding as_status fail set_state append_event
as_status-fail code message retryable now run =
    ap
      (λ o. elim o [
        | some v ↦ ended v
        | none ↦ running run.remote_run_id failed run.created_at now
      ])
      (last_verdict-last run.events (failure code message retryable))

-- Where the SET leaves a run over, and the id alone, no active run has the id.
unlisted :
    (id : String) (f : RemoteRun → RemoteRun) (runs : Runs)
    → ((run : RemoteRun) → has_id id (f run) ≡ has_id id run)
    → ((run : RemoteRun) → is_over (f run).state ≡ true)
    → All (λ run. has_id id run ≡ false) (list_active (change id f runs))
unfolding list_active change select update
unlisted id f [] same over = tt
unlisted id f (run ∷ runs) same over =
    let rest = unlisted id f runs same over in
    elim (Bool-cases (has_id id run)) [
      | inl hit ↦ rw (hit, over run) rest
      | inr miss ↦ elim (Bool-cases (is_over run.state)) [
        | inl done ↦ rw (miss, done) rest
        | inr working ↦ rw (miss, working) (miss, rest)
      ]
    ]

-- A cancellation of a run that exists makes its status the verdict of the cancellation, and leaves no
-- run of its id on the list of the active ones, whatever its events were, a verdict of success included.
pub cancel_eval_run-ends :
    (id : String) (now : ℕ) (runs : Runs) (run : RemoteRun)
    → get id runs ≡ some run
    → (runs' : Runs) × (run' : RemoteRun) × (cancel_eval_run id now runs ≡ some runs')
      × (get id runs' ≡ some run')
      × (as_status run'
          ≡ ended (failure "remote_run_cancelled" "Remote run cancelled by backend" true))
      × All (λ r. has_id id r ≡ false) (list_active runs')
unfolding cancel_eval_run
cancel_eval_run-ends id now runs run found =
    let after : get id (change id (cancelled now) runs) ≡ some (cancelled now run) =
      get-change id id (cancelled now) runs (cancelled-Keeps now)
      ∙ ap (Option.map (λ q. if has_id id q then cancelled now q else q)) found
      ∙ ap (λ b. some (if b then cancelled now run else run)) (get-has_id id runs found) in
    (
      change id (cancelled now) runs,
      cancelled now run,
      rw (cancel_eval_run, found) refl,
      after,
      as_status-fail _ _ true now run,
      unlisted id (cancelled now) runs (λ r. unfold has_id fail set_state append_event in refl)
          (λ r. unfold fail set_state is_over in refl),
    )

-- A second request for an id changes nothing and gives the run that is there.
pub start-again :
    (id : String) (won auto won' auto' : Bool) (now now' : ℕ) (runs : Runs)
    → start id won' auto' now' (start id won auto now runs).0
      ≡ ((start id won auto now runs).0, (start id won auto now runs).1)
unfolding start
start-again id won auto won' auto' now now' runs = elim (Option-cases (get id runs)) [
  | inr (run, found) ↦ simp (start, found)
  | inl fresh ↦
      let run = new_run id won auto now in
      let named : has_id id run ≡ true = unfold has_id new_run in (str_eq_iff id id).1 refl in
      let after : get id (runs ++ run ∷ []) ≡ some run =
        get-append id runs run
        ∙ ap (λ o. elim o [ some r ↦ some r | none ↦ if has_id id run then some run else none ])
            fresh
        ∙ ap (λ b. if b then some run else none) named in
      simp (start, fresh, after)
]
