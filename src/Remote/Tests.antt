-- ===== src/Remote/Tests.antt =====
-- The store of runs on a small sequence of requests, and the theorems there.
use albedo.Prelude.{
  All, update, find?, count, ◌≤◌, ◌≡◌, refl, true, false, none, some, List, [], ◌∷◌, str_eq,
}
use albedo.Remote.{
  RemoteRun, Runs, append_event, as_status, cancel_eval_run, change, ended, fail, failure,
  generating, get, has_id, is_over, mark_worker_started, new_run, set_state, start, start_eval_run,
  start_worker, list_active,
}
use albedo.Remote.Once.{
  Action, cancel, handed, perform, request, times_handed, times_handed-le-one, work_state, arrive,
  mark,
}
use albedo.Remote.Verdicts.{cancel_eval_run-ends}
use albedo.Remote.Prefetch.{Prefetches, Tasks, is_cooling, nothing_yet, prefetch_model, requested}
use albedo.Remote.Prefetch.Laws.{Tasks-le-one}

abbrev history : List Action
history =
    request "run-1" false false 10
    ∷ work_state "run-1" generating 11
    ∷ arrive "run-1" false false 12
    ∷ request "run-1" false false 12
    ∷ mark "run-1" 12
    ∷ cancel "run-1" 13
    ∷ []

unfoldable remote_program : Unit {0}
unfolding times_handed perform start_eval_run start mark_worker_started get change handed
    cancel_eval_run fail set_state append_event new_run has_id find? update is_over start_worker
remote_program = tt

handed-history : times_handed "run-1" history [] ≡ 1
unfolding remote_program
handed-history = refl

times_handed-le-one_example : times_handed "run-1" history [] ≤ 1
times_handed-le-one_example = times_handed-le-one "run-1" history []

-- A run whose smoke events have a verdict of success.
abbrev smoke : RemoteRun
smoke = new_run "run-1" true true 10

found-smoke : get "run-1" (smoke ∷ []) ≡ some smoke
unfolding remote_program
found-smoke = refl

cancel_eval_run-ends_example :
    (runs' : Runs) × (run' : RemoteRun) × (cancel_eval_run "run-1" 20 (smoke ∷ []) ≡ some runs')
    × (get "run-1" runs' ≡ some run')
    × (as_status run'
        ≡ ended (failure "remote_run_cancelled" "Remote run cancelled by backend" true))
    × All (λ r. has_id "run-1" r ≡ false) (list_active runs')
cancel_eval_run-ends_example = cancel_eval_run-ends "run-1" 20 (smoke ∷ []) smoke found-smoke

abbrev no_prefetch : Prefetches
no_prefetch = record { inflight = λ uri. false; failed_at = λ uri. none }

abbrev one_prefetch : Prefetches
one_prefetch = (prefetch_model "hf://king" 5 no_prefetch).0

one_task : Tasks ("hf://king" ∷ []) one_prefetch
unfolding prefetch_model is_cooling
one_task = requested "hf://king" 5 (nothing_yet no_prefetch (λ uri. refl)) refl

Tasks-le-one_example : count (str_eq "hf://king") ("hf://king" ∷ []) ≤ 1
Tasks-le-one_example = Tasks-le-one ("hf://king" ∷ []) one_prefetch one_task "hf://king"
