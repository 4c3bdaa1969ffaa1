-- ===== src/Remote/Prefetch.antt =====
-- The prefetch of models (`prefetch_model` and `_prefetch_model_artifact` of
-- src/albedo_eval_service/remote/api.py). The guard of the two dicts makes each access one step.
pub mod Laws
use albedo.Prelude.{
  ltb, if◌then◌else◌, ℕ, ◌+◌, String, ◌≡◌, ◌≢◌, Bool, true, false, Option, none, some, List, [],
  ◌∷◌, ◌++◌, str_eq,
}

-- `_prefetch_inflight` and `_prefetch_failed_at`, the clock in seconds.
pub record Prefetches : Type 0 where
  pub inflight : String → Bool
  pub failed_at : String → Option ℕ

pub data Answer : Type 0 where
  rejected in_progress failure_cooldown started : Answer

abbrev pub failure_cooldown_s : ℕ
failure_cooldown_s = 900

unfoldable pub is_cooling : Option ℕ → ℕ → Bool
is_cooling none now = false
is_cooling (some failed_at) now = ltb now (failed_at + failure_cooldown_s)

-- `prefetch_model`, for the uri without its outer blanks; where it answers `started`, a task is added.
unfoldable pub prefetch_model : String → ℕ → Prefetches → Prefetches × Answer
unfolding is_cooling
prefetch_model uri now p =
    if str_eq uri ""
    then (p, rejected)
    else if p.inflight uri
    then (p, in_progress)
    else if is_cooling (p.failed_at uri) now
    then (p, failure_cooldown)
    else (record p { inflight = λ u. if str_eq u uri then true else p.inflight u }, started)

-- `_prefetch_model_artifact` at its end: whether the model was resolved.
unfoldable pub end_prefetch : String → Bool → ℕ → Prefetches → Prefetches
end_prefetch uri resolved now p = record {
  inflight = λ u. if str_eq u uri then false else p.inflight u;
  failed_at = λ u. if str_eq u uri then (if resolved then none else some now) else p.failed_at u;
}

-- The tasks that run, with the dicts, after one more request or end of a task.
pub data Tasks : List String → Prefetches → Type 0 where
  nothing_yet : (p : Prefetches) → ((u : String) → p.inflight u ≡ false) → Tasks [] p
  requested :
      {tasks : List String} {p p' : Prefetches} (uri : String) (now : ℕ)
      → Tasks tasks p
      → prefetch_model uri now p ≡ (p', started)
      → Tasks (uri ∷ tasks) p'
  refused :
      {tasks : List String} {p p' : Prefetches} (uri : String) (now : ℕ) (answer : Answer)
      → Tasks tasks p
      → prefetch_model uri now p ≡ (p', answer)
      → answer ≢ started
      → Tasks tasks p'
  finished :
      (before after : List String) {p : Prefetches} (uri : String) (resolved : Bool) (now : ℕ)
      → Tasks (before ++ uri ∷ after) p
      → Tasks (before ++ after) (end_prefetch uri resolved now p)
