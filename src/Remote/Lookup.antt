-- ===== src/Remote/Lookup.antt =====
-- `get` after each of the store's writes.
use albedo.Prelude.{
  if◌then◌else◌, Bool-cases, Option-cases, update, find?, find?-In, String, ◌≡◌, refl, ap, ◌∙◌, inl,
  inr, Bool, true, false, none, some, [], ◌∷◌, ◌++◌, str_eq,
}
use mathlib.Core.Option
use albedo.Remote.{RemoteRun, Runs, change, get, has_id}

-- A change of a run that keeps its id, and that its worker has started.
abbrev pub Keeps : (RemoteRun → RemoteRun) → Type 0
Keeps f =
    (r : RemoteRun)
    → ((f r).remote_run_id ≡ r.remote_run_id)
      × (r.worker_started ≡ true → (f r).worker_started ≡ true)

pub get-change :
    (id j : String) (f : RemoteRun → RemoteRun) (runs : Runs)
    → Keeps f
    → get id (change j f runs) ≡ Option.map (λ r. if has_id j r then f r else r) (get id runs)
unfolding get change find? update has_id
get-change id j f [] keeps = refl
get-change id j f (r ∷ runs) keeps =
    let named : str_eq (f r).remote_run_id id ≡ str_eq r.remote_run_id id =
      ap (λ x. str_eq x id) (keeps r).0 in
    elim (Bool-cases (str_eq r.remote_run_id j)) [
      | inl here ↦ elim (Bool-cases (str_eq r.remote_run_id id)) [
        | inl found ↦ simp (here, named ∙ found, found)
        | inr other ↦ simp (here, named ∙ other, other) (get-change id j f runs keeps)
      ]
      | inr elsewhere ↦ elim (Bool-cases (str_eq r.remote_run_id id)) [
        | inl found ↦ simp (elsewhere, found)
        | inr other ↦ simp (elsewhere, other) (get-change id j f runs keeps)
      ]
    ]

pub get-append :
    (id : String) (runs : Runs) (run : RemoteRun)
    → get id (runs ++ run ∷ [])
      ≡ elim (get id runs) [ some r ↦ some r | none ↦ if has_id id run then some run else none ]
unfolding get find?
get-append id [] run = refl
get-append id (r ∷ runs) run = elim (Bool-cases (has_id id r)) [
  | inl found ↦ rw found refl
  | inr other ↦ rw other (get-append id runs run)
]

-- The run of the id has a worker.
unfoldable pub is_started : String → Runs → Bool
is_started id runs = elim (get id runs) [ none ↦ false | some r ↦ r.worker_started ]

pub is_started-change :
    (id j : String) (f : RemoteRun → RemoteRun) (runs : Runs)
    → Keeps f
    → is_started id runs ≡ true
    → is_started id (change j f runs) ≡ true
unfolding is_started
is_started-change id j f runs keeps h = elim (Option-cases (get id runs)) [
  | inl nothing ↦ let wrong : false ≡ true = rw (is_started, nothing) at h in cc
  | inr (r, found) ↦
      let on : r.worker_started ≡ true = rw (is_started, found) at h in
      let after : get id (change j f runs) ≡ some (if has_id j r then f r else r) =
        get-change id j f runs keeps ∙ ap (Option.map (λ q. if has_id j q then f q else q)) found in
      ap (λ o. elim o [ none ↦ false | some q ↦ q.worker_started ]) after
      ∙ (elim (Bool-cases (has_id j r)) [
        | inl here ↦ rw here ((keeps r).1 on)
        | inr elsewhere ↦ rw elsewhere on
      ])
]

pub is_started-append :
    (id : String) (runs : Runs) (run : RemoteRun)
    → is_started id runs ≡ true
    → is_started id (runs ++ run ∷ []) ≡ true
unfolding is_started
is_started-append id runs run h = elim (Option-cases (get id runs)) [
  | inl nothing ↦ let wrong : false ≡ true = rw (is_started, nothing) at h in cc
  | inr (r, found) ↦
      let on : r.worker_started ≡ true = rw (is_started, found) at h in
      rw (is_started, get-append id runs run, found) on
]

pub get-has_id :
    (id : String) (runs : Runs) {run : RemoteRun} → get id runs ≡ some run → has_id id run ≡ true
unfolding get
get-has_id id runs found = (find?-In (has_id id) runs found).1
