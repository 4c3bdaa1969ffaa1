-- ===== src/Remote/Prefetch/Laws.antt =====
-- What the prefetching promises.
use albedo.Prelude.{
  ltb, if◌then◌else◌, Bool-cases, count, count-append, ℕ, ◌+◌, ◌≤◌, String, ◌≡◌, refl, sym, ap, ◌∙◌,
  ◌≢◌, inl, inr, Bool, true, false, List, ◌∷◌, arith, str_eq, str_eq_iff,
}
use albedo.Remote.Prefetch.{
  Answer, Prefetches, Tasks, end_prefetch, failure_cooldown, finished, is_cooling, nothing_yet,
  prefetch_model, refused, requested, started, in_progress, rejected,
}

-- A request that starts a task names a uri with no task, and marks it.
prefetch_model-started :
    (uri : String) (now : ℕ) (p p' : Prefetches)
    → prefetch_model uri now p ≡ (p', started)
    → (p.inflight uri ≡ false)
      × ((u : String) → p'.inflight u ≡ (if str_eq u uri then true else p.inflight u))
unfolding prefetch_model
prefetch_model-started uri now p p' e = elim (Bool-cases (str_eq uri "")) [
  | inl empty ↦
      let wrong : (p, rejected) ≡ (p', started) = rw (prefetch_model, empty) at e in
      absurd (rejected_ne (ap (λ r. r.1) wrong))
  | inr named ↦ elim (Bool-cases (p.inflight uri)) [
    | inl busy ↦
        let wrong : (p, in_progress) ≡ (p', started) = rw (prefetch_model, named, busy) at e in
        absurd (busy_ne (ap (λ r. r.1) wrong))
    | inr free ↦ elim (Bool-cases (is_cooling (p.failed_at uri) now)) [
      | inl cooling ↦
          let wrong : (p, failure_cooldown) ≡ (p', started) =
            rw (prefetch_model, named, free, cooling) at e in
          absurd (cooling_ne (ap (λ r. r.1) wrong))
      | inr due ↦
          let made : (marked, started) ≡ (p', started) =
            rw (prefetch_model, named, free, due) at e in
          (free, λ u. sym (ap (λ r. r.0.inflight u) made))
    ]
  ]
]
  where
    marked : Prefetches
    marked = record p { inflight = λ u. if str_eq u uri then true else p.inflight u }

    rejected_ne : rejected ≢ started
    rejected_ne h = cc

    busy_ne : in_progress ≢ started
    busy_ne h = cc

    cooling_ne : failure_cooldown ≢ started
    cooling_ne h = cc

prefetch_model-refused :
    (uri : String) (now : ℕ) (p p' : Prefetches) (answer : Answer)
    → prefetch_model uri now p ≡ (p', answer)
    → answer ≢ started
    → p' ≡ p
unfolding prefetch_model
prefetch_model-refused uri now p p' answer e other = ground arith

-- The dict of the uris in flight counts the tasks.
Tasks-inflight :
    (tasks : List String) (p : Prefetches)
    → Tasks tasks p
    → (u : String) → count (str_eq u) tasks ≡ (if p.inflight u then 1 else 0)
unfolding count end_prefetch
Tasks-inflight tasks p (nothing_yet q none_running) u = rw (none_running u) refl
Tasks-inflight tasks p (requested {p = q} uri now before e) u =
    let (free, marks) = prefetch_model-started uri now q p e in
    let earlier = Tasks-inflight _ q before u in
    elim (Bool-cases (str_eq u uri)) [
      | inl same ↦
          let off : q.inflight u ≡ false = ap q.inflight ((str_eq_iff u uri).0 same) ∙ free in
          ground (arith, same, marks u, earlier, off)
      | inr other ↦ ground (arith, other, marks u, earlier)
    ]
Tasks-inflight tasks p (refused {p = q} uri now answer before e other) u =
    rw (prefetch_model-refused uri now q p answer e other) (Tasks-inflight tasks q before u)
Tasks-inflight tasks p (finished before after {p = q} uri resolved now earlier) u =
    let counted = Tasks-inflight _ q earlier u in
    let whole = count-append (str_eq u) before (uri ∷ after) in
    let left = count-append (str_eq u) before after in
    elim (Bool-cases (str_eq u uri)) [
      | inl same ↦ ground (arith, same, counted, whole, left)
      | inr other ↦ ground (arith, other, counted, whole, left)
    ]

-- However requests and ends of tasks follow on each other, a model has at most one task at a time.
pub Tasks-le-one :
    (tasks : List String) (p : Prefetches)
    → Tasks tasks p
    → (u : String) → count (str_eq u) tasks ≤ 1
Tasks-le-one tasks p h u = ground (arith, Tasks-inflight tasks p h u)

non_empty : (uri : String) → uri ≢ "" → str_eq uri "" ≡ false
non_empty uri named = elim (Bool-cases (str_eq uri "")) [
  | inl empty ↦ absurd (named ((str_eq_iff uri "").0 empty))
  | inr other ↦ other
]

-- After a prefetch that failed, requests for the model are turned away for 900 seconds, and the first
-- one after them is let through, unless the uri is empty; after one that succeeded, at once.
pub end_prefetch-cools :
    (uri : String) (resolved : Bool) (failed_at now : ℕ) (p : Prefetches)
    → uri ≢ ""
    → (prefetch_model uri now (end_prefetch uri resolved failed_at p)).1 ≡ (
        if resolved
        then started
        else if ltb now (failed_at + 900)
        then failure_cooldown
        else started)
unfolding prefetch_model end_prefetch is_cooling
end_prefetch-cools uri true failed_at now p named =
    let self : str_eq uri uri ≡ true = (str_eq_iff uri uri).1 refl in
    let some_uri = non_empty uri named in simp (prefetch_model, end_prefetch, self, some_uri)
end_prefetch-cools uri false failed_at now p named =
    let self : str_eq uri uri ≡ true = (str_eq_iff uri uri).1 refl in
    let some_uri = non_empty uri named in
    elim (Bool-cases (ltb now (failed_at + 900))) [
      | inl early ↦ ground (arith, self, some_uri, early)
      | inr late ↦ ground (arith, self, some_uri, late)
    ]
