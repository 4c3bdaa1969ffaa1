-- ===== src/Private/Reaping.antt =====
-- What `reap_expired` removes (src/private_store/controller.py).
use albedo.Prelude.{
  ==_refl, Option-cases, All, All-map, All-sort_by, select, any, All-select, In, select-In,
  select-All, ℕ, ◌-◌, ◌<◌, ◌≡◌, refl, sym, ap, ◌∙◌, ◌≢◌, inl, inr, Bool, true, Option, none, some,
  some-injective, List, [], ◌∷◌, arith,
}
use albedo.Private.{Registration, World}
use albedo.Private.Sweep.{
  Outcomes, Upload, is_protected, is_reaped, plan_reap, prefixes, protected_prefixes, reap_expired,
  same_text, text_before, reap_unprotected,
}
use albedo.Private.Controller.{prefix_of}
use albedo.Private.Again.{later}

same_text_refl : (s : List ℕ) → same_text s s ≡ true
unfolding same_text
same_text_refl [] = refl
same_text_refl (c ∷ s) = rw (==_refl c, same_text_refl s) refl

-- The prefix of every row is among those that are collected.
prefixes-any :
    (rows : List Registration) {ps : List (List ℕ)} {p : List ℕ} (r : Registration)
    → prefixes rows ≡ some ps
    → In r rows
    → prefix_of r ≡ some p
    → any (λ q. same_text q p) ps ≡ true
unfolding prefixes any
prefixes-any [] r e here mine = absurd here
prefixes-any (s ∷ rows) {ps} {p} r e here mine = elim (Option-cases (prefix_of s)) [
  | inl stops ↦ ground (arith, e, stops)
  | inr (q, first) ↦ elim (Option-cases (prefixes rows)) [
    | inl stops ↦ ground (arith, e, first, stops)
    | inr (rest, others) ↦ elim here [
      | inl same ↦
          let own : prefix_of s ≡ some p = ap prefix_of (sym same) ∙ mine in
          ground (arith, e, first, others, own, same_text_refl p)
      | inr later ↦ ground (arith, e, first, others, prefixes-any rows r others later mine)
    ]
  ]
]

module _ (o : Outcomes) (now retention : ℕ) (w : World) where
  -- Old enough, and of no row that is protected.
  abbrev pub IsExpired : Upload → Type 0
  IsExpired u =
      (u.newest_at < now - retention)
      × ((r : Registration)
          → In r w.registrations
          → is_protected o r ≡ true
          → prefix_of r ≢ some u.prefix)

  reaped-IsExpired :
      (protected : List (List ℕ)) (u : Upload)
      → protected_prefixes o w ≡ some protected
      → is_reaped (now - retention) protected u ≡ true
      → IsExpired u
  unfolding is_reaped protected_prefixes
  reaped-IsExpired protected u e hit = (
    ground (arith, hit),
    λ r here live mine. ground (
      arith,
      hit,
      prefixes-any (select (is_protected o) w.registrations) {p = u.prefix} r e
          (select-In (is_protected o) w.registrations here live) mine,
    ),
  )

  reap_unprotected-IsExpired :
      (is_removed : Upload → Bool) (retained : List Upload) {gone : List Upload}
      (found : Option (List (List ℕ)))
      → protected_prefixes o w ≡ found
      → reap_unprotected (now - retention) is_removed retained found ≡ some gone
      → All IsExpired gone
  unfolding reap_unprotected plan_reap
  reap_unprotected-IsExpired is_removed retained none e h = cc
  reap_unprotected-IsExpired is_removed retained (some protected) e h =
      let tested = is_reaped (now - retention) protected in
      let planned : All IsExpired (plan_reap (now - retention) protected retained) =
        All-sort_by (λ u v. text_before u.prefix v.prefix) IsExpired (select tested retained)
          (All-map {Q = IsExpired} (λ u hit. reaped-IsExpired protected u e hit) _
            (All-select tested retained)) in
      rw (← some-injective _ _ h) (select-All IsExpired is_removed _ planned)

  -- Every upload that reap_expired removes has its newest object before the retention window, and is not
  -- the prefix of a registration that is protected: one that is neither FAILED, nor offered a retry, nor
  -- of a submission that is over.
  pub reap_expired-IsExpired :
      (is_removed : Upload → Bool) (retained : List Upload) {gone : List Upload}
      → reap_expired o now retention is_removed retained w ≡ some gone
      → All IsExpired gone
  unfolding reap_expired
  reap_expired-IsExpired is_removed retained e =
      reap_unprotected-IsExpired is_removed retained (protected_prefixes o w) refl e
