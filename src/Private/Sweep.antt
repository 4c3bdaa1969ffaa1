-- ===== src/Private/Sweep.antt =====
-- The sweeps of the access controller (src/private_store/controller.py): `sweep_credentialed` and
-- `_close_upload_window`, `resubmit_terminal` and `_reset_for_retry`, `plan_reap` and `reap_expired`.
use albedo.Prelude.{
  ltb, leb, ◌==◌, if◌then◌else◌, select, any, sort_by, ℕ, suc, ◌+◌, ◌-◌, max, String, Bool, true,
  false, ◌&&◌, ◌||◌, not, Option, none, some, List, [], ◌∷◌, str_eq,
}
use albedo.Private.{Registration, RegistrationState, World, call_out, update_row}
use albedo.Private.Controller.{Answers, prefix_of, release, set_failed, store}

-- The end of `_close_upload_window`, behind its first calls.
unfoldable pub close_under :
    Answers → String → Registration → Option (List ℕ) → World × Bool → World × Bool
unfolding call_out store set_failed
close_under a reason r none (w, good) = (w, false)
close_under a reason r (some _) s =
    store r.id (set_failed a reason) (call_out a.aborting (λ v. v) s)

-- `_close_upload_window` for a row as the sweep read it, which may have changed since.
unfoldable pub close_upload_window : Answers → String → Registration → World → World × Bool
unfolding prefix_of release close_under
close_upload_window a reason r w = close_under a reason r (prefix_of r) (release a r w)

-- Why a credentialed row is closed: it is older than the window, or its prefix is over its quota.
unfoldable pub close_reason : ℕ → ℕ → (Registration → Option String) → Registration → Option String
close_reason window now quota_breach r =
    if ltb window (now - r.updated_at) then some "upload window expired" else quota_breach r

-- The rows of `sweep_credentialed`.
unfoldable pub is_credentialed : Registration → Bool
is_credentialed r = elim r.state [ RegistrationState.credentialed ↦ true | _ ↦ false ]

-- Its loop, which a raise ends; the count of closed rows.
unfoldable pub sweep :
    Answers → ℕ → (Registration → Option String) → List Registration → World → World × ℕ
unfolding close_reason close_upload_window
sweep a window quota_breach [] w = (w, 0)
sweep a window quota_breach (r ∷ rows) w = elim (close_reason window a.now quota_breach r) [
  | none ↦ sweep a window quota_breach rows w
  | some reason ↦
      let (w', closed) = close_upload_window a reason r w in
      elim closed [
        | false ↦ (w', 0)
        | true ↦ let (w'', swept) = sweep a window quota_breach rows w' in (w'', suc swept)
      ]
]

unfoldable pub sweep_credentialed : Answers → ℕ → (Registration → Option String) → World → World × ℕ
unfolding is_credentialed sweep
sweep_credentialed a window quota_breach w =
    sweep a window quota_breach (select is_credentialed w.registrations) w

-- model_submissions, as far as the sweeps read it.
pub data SubmissionEnd : Type 0 where
  complete_loss terminal_invalid terminal_infra_failed not_over : SubmissionEnd

pub record Outcomes : Type 0 where
  -- the end of a submission, and its fault_code
  pub end : ℕ → SubmissionEnd
  pub fault_code : ℕ → String
  -- `_sanity_blocked`, hotkey_preeval_fail_count and PREEVAL_MAX_FAILS
  pub is_sanity_blocked : String → Bool
  pub preeval_fail_count : String → ℕ
  pub max_strikes : ℕ

-- GREATEST(activation_block, the newest block of chain_commits)
unfoldable pub reset_for_retry : ℕ → ℕ → Registration → Registration
reset_for_retry now newest_block r = record r {
  activation_block = max r.activation_block newest_block;
  parent_token_id = none;
  credential_expires_at = none;
  model_prefix = none;
  ready_block = none;
  ready_block_hash = none;
  manifest_sha256 = none;
  model_digest = none;
  submission_id = none;
  fault_message = none;
  updated_at = now;
}

-- The rows of `resubmit_terminal`, with the submission that they join.
unfoldable pub joined : Outcomes → ℕ → Registration → Option ℕ
joined o max_attempts r = elim r.state [
  | RegistrationState.submitted ↦ elim r.submission_id [
    | none ↦ none
    | some submission ↦ elim (o.end submission) [
      | terminal_invalid ↦
          if ltb r.attempt_count (max_attempts + r.extra_attempts) then some submission else none
      | _ ↦ none
    ]
  ]
  | _ ↦ none
]

-- _BLOCKED_FAULT_CODES
unfoldable pub is_blocked_code : String → Bool
is_blocked_code c =
    str_eq c "hotkey_reregistered"
    || str_eq c "hotkey_sanity_blocked"
    || str_eq c "hotkey_preeval_blocked"
    || str_eq c "hotkey_already_validated"
    || str_eq c "hotkey_duplicate_blocked"

unfoldable pub is_blocked : Outcomes → ℕ → Registration → Bool
unfolding is_blocked_code
is_blocked o submission r =
    is_blocked_code (o.fault_code submission)
    || o.is_sanity_blocked r.hotkey
    || leb o.max_strikes (o.preeval_fail_count r.hotkey)

unfoldable pub may_retry : Outcomes → ℕ → Registration → Bool
unfolding joined is_blocked
may_retry o max_attempts r = elim (joined o max_attempts r) [
  | none ↦ false
  | some submission ↦ not (is_blocked o submission r)
]

-- The loop of `resubmit_terminal`, over the rows as it read them; the count of resets.
unfoldable pub resubmit : Outcomes → ℕ → ℕ → ℕ → List Registration → World → World × ℕ
unfolding may_retry update_row reset_for_retry
resubmit o max_attempts now newest_block [] w = (w, 0)
resubmit o max_attempts now newest_block (r ∷ rows) w = elim (may_retry o max_attempts r) [
  | false ↦ resubmit o max_attempts now newest_block rows w
  | true ↦
      let (w', reset) =
        resubmit o max_attempts now newest_block rows
          (update_row r.id (reset_for_retry now newest_block) w) in
      (w', suc reset)
]

unfoldable pub resubmit_terminal : Outcomes → ℕ → ℕ → ℕ → World → World × ℕ
unfolding resubmit
resubmit_terminal o max_attempts now newest_block w =
    resubmit o max_attempts now newest_block w.registrations w

-- A prefix of the bucket with the time of its newest object.
pub record Upload : Type 0 where
  pub prefix : List ℕ
  pub newest_at : ℕ

unfoldable pub same_text : List ℕ → List ℕ → Bool
same_text [] [] = true
same_text (c ∷ s) (d ∷ t) = (c == d) && same_text s t
same_text _ _ = false

-- `plan_reap`, before its prefixes are sorted.
unfoldable pub is_reaped : ℕ → List (List ℕ) → Upload → Bool
unfolding same_text
is_reaped cutoff protected u =
    ltb u.newest_at cutoff && not (any (λ p. same_text p u.prefix) protected)

-- Python's order of texts.
unfoldable pub text_before : List ℕ → List ℕ → Bool
text_before _ [] = false
text_before [] (d ∷ t) = true
text_before (c ∷ s) (d ∷ t) = ltb c d || ((c == d) && text_before s t)

unfoldable pub plan_reap : ℕ → List (List ℕ) → List Upload → List Upload
unfolding text_before is_reaped
plan_reap cutoff protected retained =
    sort_by (λ u v. text_before u.prefix v.prefix) (select (is_reaped cutoff protected) retained)

-- The WHERE of `_protected_prefixes`.
unfoldable pub is_protected : Outcomes → Registration → Bool
is_protected o r =
    (elim r.state [
      | RegistrationState.failed ↦ false
      | RegistrationState.submitted ↦ elim r.submission_id [ none ↦ false | some _ ↦ true ]
      | _ ↦ true
    ])
    && (elim r.submission_id [
      | none ↦ true
      | some submission ↦ elim (o.end submission) [ not_over ↦ true | _ ↦ false ]
    ])

-- `_protected_prefixes`; none where `_prefix_of` raises.
unfoldable pub prefixes : List Registration → Option (List (List ℕ))
unfolding prefix_of
prefixes [] = some []
prefixes (r ∷ rows) = elim (prefix_of r) [
  | none ↦ none
  | some p ↦ elim (prefixes rows) [ none ↦ none | some rest ↦ some (p ∷ rest) ]
]

unfoldable pub protected_prefixes : Outcomes → World → Option (List (List ℕ))
unfolding is_protected prefixes
protected_prefixes o w = prefixes (select (is_protected o) w.registrations)

-- The removals of `reap_expired`. One that raises is left for the next sweep.
unfoldable pub reap_unprotected :
    ℕ → (Upload → Bool) → List Upload → Option (List (List ℕ)) → Option (List Upload)
unfolding plan_reap
reap_unprotected cutoff is_removed retained none = none
reap_unprotected cutoff is_removed retained (some protected) =
    some (select is_removed (plan_reap cutoff protected retained))

-- `reap_expired`: the uploads that it removes; none where the prefixes of the rows raise.
unfoldable pub reap_expired :
    Outcomes → ℕ → ℕ → (Upload → Bool) → List Upload → World → Option (List Upload)
unfolding protected_prefixes reap_unprotected
reap_expired o now retention is_removed retained w =
    reap_unprotected (now - retention) is_removed retained (protected_prefixes o w)
