-- ===== src/Private/Contracts/RoundTrip.antt =====
-- `model_prefix` and `parse_model_prefix` undo each other (src/private_store/contracts.py).
use albedo.Prelude.{
  ==_refl, Option-cases, ℕ, ◌<◌, ◌≡◌, refl, ap, ◌∙◌, ◌≢◌, inl, inr, Bool, true, some,
  some-injective, List, [], ◌∷◌, ◌++◌, arith,
}
use mathlib.Core.List.{append_assoc, append-nil}
use albedo.Private.Contracts.{
  all, decimal, is_digit, is_hash, is_hex, match_attempt, match_first, match_prefix, match_retry,
  model_prefix, segment, slash, strip, codes, parse_model_prefix,
}
use albedo.Private.Contracts.Decimals.{
  attempt-decimal, digits-decimal, int_of-decimal, attempt_above, decimal-int_of,
}

strip-append : (literal s : List ℕ) → strip literal (literal ++ s) ≡ some s
unfolding strip
strip-append [] s = refl
strip-append (c ∷ literal) s = rw (==_refl c) (strip-append literal s)

strip_sound : (literal s : List ℕ) {t : List ℕ} → strip literal s ≡ some t → s ≡ literal ++ t
unfolding strip
strip_sound [] s h = some-injective _ _ h
strip_sound (c ∷ literal) [] h = cc
strip_sound (c ∷ literal) (d ∷ s) {t} h = ground (arith, strip_sound literal s {t = t})

-- A class of the pattern that has no "/".
abbrev NoSlash : (ℕ → Bool) → Type 0
NoSlash p = (c : ℕ) → p c ≡ true → c ≢ slash

hex-NoSlash : NoSlash is_hex
unfolding is_hex
hex-NoSlash c h = ground arith

digit-NoSlash : NoSlash is_digit
unfolding is_digit
digit-NoSlash c h = ground arith

segment-append :
    (p : ℕ → Bool)
    → NoSlash p
    → (t s : List ℕ) → all p t ≡ true
    → segment (t ++ slash ∷ s) ≡ some (t, s)
unfolding segment all
segment-append p free [] s h = refl
segment-append p free (c ∷ t) s h = ground (arith, free c, segment-append p free t s)

segment_sound : (s : List ℕ) {t r : List ℕ} → segment s ≡ some (t, r) → s ≡ t ++ slash ∷ r
unfolding segment
segment_sound [] h = cc
segment_sound (c ∷ s) {t} {r} h = elim (Option-cases (segment s)) [
  | inl no_slash ↦ ground (arith, no_slash)
  | inr ((t', r'), found) ↦ ground (arith, found, segment_sound s found)
]

hash-hex : (rid : List ℕ) → is_hash rid ≡ true → all is_hex rid ≡ true
unfolding is_hash
hash-hex rid h = ground arith

first_lem :
    (rid s : List ℕ) → is_hash rid ≡ true → match_first (rid ++ slash ∷ s) ≡ some ((rid, 1), s)
unfolding match_first
first_lem rid s h = ground (arith, segment-append is_hex hex-NoSlash rid s (hash-hex rid h))

attempt_lem :
    (rid s : List ℕ) (attempt : ℕ)
    → 1 < attempt
    → match_attempt rid (b'a' ∷ decimal attempt ++ slash ∷ s) ≡ some ((rid, attempt), s)
unfolding match_attempt
attempt_lem rid s attempt h = ground (
  arith,
  segment-append is_digit digit-NoSlash (decimal attempt) s (digits-decimal attempt),
  attempt-decimal attempt h,
  int_of-decimal attempt,
)

retry_lem :
    (rid rest : List ℕ)
    → is_hash rid ≡ true
    → match_retry (rid ++ slash ∷ rest) ≡ match_attempt rid rest
unfolding match_retry
retry_lem rid rest h = ground (arith, segment-append is_hex hex-NoSlash rid rest (hash-hex rid h))

first_prefix :
    (rid s : List ℕ)
    → is_hash rid ≡ true
    → match_prefix ((codes "models/registrations/" ++ rid ++ slash ∷ []) ++ s) ≡ some ((rid, 1), s)
unfolding match_prefix strip
first_prefix rid s h = ap match_first (append_assoc rid (slash ∷ []) s) ∙ first_lem rid s h

retry_prefix :
    (rid s : List ℕ) (attempt : ℕ)
    → is_hash rid ≡ true
    → 1 < attempt
    → match_prefix
        ((codes "models/attempts/" ++ rid ++ slash ∷ b'a' ∷ decimal attempt ++ slash ∷ []) ++ s)
      ≡ some ((rid, attempt), s)
unfolding match_prefix strip
retry_prefix rid s attempt h more =
    ap match_retry (
      append_assoc (rid ++ slash ∷ b'a' ∷ decimal attempt) (slash ∷ []) s
      ∙ append_assoc rid (slash ∷ b'a' ∷ decimal attempt) (slash ∷ s))
    ∙ retry_lem rid (b'a' ∷ decimal attempt ++ slash ∷ s) h
    ∙ attempt_lem rid s attempt more

-- The match at the head of any text finds the prefix that the text starts with, and what follows it.
pub match-model_prefix :
    (rid : List ℕ) (attempt : ℕ) (s : List ℕ) {prefix : List ℕ}
    → model_prefix rid attempt ≡ some prefix
    → match_prefix (prefix ++ s) ≡ some ((rid, attempt), s)
unfolding model_prefix
match-model_prefix rid attempt s {prefix} h =
    grind (arith, first_prefix rid s, retry_prefix rid s attempt)

-- parse_model_prefix reads back the registration and the attempt of any prefix that model_prefix
-- builds.
pub parse-model_prefix :
    (rid : List ℕ) (attempt : ℕ) {prefix : List ℕ}
    → model_prefix rid attempt ≡ some prefix
    → parse_model_prefix prefix ≡ some (rid, attempt)
unfolding parse_model_prefix
parse-model_prefix rid attempt {prefix} h =
    ground (arith, append-nil prefix, match-model_prefix rid attempt [] h)

-- Of two prefixes that model_prefix builds, neither starts with the other, unless they are of one
-- registration and one attempt.
pub model_prefix-apart :
    (rid rid' : List ℕ) (attempt attempt' : ℕ) (s : List ℕ) {prefix prefix' : List ℕ}
    → model_prefix rid attempt ≡ some prefix
    → model_prefix rid' attempt' ≡ some prefix'
    → prefix ≡ prefix' ++ s
    → (rid ≡ rid') × (attempt ≡ attempt') × (s ≡ [])
model_prefix-apart rid rid' attempt attempt' s {prefix} {prefix'} h h' e = ground (
  arith,
  append-nil prefix,
  match-model_prefix rid attempt [] h,
  match-model_prefix rid' attempt' s h',
)

segments_sound :
    (s : List ℕ) (rid rest : List ℕ) (attempt : ℕ)
    → match_first s ≡ some ((rid, attempt), rest)
    → (s ≡ rid ++ slash ∷ rest) × (is_hash rid ≡ true) × (attempt ≡ 1)
unfolding match_first
segments_sound s rid rest attempt h = elim (Option-cases (segment s)) [
  | inl stops ↦ ground (arith, stops)
  | inr ((t, r), found) ↦ ground (arith, found, segment_sound s found)
]

attempt_sound :
    (rid s rid' rest : List ℕ) (attempt : ℕ)
    → match_attempt rid s ≡ some ((rid', attempt), rest)
    → (rid ≡ rid') × (1 < attempt) × (s ≡ b'a' ∷ decimal attempt ++ slash ∷ rest)
unfolding match_attempt
attempt_sound rid [] rid' rest attempt h = cc
attempt_sound rid (c ∷ s) rid' rest attempt h = elim (Option-cases (segment s)) [
  | inl stops ↦ ground (arith, stops)
  | inr ((t, r), found) ↦
      ground (arith, found, segment_sound s found, decimal-int_of t, attempt_above t)
]

retry_sound :
    (s : List ℕ) (rid rest : List ℕ) (attempt : ℕ)
    → match_retry s ≡ some ((rid, attempt), rest)
    → (s ≡ rid ++ (slash ∷ (b'a' ∷ decimal attempt ++ slash ∷ rest)))
      × (is_hash rid ≡ true)
      × (1 < attempt)
unfolding match_retry
retry_sound s rid rest attempt h = elim (Option-cases (segment s)) [
  | inl stops ↦ ground (arith, stops)
  | inr ((t, r), found) ↦
      ground (arith, found, segment_sound s found, attempt_sound t r rid rest attempt)
]

-- What a full match is made of: the two alternatives of the pattern.
match_sound :
    (s : List ℕ) (rid : List ℕ) (attempt : ℕ)
    → match_prefix s ≡ some ((rid, attempt), [])
    → model_prefix rid attempt ≡ some s
unfolding match_prefix model_prefix
match_sound s rid attempt h = elim (Option-cases (strip (codes "models/") s)) [
  | inl other ↦ ground (arith, other)
  | inr (t, models) ↦ elim (Option-cases (strip (codes "registrations/") t)) [
    | inr (u, first) ↦ ground (
      arith,
      strip_sound (codes "models/") s models,
      strip_sound (codes "registrations/") t first,
      models,
      first,
      segments_sound u rid [] attempt,
    )
    | inl not_first ↦ elim (Option-cases (strip (codes "attempts/") t)) [
      | inl other ↦ ground (arith, models, not_first, other)
      | inr (u, retry) ↦ ground (
        arith,
        strip_sound (codes "models/") s models,
        strip_sound (codes "attempts/") t retry,
        models,
        not_first,
        retry,
        retry_sound u rid [] attempt,
        append_assoc rid (slash ∷ b'a' ∷ decimal attempt) (slash ∷ []),
      )
    ]
  ]
]

-- What parse_model_prefix accepts is what model_prefix builds for the registration and the attempt
-- that it finds.
pub model_prefix-parse :
    (prefix : List ℕ) (rid : List ℕ) (attempt : ℕ)
    → parse_model_prefix prefix ≡ some (rid, attempt)
    → model_prefix rid attempt ≡ some prefix
unfolding parse_model_prefix
model_prefix-parse prefix rid attempt h = ground (arith, match_sound prefix rid attempt)
