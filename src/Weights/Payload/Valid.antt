-- ===== src/Weights/Payload/Valid.antt =====
-- The payload of a reign's members passes `validate_weight_payload`.
use albedo.Prelude.{
  leb, ◌==◌, Bool-cases, IsKeyed, length, sum_of, All, length-map, sum_of-map, map-All_of,
  sum_of-sort_by, All-sort_by, sort_by-IsKeyed, any, sort_by, ok, ℕ, ◌<◌, String, ◌≡◌, refl, sym,
  ◌∙◌, ◌≢◌, ◌↔◌, inl, inr, false, Option, List, [], ◌∷◌, map, arith,
}
use albedo.Weights.Payload.{
  Tally, WeightMember, WeightPayload, add_weight, is_registered, tally, tally_member, with_burned,
  PayloadPolicy, build_weight_payload, burn_first, by_member_slot, final_tally, no_tally, pack,
  validate_weight_payload, is_off,
}
use albedo.Weights.Payload.Laws.{total-entries}

-- What `build_weight_payload` promises of its uids and weights.
pub record IsWellFormed (p : WeightPayload) : Type 0 where
  pub uids_distinct : IsKeyed (λ u. u) p.uids
  pub one_each : length p.uids ≡ length p.weights
  pub positive : All (λ w. 0 < w) p.weights
  pub whole : sum_of (λ w. w) p.weights ≡ 10000

abbrev Positive : List (ℕ × ℕ) → Type 0
Positive l = All (λ e. 0 < e.1) l

add_weight-Positive :
    (v w : ℕ) (l : List (ℕ × ℕ)) → 0 < w → Positive l → Positive (add_weight v w l)
unfolding add_weight
add_weight-Positive v w [] h p = (h, tt)
add_weight-Positive v w ((a, b) ∷ l) h p = elim (Bool-cases (a == v)) [
  | inl same ↦ rw same (omega arith, p.1)
  | inr other ↦ rw other (p.0, add_weight-Positive v w l h p.1)
]

All-add_weight :
    (k v w : ℕ) (l : List (ℕ × ℕ))
    → v ≢ k
    → All (λ e. e.0 ≢ k) l
    → All (λ e. e.0 ≢ k) (add_weight v w l)
unfolding add_weight
All-add_weight k v w [] h p = (h, tt)
All-add_weight k v w ((a, b) ∷ l) h p = elim (Bool-cases (a == v)) [
  | inl same ↦ rw same p
  | inr other ↦ rw other (p.0, All-add_weight k v w l h p.1)
]

add_weight-IsKeyed :
    (v w : ℕ) (l : List (ℕ × ℕ)) → IsKeyed (λ e. e.0) l → IsKeyed (λ e. e.0) (add_weight v w l)
unfolding add_weight
add_weight-IsKeyed v w [] h = (tt, tt)
add_weight-IsKeyed v w ((a, b) ∷ l) h = elim (Bool-cases (a == v)) [
  | inl same ↦ rw same h
  | inr other ↦
      rw other (All-add_weight a v w l (λ e. ground arith) h.0, add_weight-IsKeyed v w l h.1)
]

abbrev IsSound : List (ℕ × ℕ) → Type 0
IsSound l = IsKeyed (λ e. e.0) l × Positive l

tally_member-IsSound :
    (uid_hotkeys : ℕ → Option String) (t : Tally) (m : WeightMember)
    → 0 < m.weight_bps
    → IsSound t.by_uid
    → IsSound (tally_member uid_hotkeys t m).by_uid
unfolding tally_member
tally_member-IsSound uid_hotkeys t m h sound = elim (Bool-cases (is_registered uid_hotkeys m)) [
  | inl reg ↦ rw reg (
    add_weight-IsKeyed m.uid m.weight_bps t.by_uid sound.0,
    add_weight-Positive m.uid m.weight_bps t.by_uid h sound.1,
  )
  | inr dereg ↦ rw dereg sound
]

tally-IsSound :
    (uid_hotkeys : ℕ → Option String) (t : Tally) (ms : List WeightMember)
    → All (λ m. 0 < m.weight_bps) ms
    → IsSound t.by_uid
    → IsSound (tally uid_hotkeys t ms).by_uid
unfolding tally
tally-IsSound uid_hotkeys t [] h sound = sound
tally-IsSound uid_hotkeys t (m ∷ ms) h sound =
    tally-IsSound uid_hotkeys (tally_member uid_hotkeys t m) ms h.1
      (tally_member-IsSound uid_hotkeys t m h.0 sound)

with_burned-IsSound :
    (burn_uid : ℕ) (t : Tally) → IsSound t.by_uid → IsSound (with_burned burn_uid t)
unfolding with_burned
with_burned-IsSound burn_uid t sound = elim (Bool-cases (t.burned_weight == 0)) [
  | inl nothing ↦ rw nothing sound
  | inr some_burned ↦ rw some_burned (
    add_weight-IsKeyed burn_uid _ t.by_uid sound.0,
    add_weight-Positive burn_uid _ t.by_uid (ground arith) sound.1,
  )
]

map-IsKeyed : (l : List (ℕ × ℕ)) → IsKeyed (λ e. e.0) l → IsKeyed (λ u. u) (map (λ e. e.0) l)
map-IsKeyed [] h = tt
map-IsKeyed (e ∷ l) h = (map-All_of _ _ l h.0, map-IsKeyed l h.1)

pack-IsWellFormed :
    (burn_uid : ℕ) (policy : PayloadPolicy) (l : List (ℕ × ℕ))
    → IsSound l
    → sum_of (λ e. e.1) l ≡ 10000
    → IsWellFormed (pack burn_uid policy l)
unfolding pack
pack-IsWellFormed burn_uid policy [] sound whole = absurd (omega arith)
pack-IsWellFormed burn_uid policy (e ∷ l) sound whole =
    let before = burn_first burn_uid in
    let ordered = sort_by before (e ∷ l) in
    record {
      uids_distinct = map-IsKeyed ordered (sort_by-IsKeyed before (λ x. x.0) (e ∷ l) sound.0);
      one_each = length-map (λ x. x.0) ordered ∙ sym (length-map (λ x. x.1) ordered);
      positive =
          map-All_of (λ w. 0 < w) (λ x. x.1) ordered
            (All-sort_by before (λ x. 0 < x.1) (e ∷ l) sound.1);
      whole =
          sum_of-map (λ w. w) (λ x. x.1) ordered ∙ sum_of-sort_by before (λ x. x.1) (e ∷ l) ∙ whole;
    }

-- If every member weighs more than nothing and all of them 10000 bps, the payload has each uid
-- once, as many weights as uids, no weight of nothing, and 10000 bps in all, whoever is registered.
pub build_weight_payload-IsWellFormed :
    (members : List WeightMember) (uid_hotkeys : ℕ → Option String) (burn_uid : ℕ)
    → All (λ m. 0 < m.weight_bps) members
    → sum_of (λ m. m.weight_bps) members ≡ 10000
    → IsWellFormed (build_weight_payload members uid_hotkeys burn_uid)
unfolding build_weight_payload final_tally
build_weight_payload-IsWellFormed [] uid_hotkeys burn_uid positive whole = absurd (omega arith)
build_weight_payload-IsWellFormed (m ∷ ms) uid_hotkeys burn_uid positive whole =
    pack-IsWellFormed burn_uid _ _
      (with_burned-IsSound burn_uid (final_tally (m ∷ ms) uid_hotkeys) (
        tally-IsSound uid_hotkeys no_tally _
          (All-sort_by by_member_slot (λ x. 0 < x.weight_bps) (m ∷ ms) positive) (tt, tt)))
      (total-entries (m ∷ ms) uid_hotkeys burn_uid ∙ whole)

any_not_positive : (l : List ℕ) → any (λ w. leb w 0) l ≡ false → All (λ w. 0 < w) l
unfolding any
any_not_positive [] h = tt
any_not_positive (w ∷ l) h = (ground arith, any_not_positive l (ground arith))

not_any_positive : (l : List ℕ) → All (λ w. 0 < w) l → any (λ w. leb w 0) l ≡ false
unfolding any
not_any_positive [] h = refl
not_any_positive (w ∷ l) h = ground (arith, not_any_positive l h.1)

-- What the validation asks of uids and weights.
abbrev pub IsAccepted : List ℕ → List ℕ → Type 0
IsAccepted uids weights =
    (0 < length uids)
    × (length uids ≡ length weights)
    × All (λ w. 0 < w) weights
    × (sum_of (λ w. w) weights ≡ 10000)

-- `validate_weight_payload` raises nothing exactly if there is a uid, a weight for each uid, no
-- weight of nothing, and 10000 bps in all.
pub validate_weight_payload_iff :
    (p : WeightPayload) → (validate_weight_payload p ≡ ok tt) ↔ IsAccepted p.uids p.weights
unfolding validate_weight_payload is_off
validate_weight_payload_iff p = (
  (λ h. (ground arith, ground arith, any_not_positive p.weights (ground arith), ground arith)),
  (λ (n, e, positive, whole). ground (arith, not_any_positive p.weights positive)),
)

-- So the payload of members that each weigh more than nothing and 10000 bps in all is accepted.
pub validate-build_weight_payload :
    (members : List WeightMember) (uid_hotkeys : ℕ → Option String) (burn_uid : ℕ)
    → All (λ m. 0 < m.weight_bps) members
    → sum_of (λ m. m.weight_bps) members ≡ 10000
    → validate_weight_payload (build_weight_payload members uid_hotkeys burn_uid) ≡ ok tt
validate-build_weight_payload members uid_hotkeys burn_uid positive whole =
    let built = build_weight_payload-IsWellFormed members uid_hotkeys burn_uid positive whole in
    (validate_weight_payload_iff _).1
      (some_uid _ built, built.one_each, built.positive, built.whole)
  where
    some_uid : (p : WeightPayload) → IsWellFormed p → 0 < length p.uids
    some_uid p h = go p.uids p.weights h.one_each h.whole
      where
        go : (us ws : List ℕ) → length us ≡ length ws → sum_of (λ w. w) ws ≡ 10000 → 0 < length us
        go us [] e whole = absurd (omega arith)
        go us (w ∷ ws) e whole = omega arith
