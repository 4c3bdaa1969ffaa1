-- ===== src/Weights/Payload/Laws.antt =====
-- What `build_weight_payload` pays to whom, and that what it builds is accepted.
use albedo.Prelude.{
  ◌==◌, if◌then◌else◌, sum_of, sort_by, sum_of-sort_by, ℕ, ◌+◌, ◌<◌, String, ◌≡◌, refl, ap, ◌∙◌,
  ◌≢◌, ◌&&◌, Option, List, [], ◌∷◌, map, arith,
}
use mathlib.Core.List.{zip}
use albedo.Weights.Payload.{
  Tally, WeightMember, WeightPayload, add_weight, is_registered, tally, tally_member, PayloadPolicy,
  build_weight_payload, burn_first, by_member_slot, final_tally, no_tally, pack, with_burned,
}

-- What the entries of a dict, and a payload, give to one uid.
abbrev pub weight_at : ℕ → List (ℕ × ℕ) → ℕ
weight_at uid = sum_of (λ e. if e.0 == uid then e.1 else 0)

pub paid : ℕ → WeightPayload → ℕ
paid uid p = weight_at uid (zip p.uids p.weights)

-- What a member with its uid and hotkey on the chain earns for `uid`, and what it leaves to burn.
abbrev pub earned : (ℕ → Option String) → ℕ → WeightMember → ℕ
earned uid_hotkeys uid m = if is_registered uid_hotkeys m && (m.uid == uid) then m.weight_bps else 0

abbrev pub lost : (ℕ → Option String) → WeightMember → ℕ
lost uid_hotkeys m = if is_registered uid_hotkeys m then 0 else m.weight_bps

weight_at-add_weight :
    (u v w : ℕ) (l : List (ℕ × ℕ))
    → weight_at u (add_weight v w l) ≡ weight_at u l + (if v == u then w else 0)
unfolding add_weight
weight_at-add_weight u v w [] = ground arith
weight_at-add_weight u v w ((a, b) ∷ l) = ground (arith, weight_at-add_weight u v w l)

total-add_weight :
    (v w : ℕ) (l : List (ℕ × ℕ)) → sum_of (λ e. e.1) (add_weight v w l) ≡ sum_of (λ e. e.1) l + w
unfolding add_weight
total-add_weight v w [] = ground arith
total-add_weight v w ((a, b) ∷ l) = ground (arith, total-add_weight v w l)

module _ (uid_hotkeys : ℕ → Option String) where
  weight_at-tally :
      (u : ℕ) (t : Tally) (ms : List WeightMember)
      → weight_at u (tally uid_hotkeys t ms).by_uid
        ≡ weight_at u t.by_uid + sum_of (earned uid_hotkeys u) ms
  unfolding tally tally_member
  weight_at-tally u t [] = omega arith
  weight_at-tally u t (m ∷ ms) = ground (
    arith,
    weight_at-tally u (tally_member uid_hotkeys t m) ms,
    weight_at-add_weight u m.uid m.weight_bps t.by_uid,
  )

  burned-tally :
      (t : Tally) (ms : List WeightMember)
      → (tally uid_hotkeys t ms).burned_weight ≡ t.burned_weight + sum_of (lost uid_hotkeys) ms
  unfolding tally tally_member
  burned-tally t [] = omega arith
  burned-tally t (m ∷ ms) = ground (arith, burned-tally (tally_member uid_hotkeys t m) ms)

  total-tally :
      (t : Tally) (ms : List WeightMember)
      → sum_of (λ e. e.1) (tally uid_hotkeys t ms).by_uid + (tally uid_hotkeys t ms).burned_weight
        ≡ sum_of (λ e. e.1) t.by_uid + t.burned_weight + sum_of (λ m. m.weight_bps) ms
  unfolding tally tally_member
  total-tally t [] = omega arith
  total-tally t (m ∷ ms) = ground (
    arith,
    total-tally (tally_member uid_hotkeys t m) ms,
    total-add_weight m.uid m.weight_bps t.by_uid,
  )

zip_unzip : (l : List (ℕ × ℕ)) → zip (map (λ e. e.0) l) (map (λ e. e.1) l) ≡ l
unfolding zip
zip_unzip [] = refl
zip_unzip ((a, b) ∷ l) = ap (λ r. (a, b) ∷ r) (zip_unzip l)

paid-pack :
    (burn_uid u : ℕ) (policy : PayloadPolicy) (l : List (ℕ × ℕ))
    → l ≢ []
    → paid u (pack burn_uid policy l) ≡ weight_at u l
unfolding paid pack
paid-pack burn_uid u policy [] some_entry = absurd (some_entry refl)
paid-pack burn_uid u policy (e ∷ l) some_entry =
    rw zip_unzip (sum_of-sort_by (burn_first burn_uid) _ (e ∷ l))

weight_at-with_burned :
    (burn_uid u : ℕ) (t : Tally)
    → weight_at u (with_burned burn_uid t)
      ≡ weight_at u t.by_uid + (if burn_uid == u then t.burned_weight else 0)
unfolding with_burned
weight_at-with_burned burn_uid u t =
    ground (arith, weight_at-add_weight u burn_uid t.burned_weight t.by_uid)

total-with_burned :
    (burn_uid : ℕ) (t : Tally)
    → sum_of (λ e. e.1) (with_burned burn_uid t) ≡ sum_of (λ e. e.1) t.by_uid + t.burned_weight
unfolding with_burned
total-with_burned burn_uid t = ground (arith, total-add_weight burn_uid t.burned_weight t.by_uid)

module _ (members : List WeightMember) (uid_hotkeys : ℕ → Option String) (burn_uid : ℕ) where
  abbrev pub entries : List (ℕ × ℕ)
  entries = with_burned burn_uid (final_tally members uid_hotkeys)

  pub total-entries : sum_of (λ e. e.1) entries ≡ sum_of (λ m. m.weight_bps) members
  unfolding final_tally
  total-entries = omega (
    arith,
    total-with_burned burn_uid (final_tally members uid_hotkeys),
    total-tally uid_hotkeys no_tally (sort_by by_member_slot members),
    sum_of-sort_by by_member_slot (λ m. m.weight_bps) members,
  )

  entries_not_nil : 0 < sum_of (λ m. m.weight_bps) members → entries ≢ []
  entries_not_nil h e = omega (arith, total-entries, ap (sum_of (λ x. x.1)) e)

  weight_at-entries :
      (u : ℕ)
      → weight_at u entries
        ≡ sum_of (earned uid_hotkeys u) members
          + (if burn_uid == u then sum_of (lost uid_hotkeys) members else 0)
  unfolding final_tally
  weight_at-entries u = ground (
    arith,
    weight_at-with_burned burn_uid u (final_tally members uid_hotkeys),
    weight_at-tally uid_hotkeys u no_tally (sort_by by_member_slot members),
    burned-tally uid_hotkeys no_tally (sort_by by_member_slot members),
    sum_of-sort_by by_member_slot (earned uid_hotkeys u) members,
    sum_of-sort_by by_member_slot (lost uid_hotkeys) members,
  )

-- Unless all weights are zero, the payload pays each uid the basis points of the members that hold
-- it on the chain under their own hotkey, and the burn uid, on top of that, those of all other
-- members; so no uid is paid for a member whose hotkey it does not hold.
pub paid-build_weight_payload :
    (members : List WeightMember) (uid_hotkeys : ℕ → Option String) (burn_uid u : ℕ)
    → 0 < sum_of (λ m. m.weight_bps) members
    → paid u (build_weight_payload members uid_hotkeys burn_uid)
      ≡ sum_of (earned uid_hotkeys u) members
        + (if burn_uid == u then sum_of (lost uid_hotkeys) members else 0)
unfolding build_weight_payload
paid-build_weight_payload [] uid_hotkeys burn_uid u h = absurd (omega arith)
paid-build_weight_payload (m ∷ ms) uid_hotkeys burn_uid u h =
    paid-pack burn_uid u _ _ (entries_not_nil (m ∷ ms) uid_hotkeys burn_uid h)
    ∙ weight_at-entries (m ∷ ms) uid_hotkeys burn_uid u
