-- ===== src/Weights/Payload.antt =====
-- `build_weight_payload` and `validate_weight_payload`. A Decimal weight is `weight_bps / 10000`; it
-- stands here by its basis points, and 1.0 by 10000. The floats that are validated are those
-- quotients; their rounding, far below the tolerance of 1e-9, is left out. No weight is negative:
-- `validate_weight_payload` is called on what `build_weight_payload` made of the shares of a reign.
pub mod Laws
pub mod Valid
use albedo.Prelude.{
  ltb, leb, ◌==◌, if◌then◌else◌, length, sum_of, any, sort_by, Result, ok, err, ℕ, ◌+◌, ◌*◌, String,
  Bool, true, false, ◌&&◌, ◌||◌, not, Option, none, some, List, [], ◌∷◌, ◌++◌, map, str_eq,
}

pub record WeightMember : Type 0 where
  pub slot : ℕ
  pub uid : ℕ
  pub hotkey : String
  pub weight_bps : ℕ

-- The keys of the policy that `build_weight_payload` sets.
pub record PayloadPolicy : Type 0 where
  pub burn_uid : ℕ
  -- each with the hotkey that holds its uid now
  pub deregistered_slots : List (WeightMember × Option String)
  pub submitted_members : List WeightMember
  pub empty_reign_burned : Bool

pub record WeightPayload : Type 0 where
  pub uids : List ℕ
  pub weights : List ℕ
  pub policy : PayloadPolicy

-- by_uid[uid] = by_uid.get(uid, 0) + weight, for a dict in its order of insertion.
unfoldable pub add_weight : ℕ → ℕ → List (ℕ × ℕ) → List (ℕ × ℕ)
add_weight uid weight [] = (uid, weight) ∷ []
add_weight uid weight ((u, w) ∷ rest) =
    if u == uid then (u, w + weight) ∷ rest else (u, w) ∷ add_weight uid weight rest

-- uid_hotkeys.get(member.uid) == member.hotkey
unfoldable pub is_registered : (ℕ → Option String) → WeightMember → Bool
is_registered uid_hotkeys m = elim (uid_hotkeys m.uid) [
  | none ↦ false
  | some hotkey ↦ str_eq hotkey m.hotkey
]

-- The variables of the loop over the members.
pub record Tally : Type 0 where
  pub by_uid : List (ℕ × ℕ)
  pub burned_weight : ℕ
  pub submitted : List WeightMember
  pub deregistered : List (WeightMember × Option String)

unfoldable pub tally_member : (ℕ → Option String) → Tally → WeightMember → Tally
tally_member uid_hotkeys t m =
    if is_registered uid_hotkeys m
    then record t {
      by_uid = add_weight m.uid m.weight_bps t.by_uid;
      submitted = t.submitted ++ m ∷ [];
    }
    else record t {
      burned_weight = t.burned_weight + m.weight_bps;
      deregistered = t.deregistered ++ (m, uid_hotkeys m.uid) ∷ [];
    }

unfoldable pub tally : (ℕ → Option String) → Tally → List WeightMember → Tally
tally uid_hotkeys t [] = t
tally uid_hotkeys t (m ∷ members) = tally uid_hotkeys (tally_member uid_hotkeys t m) members

unfoldable pub by_member_slot : WeightMember → WeightMember → Bool
by_member_slot a b = ltb a.slot b.slot

-- The order of the key (uid != burn_uid, uid).
unfoldable pub burn_first : ℕ → ℕ × ℕ → ℕ × ℕ → Bool
burn_first burn_uid (a, _) (b, _) =
    if a == burn_uid then not (b == burn_uid) else not (b == burn_uid) && ltb a b

abbrev pub no_tally : Tally
no_tally = record { by_uid = []; burned_weight = 0; submitted = []; deregistered = [] }

-- `if burned_weight:`, and what follows it.
unfoldable pub with_burned : ℕ → Tally → List (ℕ × ℕ)
with_burned burn_uid t =
    if t.burned_weight == 0 then t.by_uid else add_weight burn_uid t.burned_weight t.by_uid

unfoldable pub final_tally : List WeightMember → (ℕ → Option String) → Tally
final_tally members uid_hotkeys = tally uid_hotkeys no_tally (sort_by by_member_slot members)

abbrev all_burned : ℕ → PayloadPolicy → WeightPayload
all_burned burn_uid policy = record { uids = burn_uid ∷ []; weights = 10000 ∷ []; policy = policy }

unfoldable pub pack : ℕ → PayloadPolicy → List (ℕ × ℕ) → WeightPayload
pack burn_uid policy [] = all_burned burn_uid policy
pack burn_uid policy (e ∷ by_uid) =
    let ordered = sort_by (burn_first burn_uid) (e ∷ by_uid) in
    record { uids = map (λ x. x.0) ordered; weights = map (λ x. x.1) ordered; policy = policy }

unfoldable pub build_weight_payload : List WeightMember → (ℕ → Option String) → ℕ → WeightPayload
unfolding pack final_tally with_burned
build_weight_payload [] uid_hotkeys burn_uid = all_burned burn_uid (record {
  burn_uid = burn_uid;
  deregistered_slots = [];
  submitted_members = [];
  empty_reign_burned = true;
})
build_weight_payload (m ∷ members) uid_hotkeys burn_uid =
    let t = final_tally (m ∷ members) uid_hotkeys in
    pack burn_uid
      (record {
        burn_uid = burn_uid;
        deregistered_slots = t.deregistered;
        submitted_members = t.submitted;
        empty_reign_burned = false;
      })
      (with_burned burn_uid t)

-- What `validate_weight_payload` raises a ValueError for.
pub data PayloadError : Type 0 where
  no_uids different_lengths non_positive_weight wrong_total : PayloadError

-- abs(total - 1.0) > 1e-9, in units of 1e-9: a basis point is 100000 of them.
unfoldable pub is_off : ℕ → Bool
is_off total = ltb 1000000001 (total * 100000) || ltb (total * 100000) 999999999

unfoldable pub validate_weight_payload : WeightPayload → Result PayloadError (Unit {0})
unfolding is_off
validate_weight_payload p =
    if length p.uids == 0
    then err no_uids
    else if not (length p.uids == length p.weights)
    then err different_lengths
    else if any (λ w. leb w 0) p.weights
    then err non_positive_weight
    else if is_off (sum_of (λ w. w) p.weights)
    then err wrong_total
    else ok tt
