-- ===== src/Private/Contracts.antt =====
-- The keys of the model bucket (src/private_store/contracts.py): `model_prefix` and its inverse. A text
-- that is built or taken apart is the list of its code points.
pub mod Decimals
pub mod RoundTrip
use albedo.Prelude.{
  ltb, leb, ◌==◌, if◌then◌else◌, length, ℕ, zero, suc, ◌+◌, ◌-◌, ◌*◌, ◌/◌, ◌%◌, String, Bool, true,
  false, ◌&&◌, ◌||◌, not, Option, none, some, List, [], ◌∷◌, ◌++◌,
}
use Prim.Native.Char.{code}

-- The code points of a text.
abbrev pub codes : String → List ℕ
codes String.[] = []
codes (String.◌∷◌ c s) = code c ∷ codes s

abbrev pub slash : ℕ
slash = b'/'

-- [0-9a-f] and [0-9]
unfoldable pub is_hex : ℕ → Bool
is_hex c = (leb b'0' c && leb c b'9') || (leb b'a' c && leb c b'f')

unfoldable pub is_digit : ℕ → Bool
is_digit c = leb b'0' c && leb c b'9'

unfoldable pub all : (ℕ → Bool) → List ℕ → Bool
all p [] = true
all p (c ∷ s) = p c && all p s

-- `_HEX_SHA256.fullmatch`
unfoldable pub is_hash : List ℕ → Bool
unfolding is_hex all
is_hash s = (length s == 64) && all is_hex s

-- The decimal print of an int: the last digit is printed first. `fuel` bounds the digits.
unfoldable pub print_digits : ℕ → ℕ → List ℕ → List ℕ
print_digits zero n after = after
print_digits (suc fuel) n after = elim (ltb n 10) [
  | true ↦ (b'0' + n) ∷ after
  | false ↦ print_digits fuel (n / 10) ((b'0' + n % 10) ∷ after)
]

unfoldable pub decimal : ℕ → List ℕ
unfolding print_digits
decimal n = print_digits (suc n) n []

-- `int` of digits, after those that give `n`.
unfoldable pub int_of : ℕ → List ℕ → ℕ
int_of n [] = n
int_of n (c ∷ s) = int_of (n * 10 + (c - b'0')) s

-- `model_prefix`; none where it raises.
unfoldable pub model_prefix : List ℕ → ℕ → Option (List ℕ)
unfolding is_hash decimal
model_prefix rid attempt =
    if not (is_hash rid) || ltb attempt 1
    then none
    else if attempt == 1
    then some (codes "models/registrations/" ++ rid ++ slash ∷ [])
    else some (codes "models/attempts/" ++ rid ++ slash ∷ b'a' ∷ decimal attempt ++ slash ∷ [])

-- What stands behind a literal of the pattern.
unfoldable pub strip : List ℕ → List ℕ → Option (List ℕ)
strip [] s = some s
strip (c ∷ literal) [] = none
strip (c ∷ literal) (d ∷ s) = if c == d then strip literal s else none

-- A segment of the pattern, up to the "/" that ends it: no class of the pattern has a "/".
unfoldable pub segment : List ℕ → Option (List ℕ × List ℕ)
segment [] = none
segment (c ∷ s) =
    let rest = segment s in
    if c == slash then some ([], s) else elim rest [ none ↦ none | some (t, r) ↦ some (c ∷ t, r) ]

-- [2-9]|[1-9][0-9]+
unfoldable pub is_attempt : List ℕ → Bool
unfolding is_digit all
is_attempt [] = false
is_attempt (c ∷ []) = leb b'2' c && leb c b'9'
is_attempt (c ∷ d ∷ s) = leb b'1' c && leb c b'9' && all is_digit (d ∷ s)

-- The two alternatives of CANONICAL_MODEL_PREFIX at the head of a text, and the text behind the match.
unfoldable pub match_first : List ℕ → Option ((List ℕ × ℕ) × List ℕ)
unfolding segment is_hash
match_first s = elim (segment s) [
  | none ↦ none
  | some (rid, rest) ↦ if is_hash rid then some ((rid, 1), rest) else none
]

unfoldable pub match_attempt : List ℕ → List ℕ → Option ((List ℕ × ℕ) × List ℕ)
unfolding segment is_attempt int_of
match_attempt rid [] = none
match_attempt rid (c ∷ s) = elim (segment s) [
  | none ↦ none
  | some (digits, rest) ↦
      if (c == b'a') && is_attempt digits then some ((rid, int_of 0 digits), rest) else none
]

unfoldable pub match_retry : List ℕ → Option ((List ℕ × ℕ) × List ℕ)
unfolding segment is_hash match_attempt
match_retry s = elim (segment s) [
  | none ↦ none
  | some (rid, rest) ↦ if is_hash rid then match_attempt rid rest else none
]

unfoldable pub match_prefix : List ℕ → Option ((List ℕ × ℕ) × List ℕ)
unfolding strip match_first match_retry
match_prefix s = elim (strip (codes "models/") s) [
  | none ↦ none
  | some t ↦ elim (strip (codes "registrations/") t) [
    | some u ↦ match_first u
    | none ↦ elim (strip (codes "attempts/") t) [ none ↦ none | some u ↦ match_retry u ]
  ]
]

-- `parse_model_prefix`, on a full match; none where it raises.
unfoldable pub parse_model_prefix : List ℕ → Option (List ℕ × ℕ)
unfolding match_prefix
parse_model_prefix s = elim (match_prefix s) [
  | none ↦ none
  | some (found, []) ↦ some found
  | some (found, _ ∷ _) ↦ none
]
