-- ===== src/Private/Contracts/Decimals.antt =====
-- The decimal print of an attempt, and reading it back (src/private_store/contracts.py).
use albedo.Prelude.{
  ℕ, zero, suc, ◌+◌, ◌-◌, ◌*◌, ◌/◌, ◌%◌, ◌≤◌, ◌<◌, ◌≡◌, refl, ◌∙◌, Bool, true, List, [], ◌∷◌, ◌++◌,
  arith,
}
use albedo.Private.Contracts.{all, decimal, int_of, is_attempt, is_digit, print_digits}

pub all-append :
    (p : ℕ → Bool) (s t : List ℕ) → all p s ≡ true → all p t ≡ true → all p (s ++ t) ≡ true
unfolding all
all-append p [] t hs ht = ht
all-append p (c ∷ s) t hs ht = ground (arith, all-append p s t)

all_cons :
    (p : ℕ → Bool) (c : ℕ) (s : List ℕ) → all p (c ∷ s) ≡ true → (p c ≡ true) × (all p s ≡ true)
unfolding all
all_cons p c s h = ground arith

attempt_cons :
    (c d : ℕ) (s : List ℕ)
    → is_attempt (c ∷ d ∷ s) ≡ true
    → ((b'1' ≤ c) × (c ≤ b'9')) × (all is_digit (d ∷ s) ≡ true)
unfolding is_attempt
attempt_cons c d s h = ground arith

single :
    (c : ℕ)
    → b'1' ≤ c
    → c ≤ b'9'
    → (after : List ℕ)
    → print_digits (suc (0 * 10 + (c - b'0'))) (0 * 10 + (c - b'0')) after ≡ c ∷ after
unfolding print_digits
single c low high after = ground arith

int_of-print_digits :
    (fuel n : ℕ) (after : List ℕ) → n < fuel → int_of 0 (print_digits fuel n after) ≡ int_of n after
unfolding print_digits int_of
int_of-print_digits zero n after h = absurd (omega arith)
int_of-print_digits (suc fuel) n after h =
    grind (arith, int_of-print_digits fuel (n / 10) ((b'0' + n % 10) ∷ after))

digits-print_digits :
    (fuel n : ℕ) (after : List ℕ)
    → all is_digit after ≡ true
    → all is_digit (print_digits fuel n after) ≡ true
unfolding print_digits all is_digit
digits-print_digits zero n after h = h
digits-print_digits (suc fuel) n after h =
    ground (arith, digits-print_digits fuel (n / 10) ((b'0' + n % 10) ∷ after))

-- A print starts with its first significant digit.
attempt-print_digits :
    (fuel n : ℕ) (c : ℕ) (after : List ℕ)
    → 0 < n
    → n < fuel
    → all is_digit (c ∷ after) ≡ true
    → is_attempt (print_digits fuel n (c ∷ after)) ≡ true
unfolding print_digits is_attempt all is_digit
attempt-print_digits zero n c after pos h good = absurd (omega arith)
attempt-print_digits (suc fuel) n c after pos h good =
    ground (arith, attempt-print_digits fuel (n / 10) (b'0' + n % 10) (c ∷ after))

pub int_of-decimal : (n : ℕ) → int_of 0 (decimal n) ≡ n
unfolding decimal int_of
int_of-decimal n = int_of-print_digits (suc n) n [] (omega arith)

pub digits-decimal : (n : ℕ) → all is_digit (decimal n) ≡ true
unfolding decimal all
digits-decimal n = digits-print_digits (suc n) n [] refl

pub attempt-decimal : (n : ℕ) → 1 < n → is_attempt (decimal n) ≡ true
unfolding decimal print_digits is_attempt all is_digit
attempt-decimal n h = ground (arith, attempt-print_digits n (n / 10) (b'0' + n % 10) [])

-- The fuel does not matter, once it is above the number.
print_digits_fuel :
    (fuel fuel' n : ℕ) (after : List ℕ)
    → n < fuel
    → n < fuel'
    → print_digits fuel n after ≡ print_digits fuel' n after
unfolding print_digits
print_digits_fuel zero fuel' n after h h' = absurd (omega arith)
print_digits_fuel (suc fuel) zero n after h h' = absurd (omega arith)
print_digits_fuel (suc fuel) (suc fuel') n after h h' =
    ground (arith, print_digits_fuel fuel fuel' (n / 10) ((b'0' + n % 10) ∷ after))

int_of-le : (n : ℕ) (s : List ℕ) → n ≤ int_of n s
unfolding int_of
int_of-le n [] = omega arith
int_of-le n (c ∷ s) = omega (arith, int_of-le (n * 10 + (c - b'0')) s)

-- One more digit behind `n` is one more round of the print.
print_digits-digit :
    (n c : ℕ) (s : List ℕ) (fuel fuel' : ℕ)
    → 0 < n
    → is_digit c ≡ true
    → n * 10 + (c - b'0') < fuel
    → n < fuel'
    → print_digits fuel (n * 10 + (c - b'0')) s ≡ print_digits fuel' n (c ∷ s)
unfolding print_digits is_digit
print_digits-digit n c s zero fuel' pos good h h' = absurd (omega arith)
print_digits-digit n c s (suc fuel) fuel' pos good h h' =
    ground (arith, print_digits_fuel fuel fuel' n (c ∷ s))

-- Printing what digits spell behind `n` is printing `n` before them.
print_digits-int_of :
    (n : ℕ) (s : List ℕ) (fuel fuel' : ℕ)
    → 0 < n
    → all is_digit s ≡ true
    → int_of n s < fuel
    → n < fuel'
    → print_digits fuel (int_of n s) [] ≡ print_digits fuel' n s
unfolding int_of all
print_digits-int_of n [] fuel fuel' pos good h h' = print_digits_fuel fuel fuel' n [] h h'
print_digits-int_of n (c ∷ s) fuel fuel' pos good h h' =
    let m = n * 10 + (c - b'0') in
    let (first, rest) = all_cons is_digit c s good in
    print_digits-int_of m s fuel (suc m) (omega arith) rest h (omega arith)
    ∙ print_digits-digit n c s (suc m) fuel' pos first (omega arith) h'

pub decimal-int_of : (s : List ℕ) → is_attempt s ≡ true → decimal (int_of 0 s) ≡ s
unfolding decimal is_attempt int_of print_digits
decimal-int_of [] h = cc
decimal-int_of (c ∷ []) h = ground arith
decimal-int_of (c ∷ d ∷ s) h =
    let (head, rest) = attempt_cons c d s h in
    let n = 0 * 10 + (c - b'0') in
    let value = int_of n (d ∷ s) in
    print_digits-int_of n (d ∷ s) (suc value) (suc n) (omega arith) rest (omega arith) (omega arith)
    ∙ single c head.0 head.1 (d ∷ s)

pub attempt_above : (s : List ℕ) → is_attempt s ≡ true → 1 < int_of 0 s
unfolding is_attempt int_of
attempt_above [] h = cc
attempt_above (c ∷ []) h = ground arith
attempt_above (c ∷ d ∷ s) h = ground (arith, int_of-le ((0 * 10 + (c - b'0')) * 10 + (d - b'0')) s)
