-- ===== src/Stdio/Decimal.antt =====
-- Numbers printed in decimal, as the kernel writes them to /proc, and read back by `sscanf`.
use metrics_monitor.Base.{
  ℕ, zero, suc, ◌+◌, ◌-◌, ◌*◌, ◌/◌, ◌%◌, ◌≤◌, ◌<◌, ◌≡◌, ◌≢◌, ◌⊎◌, refl, ◌∙◌, inl, inr, true, false,
  some, List, [], ◌∷◌, ◌++◌, arith, ◌==◌, ltb, if◌then◌else◌, All, Bool-cases,
}
use metrics_monitor.Pairwise.{All-append}
use metrics_monitor.Stdio.{
  Bytes, is_digit, is_space, skip_spaces, starts_digit, take_digits, scan_digits, scan_number,
  Directive, space, literal, number, word, num, sscanf,
}

-- The digits of `n`, with fuel for their number.
unfoldable pub decimal_loop : ℕ → ℕ → Bytes
decimal_loop zero n = (48 + n % 10) ∷ []
decimal_loop (suc fuel) n =
    let rest = decimal_loop fuel (n / 10) ++ ((48 + n % 10) ∷ []) in
    if ltb n 10 then (48 + n % 10) ∷ [] else rest

unfoldable pub decimal : ℕ → Bytes
unfolding decimal_loop
decimal n = decimal_loop n n

abbrev IsDigit : ℕ → Type 0
IsDigit c = (48 ≤ c) × (c ≤ 57)

abbrev Digits : Bytes → Type 0
Digits = All IsDigit

decimal_loop-Digits : (fuel n : ℕ) → Digits (decimal_loop fuel n)
unfolding decimal_loop
decimal_loop-Digits zero n = omega arith
decimal_loop-Digits (suc fuel) n = elim (Bool-cases (ltb n 10)) [
  | inl last ↦ rw last (omega arith)
  | inr more ↦ rw more (
      All-append IsDigit (decimal_loop fuel (n / 10)) _ (decimal_loop-Digits fuel (n / 10))
        (omega arith))
]

-- The number that digits continue from `acc`.
value_from : ℕ → Bytes → ℕ
value_from acc [] = acc
value_from acc (c ∷ cs) = value_from (acc * 10 + (c - 48)) cs

take_digits-append :
    (acc : ℕ) (ds rest : Bytes)
    → Digits ds
    → take_digits acc (ds ++ rest) ≡ take_digits (value_from acc ds) rest
unfolding take_digits value_from
take_digits-append acc [] rest h = refl
take_digits-append acc (c ∷ ds) rest h =
    let digit : is_digit c ≡ true = ground arith in
    rw digit (take_digits-append (acc * 10 + (c - 48)) ds rest h.1)

value_from-snoc :
    (acc d : ℕ) (ds : Bytes) → value_from acc (ds ++ (d ∷ [])) ≡ value_from acc ds * 10 + (d - 48)
unfolding value_from
value_from-snoc acc d [] = refl
value_from-snoc acc d (c ∷ ds) = value_from-snoc (acc * 10 + (c - 48)) d ds

decimal_loop-value : (fuel n : ℕ) → n ≤ fuel → value_from 0 (decimal_loop fuel n) ≡ n
unfolding decimal_loop value_from
decimal_loop-value zero n h = omega arith
decimal_loop-value (suc fuel) n h = elim (Bool-cases (ltb n 10)) [
  | inl last ↦ rw last (ground arith)
  | inr more ↦ rw more (
      value_from-snoc 0 (48 + n % 10) (decimal_loop fuel (n / 10))
      ∙ omega (arith, decimal_loop-value fuel (n / 10) (ground arith)))
]

-- The text does not go on with a digit.
abbrev pub EndsNumber : Bytes → Type 0
EndsNumber [] = Unit {0}
EndsNumber (c ∷ cs) = is_digit c ≡ false

take_digits-end : (acc : ℕ) (rest : Bytes) → EndsNumber rest → take_digits acc rest ≡ (acc, rest)
unfolding take_digits
take_digits-end acc [] h = refl
take_digits-end acc (c ∷ cs) h = rw h refl

take_digits-decimal :
    (n : ℕ) (rest : Bytes) → EndsNumber rest → take_digits 0 (decimal n ++ rest) ≡ (n, rest)
unfolding decimal
take_digits-decimal n rest h =
    take_digits-append 0 (decimal_loop n n) rest (decimal_loop-Digits n n)
    ∙ rw (decimal_loop-value n n (omega arith)) (take_digits-end n rest h)

scan_digits-plain :
    (cs rest : Bytes) (n : ℕ)
    → starts_digit cs ≡ true
    → n < 18446744073709551616
    → take_digits 0 cs ≡ (n, rest)
    → scan_digits false cs ≡ some (n, rest)
unfolding scan_digits
scan_digits-plain cs rest n h small e = rw (h, e) (ground arith)

scan_number-at :
    (cs : Bytes) (c : ℕ) (ds : Bytes) (n : ℕ) (rest : Bytes)
    → skip_spaces cs ≡ c ∷ ds
    → (c == b'-') ≡ false
    → (c == b'+') ≡ false
    → scan_digits false (c ∷ ds) ≡ some (n, rest)
    → scan_number cs ≡ some (n, rest)
unfolding scan_number
scan_number-at cs c ds n rest e m p got = ground arith

scan_at_digit :
    (ds rest : Bytes) (n : ℕ)
    → Digits ds
    → ds ≢ []
    → n < 18446744073709551616
    → take_digits 0 (ds ++ rest) ≡ (n, rest)
    → scan_number (ds ++ rest) ≡ some (n, rest)
unfolding skip_spaces
scan_at_digit [] rest n h ne small e = absurd (ne refl)
scan_at_digit (c ∷ ds) rest n h ne small e =
    let digit : is_digit c ≡ true = ground arith in
    let visible : is_space c ≡ false = ground arith in
    let minus : (c == b'-') ≡ false = ground arith in
    let plus : (c == b'+') ≡ false = ground arith in
    let got : scan_digits false (c ∷ (ds ++ rest)) ≡ some (n, rest) =
      scan_digits-plain (c ∷ (ds ++ rest)) rest n digit small e in
    let skipped : skip_spaces (c ∷ (ds ++ rest)) ≡ c ∷ (ds ++ rest) = rw visible refl in
    scan_number-at (c ∷ (ds ++ rest)) c (ds ++ rest) n rest skipped minus plus got

decimal-ne_nil : (fuel n : ℕ) → decimal_loop fuel n ≢ []
unfolding decimal_loop
decimal-ne_nil zero n e = cc
decimal-ne_nil (suc fuel) n e = snoc_ne (decimal_loop fuel (n / 10)) (ground arith)
  where
    snoc_ne : (ds : Bytes) → ((48 + n % 10) ∷ [] ≡ []) ⊎ (ds ++ ((48 + n % 10) ∷ []) ≡ []) → ⊥
    snoc_ne [] q = ground arith
    snoc_ne (d ∷ ds) q = ground arith

-- A number below 2^64, printed in decimal and followed by no further digit, is read back whole.
pub scan_number-decimal :
    (n : ℕ) (rest : Bytes)
    → n < 18446744073709551616
    → EndsNumber rest
    → scan_number (decimal n ++ rest) ≡ some (n, rest)
unfolding decimal
scan_number-decimal n rest small h =
    scan_at_digit (decimal_loop n n) rest n (decimal_loop-Digits n n) (decimal-ne_nil n n) small
      (take_digits-decimal n rest h)

-- `k` spaces.
unfoldable pub pad : ℕ → Bytes
pad zero = []
pad (suc k) = 32 ∷ pad k

skip_spaces-Digits : (ds rest : Bytes) → Digits ds → ds ≢ [] → skip_spaces (ds ++ rest) ≡ ds ++ rest
unfolding skip_spaces
skip_spaces-Digits [] rest h ne = absurd (ne refl)
skip_spaces-Digits (c ∷ ds) rest h ne =
    let visible : is_space c ≡ false = ground arith in rw visible refl

pub skip_spaces-pad :
    (k n : ℕ) (rest : Bytes) → skip_spaces (pad k ++ (decimal n ++ rest)) ≡ decimal n ++ rest
unfolding skip_spaces pad decimal
skip_spaces-pad zero n rest =
    skip_spaces-Digits (decimal_loop n n) rest (decimal_loop-Digits n n) (decimal-ne_nil n n)
skip_spaces-pad (suc k) n rest = skip_spaces-pad k n rest

-- White space and a `%llu` read a number behind any number of spaces.
pub sscanf-number :
    (ds : List Directive) (k n : ℕ) (rest : Bytes)
    → n < 18446744073709551616
    → EndsNumber rest
    → sscanf (space ∷ number false true ∷ ds) (pad k ++ (decimal n ++ rest))
      ≡ num n ∷ sscanf ds rest
unfolding sscanf
sscanf-number ds k n rest small h =
    rw (skip_spaces-pad k n rest, sscanf, scan_number-decimal n rest small h) refl

-- A format with no conversion in it stores nothing.
abbrev pub NoConversion : List Directive → Type 0
NoConversion [] = Unit {0}
NoConversion (space ∷ ds) = NoConversion ds
NoConversion (literal c ∷ ds) = NoConversion ds
NoConversion (number s l ∷ ds) = ⊥
NoConversion (word ∷ ds) = ⊥

pub sscanf-nil : (ds : List Directive) (cs : Bytes) → NoConversion ds → sscanf ds cs ≡ []
unfolding sscanf
sscanf-nil [] cs h = refl
sscanf-nil (space ∷ ds) cs h = sscanf-nil ds (skip_spaces cs) h
sscanf-nil (literal k ∷ ds) [] h = refl
sscanf-nil (literal k ∷ ds) (c ∷ cs) h = ground (arith, sscanf-nil ds cs h)
sscanf-nil (number s l ∷ ds) cs h = absurd h
sscanf-nil (word ∷ ds) cs h = absurd h
