-- ===== src/Stdio/Fields.antt =====
-- A line of columns, as the kernel prints it to files under /proc, and `sscanf` with one conversion
-- for each column.
use metrics_monitor.Base.{
  ℕ, zero, suc, ◌<◌, ◌≡◌, ◌≢◌, refl, sym, ap, ◌∙◌, Bool, true, false, some, List, [], ◌∷◌, ◌++◌,
  arith, if◌then◌else◌, All, Bool-cases, inl, inr,
}
use metrics_monitor.Stdio.{
  Bytes, is_space, fit, skip_spaces, take_word, scan_word, scan_number, scan_signed, Directive,
  space, number, word, Value, num, text, sscanf,
}
use metrics_monitor.Stdio.Decimal.{decimal, pad, skip_spaces-pad, EndsNumber, scan_number-decimal}

-- A number with the spaces before it, of which there is one more than `before`.
pub record Column : Type 0 where
  pub before : ℕ
  pub value : ℕ

-- A column and the conversion that reads it.
pub record Field : Type 0 where
  pub suppressed : Bool
  pub long : Bool
  pub column : Column

abbrev pub shown : Column → Field
shown c = record { suppressed = false; long = true; column = c }

abbrev pub shown_int : Column → Field
shown_int c = record { suppressed = false; long = false; column = c }

abbrev pub skipped : Column → Field
skipped c = record { suppressed = true; long = false; column = c }

abbrev pub Small : Field → Type 0
Small f = f.column.value < 18446744073709551616

-- What the line has behind its first entry.
abbrev pub print : List Field → Bytes → Bytes
print [] rest = rest
print (f ∷ fs) rest = pad (suc f.column.before) ++ (decimal f.column.value ++ print fs rest)

abbrev pub conversions : List Field → List Directive → List Directive
conversions [] ds = ds
conversions (f ∷ fs) ds = space ∷ number f.suppressed f.long ∷ conversions fs ds

-- What the conversions store, with `vs` behind.
abbrev pub stored : List Field → List Value → List Value
stored [] vs = vs
stored (f ∷ fs) vs =
    let rest = stored fs vs in if f.suppressed then rest else num (fit f.long f.column.value) ∷ rest

print-EndsNumber : (fs : List Field) (rest : Bytes) → EndsNumber rest → EndsNumber (print fs rest)
unfolding pad
print-EndsNumber [] rest h = h
print-EndsNumber (f ∷ fs) rest h = refl

-- A number behind spaces, read by a conversion with or without white space before it.
sscanf-column :
    (s l : Bool) (ds : List Directive) (k n : ℕ) (rest : Bytes)
    → n < 18446744073709551616
    → EndsNumber rest
    → sscanf (number s l ∷ ds) (decimal n ++ rest)
      ≡ (if s then sscanf ds rest else num (fit l n) ∷ sscanf ds rest)
unfolding sscanf
sscanf-column s l ds k n rest small h = rw (sscanf, scan_number-decimal n rest small h) refl

pub sscanf-print :
    (fs : List Field) (ds : List Directive) (rest : Bytes)
    → All Small fs
    → EndsNumber rest
    → sscanf (conversions fs ds) (print fs rest) ≡ stored fs (sscanf ds rest)
unfolding sscanf scan_number pad
sscanf-print [] ds rest a h = refl
sscanf-print (f ∷ fs) ds rest a h =
    let tail = sscanf-print fs ds rest a.1 h in
    let n : ℕ = f.column.value in
    let k : ℕ = suc f.column.before in
    rw
      (
        skip_spaces-pad k n (print fs rest),
        sscanf-column f.suppressed f.long (conversions fs ds) k n (print fs rest) a.0
            (print-EndsNumber fs rest h),
        tail,
      )
      refl

-- Two white spaces of a format match as one.
sscanf-spaces :
    (ds : List Directive) (cs : Bytes) → sscanf (space ∷ space ∷ ds) cs ≡ sscanf (space ∷ ds) cs
unfolding sscanf skip_spaces
sscanf-spaces ds cs = ap (sscanf ds) (again cs)
  where
    again : (t : Bytes) → skip_spaces (skip_spaces t) ≡ skip_spaces t
    again [] = refl
    again (c ∷ t) = elim (Bool-cases (is_space c)) [
      | inl white ↦ rw white (again t)
      | inr visible ↦ rw visible (rw visible refl)
    ]

scan_number-pad :
    (k n : ℕ) (rest : Bytes)
    → n < 18446744073709551616
    → EndsNumber rest
    → scan_number (pad k ++ (decimal n ++ rest)) ≡ some (n, rest)
unfolding scan_number pad
scan_number-pad k n rest small h =
    ap scan_signed (skip_spaces-pad k n rest ∙ sym (skip_spaces-pad 0 n rest))
    ∙ scan_number-decimal n rest small h

-- The same with one more white space in the format.
pub sscanf-print_wide :
    (f : Field) (fs : List Field) (ds : List Directive) (rest : Bytes)
    → All Small (f ∷ fs)
    → EndsNumber rest
    → sscanf (space ∷ conversions (f ∷ fs) ds) (print (f ∷ fs) rest)
      ≡ stored (f ∷ fs) (sscanf ds rest)
sscanf-print_wide f fs ds rest a h =
    sscanf-spaces (number f.suppressed f.long ∷ conversions fs ds) (print (f ∷ fs) rest)
    ∙ sscanf-print (f ∷ fs) ds rest a h

-- A first column may have no space before it, and its conversion no white space.
pub sscanf-first :
    (s l : Bool) (ds : List Directive) (k n : ℕ) (rest : Bytes)
    → n < 18446744073709551616
    → EndsNumber rest
    → sscanf (number s l ∷ ds) (pad k ++ (decimal n ++ rest))
      ≡ (if s then sscanf ds rest else num (fit l n) ∷ sscanf ds rest)
unfolding sscanf
sscanf-first s l ds k n rest small h = rw (sscanf, scan_number-pad k n rest small h) refl

-- A word without white space.
abbrev pub Visible : Bytes → Type 0
Visible w = All (λ c. is_space c ≡ false) w × (w ≢ [])

-- The text goes on with white space.
abbrev StartsSpace : Bytes → Type 0
StartsSpace [] = ⊥
StartsSpace (c ∷ cs) = is_space c ≡ true

take_word-append :
    (w rest : Bytes)
    → All (λ c. is_space c ≡ false) w
    → StartsSpace rest
    → take_word (w ++ rest) ≡ (w, rest)
unfolding take_word
take_word-append [] [] a h = absurd h
take_word-append [] (c ∷ rest) a h = rw h refl
take_word-append (c ∷ w) rest a h = rw (a.0, take_word-append w rest a.1 h) refl

skip_spaces-word :
    (k : ℕ) (w rest : Bytes) → Visible w → skip_spaces (pad k ++ (w ++ rest)) ≡ w ++ rest
unfolding skip_spaces pad
skip_spaces-word zero [] rest v = absurd (v.1 refl)
skip_spaces-word zero (c ∷ w) rest v = rw v.0.0 refl
skip_spaces-word (suc k) w rest v = skip_spaces-word k w rest v

scan_word-at :
    (cs : Bytes) (c : ℕ) (w rest : Bytes)
    → take_word (skip_spaces cs) ≡ (c ∷ w, rest)
    → scan_word cs ≡ some (c ∷ w, rest)
unfolding scan_word
scan_word-at cs c w rest e = ground (arith, e)

scan_word-pad :
    (k : ℕ) (w rest : Bytes)
    → Visible w
    → StartsSpace rest
    → scan_word (pad k ++ (w ++ rest)) ≡ some (w, rest)
scan_word-pad k [] rest v h = absurd (v.1 refl)
scan_word-pad k (c ∷ w) rest v h =
    scan_word-at (pad k ++ (c ∷ (w ++ rest))) c w rest
      (ap take_word (skip_spaces-word k (c ∷ w) rest v) ∙ take_word-append (c ∷ w) rest v.0 h)

-- A word behind spaces, and a column behind it.
pub sscanf-word :
    (ds : List Directive) (k : ℕ) (w : Bytes) (f : Field) (fs : List Field) (rest : Bytes)
    → Visible w
    → sscanf (word ∷ ds) (pad k ++ (w ++ print (f ∷ fs) rest))
      ≡ text w ∷ sscanf ds (print (f ∷ fs) rest)
unfolding sscanf pad
sscanf-word ds k w f fs rest v = rw (sscanf, scan_word-pad k w (print (f ∷ fs) rest) v refl) refl

-- The same with white space in the format before the word.
pub sscanf-space_word :
    (ds : List Directive) (k : ℕ) (w : Bytes) (f : Field) (fs : List Field) (rest : Bytes)
    → Visible w
    → sscanf (space ∷ word ∷ ds) (pad k ++ (w ++ print (f ∷ fs) rest))
      ≡ text w ∷ sscanf ds (print (f ∷ fs) rest)
unfolding sscanf pad
sscanf-space_word ds k w f fs rest v =
    ap (sscanf (word ∷ ds)) (skip_spaces-word k w (print (f ∷ fs) rest) v)
    ∙ sscanf-word ds 0 w f fs rest v
