-- ===== src/Stdio.antt =====
-- What src/metrics.c uses of the C library's input: `fgets` on the contents of a file, and
-- `sscanf` with literals, white space, `%u`, `%lu`, `%llu`, `%s` and assignment suppression.
-- Texts are lists of bytes.
pub mod Decimal
pub mod Fields
use Prim.Native.String
use Prim.Native.Char.{code}
use metrics_monitor.Base.{
  ℕ, ◌+◌, ◌-◌, ◌*◌, ◌%◌, ◌^◌, Bool, true, false, not, ◌&&◌, ◌||◌, Option, none, some, List, [], ◌∷◌,
  String, ◌==◌, ltb, leb, if◌then◌else◌,
}

abbrev pub Bytes : Type 0
Bytes = List ℕ

abbrev pub codes : String → Bytes
codes String.[] = []
codes (String.◌∷◌ c s) = code c ∷ codes s

-- Puts a byte in front of the first text.
unfoldable pub cons_head : ℕ → List Bytes → List Bytes
cons_head c [] = (c ∷ []) ∷ []
cons_head c (l ∷ ls) = (c ∷ l) ∷ ls

-- What successive calls of `fgets(buffer, n, fp)` return: each call stops behind a newline or
-- after `n - 1` bytes. `room` is what is left of the current call.
unfoldable pub fgets_all : ℕ → ℕ → Bytes → List Bytes
fgets_all n room [] = []
fgets_all n room (c ∷ cs) =
    let stop = c == 10 || room == 1 in
    let rest = fgets_all n (if stop then n - 1 else room - 1) cs in
    if stop then (c ∷ []) ∷ rest else cons_head c rest

abbrev pub read_lines : ℕ → Bytes → List Bytes
read_lines n = fgets_all n (n - 1)

-- `isspace` and `isdigit` in the C locale.
abbrev pub is_space : ℕ → Bool
is_space c = c == 32 || (leb 9 c && leb c 13)

abbrev pub is_digit : ℕ → Bool
is_digit c = leb 48 c && leb c 57

pub data Directive : Type 0 where
  space : Directive
  literal : ℕ → Directive
  -- An unsigned number, suppressed or not, `long` or not.
  number : (suppressed long : Bool) → Directive
  word : Directive

pub data Mode : Type 0 where
  plain : Mode
  conversion : (suppressed long : Bool) → Mode

-- Reads a format string.
unfoldable pub directives : Mode → Bytes → List Directive
directives m [] = []
directives plain (c ∷ cs) =
    let conv = directives (conversion false false) cs in
    let rest = directives plain cs in
    if c == b'%' then conv else if is_space c then space ∷ rest else literal c ∷ rest
directives (conversion s l) (c ∷ cs) =
    let star = directives (conversion true l) cs in
    let long = directives (conversion s true) cs in
    let rest = directives plain cs in
    if c == b'*'
    then star
    else if c == b'l'
    then long
    else if c == b'u'
    then number s l ∷ rest
    else word ∷ rest

unfoldable pub format : String → List Directive
unfolding directives
format s = directives plain (codes s)

-- A value that a conversion stores.
pub data Value : Type 0 where
  num : ℕ → Value
  text : Bytes → Value

unfoldable pub skip_spaces : Bytes → Bytes
skip_spaces [] = []
skip_spaces (c ∷ cs) = let rest = skip_spaces cs in if is_space c then rest else c ∷ cs

-- The number that the digits at the front continue from `acc`, and what follows them.
unfoldable pub take_digits : ℕ → Bytes → ℕ × Bytes
take_digits acc [] = (acc, [])
take_digits acc (c ∷ cs) =
    let rest = take_digits (acc * 10 + (c - 48)) cs in if is_digit c then rest else (acc, c ∷ cs)

unfoldable pub take_word : Bytes → Bytes × Bytes
take_word [] = ([], [])
take_word (c ∷ cs) =
    let rest = take_word cs in if is_space c then ([], c ∷ cs) else (c ∷ rest.0, rest.1)

-- `strtoull`: the largest value on overflow, the negative modulo 2^64.
abbrev pub to_ull : Bool → ℕ → ℕ
to_ull negative n =
    if ltb 18446744073709551615 n
    then 18446744073709551615
    else if negative
    then (18446744073709551616 - n) % 18446744073709551616
    else n

-- `unsigned int` keeps the low 32 bits.
abbrev pub fit : Bool → ℕ → ℕ
fit long n = if long then n else n % 4294967296

abbrev pub starts_digit : Bytes → Bool
starts_digit [] = false
starts_digit (c ∷ cs) = is_digit c

-- The magnitude behind an optional sign, or nothing where no digit stands.
unfoldable pub scan_digits : Bool → Bytes → Option (ℕ × Bytes)
unfolding take_digits
scan_digits negative cs =
    if starts_digit cs
    then some (to_ull negative (take_digits 0 cs).0, (take_digits 0 cs).1)
    else none

-- A number in front of the text, white space skipped.
unfoldable pub scan_signed : Bytes → Option (ℕ × Bytes)
unfolding scan_digits
scan_signed [] = none
scan_signed (c ∷ cs) =
    if c == b'-'
    then scan_digits true cs
    else if c == b'+'
    then scan_digits false cs
    else scan_digits false (c ∷ cs)

unfoldable pub scan_number : Bytes → Option (ℕ × Bytes)
unfolding scan_signed skip_spaces
scan_number cs = scan_signed (skip_spaces cs)

-- The first word of the text, white space skipped.
unfoldable pub scan_word : Bytes → Option (Bytes × Bytes)
unfolding take_word skip_spaces
scan_word cs =
    let w = take_word (skip_spaces cs) in elim (w.0) [ [] ↦ none | c ∷ r ↦ some (c ∷ r, w.1) ]

-- `sscanf`: the values stored until the input fails to match. Its return value is their number,
-- or EOF in place of 0.
unfoldable pub sscanf : List Directive → Bytes → List Value
sscanf [] cs = []
sscanf (space ∷ ds) cs = sscanf ds (skip_spaces cs)
sscanf (literal k ∷ ds) [] = []
sscanf (literal k ∷ ds) (c ∷ cs) = let rest = sscanf ds cs in if c == k then rest else []
sscanf (number suppressed long ∷ ds) cs = elim (scan_number cs) [
  | none ↦ []
  | some (n, rest) ↦ if suppressed then sscanf ds rest else num (fit long n) ∷ sscanf ds rest
]
sscanf (word ∷ ds) cs = elim (scan_word cs) [ none ↦ [] | some (w, rest) ↦ text w ∷ sscanf ds rest ]
