-- ===== src/Metrics/Counters/Lookup.antt =====
-- The readers of src/metrics.c that look for one number find it, and report its absence.
use metrics_monitor.Base.{
  ℕ, ◌<◌, ◌≡◌, refl, ap, false, ◌∙◌, none, some, List, [], ◌∷◌, ◌++◌, String, arith, ◌==◌, ==-false,
  All,
}
use metrics_monitor.Double.{Double}
use metrics_monitor.Stdio.{Bytes, codes, format, sscanf, read_lines, num, space, literal}
use metrics_monitor.Stdio.Decimal.{decimal, pad, EndsNumber, sscanf-number, sscanf-nil}
use metrics_monitor.Metrics.Counters.{
  one_number, find_number, nonzero_counter, get_change_context, get_minor_page_faults, ull_max,
}
use metrics_monitor.Metrics.Memory.{get_memory_total, total_format}

-- A line from which exactly one number is not read.
abbrev pub Skipped : String → Bytes → Type 0
Skipped fmt l = one_number (sscanf (format fmt) l) ≡ none

pub find_number-skip :
    (fmt : String) (xs ys : List Bytes) (v : ℕ)
    → All (Skipped fmt) xs
    → find_number (format fmt) (xs ++ ys) v ≡ find_number (format fmt) ys v
unfolding find_number
find_number-skip fmt [] ys v a = refl
find_number-skip fmt (x ∷ xs) ys v a = rw (a.0, find_number) (find_number-skip fmt xs ys v a.1)

pub find_number-none :
    (fmt : String) (xs : List Bytes) (v : ℕ)
    → All (Skipped fmt) xs
    → find_number (format fmt) xs v ≡ v
unfolding find_number
find_number-none fmt [] v a = refl
find_number-none fmt (x ∷ xs) v a = rw (a.0, find_number) (find_number-none fmt xs v a.1)

find_number-at :
    (fmt : String) (ys : List Bytes) (l : Bytes) (n v : ℕ)
    → sscanf (format fmt) l ≡ num n ∷ []
    → find_number (format fmt) (l ∷ ys) v ≡ n
unfolding find_number
find_number-at fmt ys l n v e = rw (e, find_number) refl

-- The first line that gives a number decides.
pub find_number-first :
    (fmt : String) (xs ys : List Bytes) (l : Bytes) (n v : ℕ)
    → All (Skipped fmt) xs
    → sscanf (format fmt) l ≡ num n ∷ []
    → find_number (format fmt) (xs ++ (l ∷ ys)) v ≡ n
find_number-first fmt xs ys l n v a e =
    find_number-skip fmt xs (l ∷ ys) v a ∙ find_number-at fmt ys l n v e

-- A line of /proc/stat or /proc/vmstat: a key, one space, a number, and what follows.
abbrev pub stat_line : String → ℕ → Bytes → Bytes
stat_line key n rest = codes key ++ (pad 1 ++ (decimal n ++ rest))

nonzero_counter-reads :
    (fmt : String) (content : Bytes) (xs ys : List Bytes) (n : ℕ) (l : Bytes)
    → read_lines 256 content ≡ xs ++ (l ∷ ys)
    → All (Skipped fmt) xs
    → sscanf (format fmt) l ≡ num n ∷ []
    → 0 < n
    → nonzero_counter fmt (some content) ≡ n
nonzero_counter-reads fmt content xs ys n l e a s pos =
    let got : find_number (format fmt) (read_lines 256 content) 0 ≡ n =
      rw e (find_number-first fmt xs ys l n 0 a s) in
    ground (arith, got)

nonzero_counter-none :
    (fmt : String) (content : Bytes)
    → All (Skipped fmt) (read_lines 256 content)
    → nonzero_counter fmt (some content) ≡ ull_max
nonzero_counter-none fmt content a =
    ground (arith, find_number-none fmt (read_lines 256 content) 0 a)

ctxt_read :
    (n : ℕ) (rest : Bytes)
    → n < 18446744073709551616
    → EndsNumber rest
    → sscanf (format "ctxt %llu") (stat_line "ctxt" n rest) ≡ num n ∷ []
unfolding sscanf format
ctxt_read n rest small h = sscanf-number [] 1 n rest small h

-- When the first line of /proc/stat that gives a number, as `fgets` cuts the file, is `ctxt n`, and
-- no digit follows `n`, the reader returns `n`, for `n` from 1 to 2^64 - 1.
pub get_change_context-reads :
    (content : Bytes) (xs ys : List Bytes) (n : ℕ) (rest : Bytes)
    → read_lines 256 content ≡ xs ++ (stat_line "ctxt" n rest ∷ ys)
    → All (Skipped "ctxt %llu") xs
    → EndsNumber rest
    → 0 < n
    → n < 18446744073709551616
    → get_change_context (some content) ≡ n
unfolding get_change_context
get_change_context-reads content xs ys n rest e a h pos small =
    nonzero_counter-reads "ctxt %llu" content xs ys n (stat_line "ctxt" n rest) e a
      (ctxt_read n rest small h) pos

-- When no line of /proc/stat gives the number, the reader returns -1 as an unsigned number.
pub get_change_context-absent :
    (content : Bytes)
    → All (Skipped "ctxt %llu") (read_lines 256 content)
    → get_change_context (some content) ≡ ull_max
unfolding get_change_context
get_change_context-absent content a = nonzero_counter-none "ctxt %llu" content a

pub memtotal_read :
    (k n : ℕ) (rest : Bytes)
    → n < 18446744073709551616
    → EndsNumber rest
    → sscanf (format total_format) (codes "MemTotal:" ++ (pad k ++ (decimal n ++ rest)))
      ≡ num n ∷ []
unfolding sscanf format
memtotal_read k n rest small h =
    sscanf-number (space ∷ literal b'k' ∷ literal b'B' ∷ []) k n rest small h
    ∙ ap (λ t. num n ∷ t) (sscanf-nil (space ∷ literal b'k' ∷ literal b'B' ∷ []) rest tt)

-- When the first line of /proc/meminfo that gives a number is `MemTotal:`, any number of spaces
-- and `n`, and no digit follows, the reader returns `n` as a `double`, for `n` from 1 to 2^64 - 1.
pub get_memory_total-reads :
    (D : Double) (content : Bytes) (xs ys : List Bytes) (k n : ℕ) (rest : Bytes)
    → read_lines 256 content ≡ xs ++ ((codes "MemTotal:" ++ (pad k ++ (decimal n ++ rest))) ∷ ys)
    → All (Skipped "MemTotal: %llu kB") xs
    → EndsNumber rest
    → 0 < n
    → n < 18446744073709551616
    → get_memory_total D (some content) ≡ D.of_ℕ n
unfolding get_memory_total
get_memory_total-reads D content xs ys k n rest e a h pos small =
    let got : find_number (format total_format) (read_lines 256 content) 0 ≡ n = rw e (
      find_number-first total_format xs ys (codes "MemTotal:" ++ (pad k ++ (decimal n ++ rest))) n 0
        a (memtotal_read k n rest small h)) in
    let ne : (n == 0) ≡ false = ==-false n 0 (omega arith) in rw (got, ne) refl

-- When the first line of /proc/vmstat that gives a number is `pgfault n`, and no digit follows,
-- the reader returns `n`, for `n`
-- below 2^64.
pub get_minor_page_faults-reads :
    (content : Bytes) (xs ys : List Bytes) (n : ℕ) (rest : Bytes)
    → read_lines 256 content ≡ xs ++ (stat_line "pgfault" n rest ∷ ys)
    → All (Skipped "pgfault %llu") xs
    → EndsNumber rest
    → n < 18446744073709551616
    → get_minor_page_faults (some content) ≡ n
unfolding get_minor_page_faults sscanf format
get_minor_page_faults-reads content xs ys n rest e a h small = rw e (
    find_number-first "pgfault %llu" xs ys (stat_line "pgfault" n rest) n 0 a
      (sscanf-number [] 1 n rest small h))
