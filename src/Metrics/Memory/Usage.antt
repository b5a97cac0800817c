-- ===== src/Metrics/Memory/Usage.antt =====
-- `get_memory_usage` of src/metrics.c finds the two amounts and gives their share.
use metrics_monitor.Base.{
  ℕ, ◌-◌, ◌≤◌, ◌<◌, ◌≡◌, refl, ap, ◌∙◌, none, some, List, [], ◌∷◌, ◌++◌, String, arith, ==-false,
  All,
}
use metrics_monitor.Double.{Double}
use metrics_monitor.Alloc.Words.{sub64}
use metrics_monitor.Stdio.{Bytes, codes, format, sscanf, read_lines, num, space, literal}
use metrics_monitor.Stdio.Decimal.{decimal, pad, EndsNumber, sscanf-number, sscanf-nil}
use metrics_monitor.Metrics.Counters.{one_number}
use metrics_monitor.Metrics.Counters.Lookup.{Skipped, memtotal_read}
use metrics_monitor.Metrics.Memory.{
  MemInfo, meminfo_loop, get_memory_usage, usage_percent, total_format, available_format,
}

-- A line that gives neither amount.
abbrev pub Other : Bytes → Type 0
Other l = Skipped "MemTotal: %llu kB" l × Skipped "MemAvailable: %llu kB" l

-- A line of /proc/meminfo: a key, some spaces, a number, and what follows.
abbrev pub amount_line : String → ℕ → ℕ → Bytes → Bytes
amount_line key k n rest = codes key ++ (pad k ++ (decimal n ++ rest))

meminfo_loop-skip :
    (xs ys : List Bytes) (i : MemInfo)
    → All Other xs
    → meminfo_loop (xs ++ ys) i ≡ meminfo_loop ys i
unfolding meminfo_loop
meminfo_loop-skip [] ys i a = refl
meminfo_loop-skip (x ∷ xs) ys i a = rw (a.0.0, a.0.1, meminfo_loop) (meminfo_loop-skip xs ys i a.1)

meminfo_loop-total :
    (l : Bytes) (ls : List Bytes) (n : ℕ) (i : MemInfo)
    → one_number (sscanf (format total_format) l) ≡ some n
    → meminfo_loop (l ∷ ls) i ≡ meminfo_loop ls (record i { total_mem = n })
unfolding meminfo_loop
meminfo_loop-total l ls n i e = rw (e, meminfo_loop) refl

meminfo_loop-available :
    (l : Bytes) (ls : List Bytes) (n : ℕ) (i : MemInfo)
    → one_number (sscanf (format total_format) l) ≡ none
    → one_number (sscanf (format available_format) l) ≡ some n
    → meminfo_loop (l ∷ ls) i ≡ record i { free_mem = n }
unfolding meminfo_loop
meminfo_loop-available l ls n i other e = rw (other, e, meminfo_loop) refl

available_read :
    (k n : ℕ) (rest : Bytes)
    → n < 18446744073709551616
    → EndsNumber rest
    → sscanf (format available_format) (amount_line "MemAvailable:" k n rest) ≡ num n ∷ []
unfolding sscanf format
available_read k n rest small h =
    sscanf-number (space ∷ literal b'k' ∷ literal b'B' ∷ []) k n rest small h
    ∙ ap (λ t. num n ∷ t) (sscanf-nil (space ∷ literal b'k' ∷ literal b'B' ∷ []) rest tt)

available_no_total :
    (k n : ℕ) (rest : Bytes)
    → one_number (sscanf (format total_format) (amount_line "MemAvailable:" k n rest)) ≡ none
unfolding sscanf format one_number
available_no_total k n rest = refl

usage_percent_lem :
    (D : Double) (i : MemInfo)
    → 0 < i.free_mem
    → i.free_mem ≤ i.total_mem
    → i.total_mem < 18446744073709551616
    → usage_percent D i
      ≡ D.mul (D.div (D.of_ℕ (i.total_mem - i.free_mem)) (D.of_ℕ i.total_mem)) (D.of_ℕ 100)
unfolding usage_percent
usage_percent_lem D i pos le small =
    let e : sub64 i.total_mem i.free_mem ≡ i.total_mem - i.free_mem = omega arith in
    rw (==-false i.total_mem 0 (omega arith), ==-false i.free_mem 0 (omega arith), e) refl

-- When /proc/meminfo has a line `MemTotal:` with `t` and behind it a line `MemAvailable:` with `a`,
-- no line before the second gives another amount, no digit follows the numbers, and
-- 0 < a ≤ t < 2^64, the reader returns 100 times the share of `t - a` in `t`; what follows the
-- second line does not matter.
pub get_memory_usage-percent :
    (D : Double) (content : Bytes) (xs ys zs : List Bytes) (j t k a : ℕ) (r q : Bytes)
    → read_lines 256 content
      ≡ xs ++ (amount_line "MemTotal:" j t r ∷ (ys ++ (amount_line "MemAvailable:" k a q ∷ zs)))
    → All Other xs
    → All Other ys
    → EndsNumber r
    → EndsNumber q
    → 0 < a
    → a ≤ t
    → t < 18446744073709551616
    → get_memory_usage D (some content) ≡ D.mul (D.div (D.of_ℕ (t - a)) (D.of_ℕ t)) (D.of_ℕ 100)
unfolding get_memory_usage one_number
get_memory_usage-percent D content xs ys zs j t k a r q e ox oy er eq pos le small =
    let start : MemInfo = record { total_mem = 0; free_mem = 0 } in
    let lt : Bytes = amount_line "MemTotal:" j t r in
    let la : Bytes = amount_line "MemAvailable:" k a q in
    let got : meminfo_loop (read_lines 256 content) start ≡ record { total_mem = t; free_mem = a } =
      rw e (
        meminfo_loop-skip xs (lt ∷ (ys ++ (la ∷ zs))) start ox
        ∙ meminfo_loop-total lt (ys ++ (la ∷ zs)) t start
            (ap one_number (memtotal_read j t r small er))
        ∙ meminfo_loop-skip ys (la ∷ zs) (record start { total_mem = t }) oy
        ∙ meminfo_loop-available la zs a (record start { total_mem = t }) (available_no_total k a q)
            (ap one_number (available_read k a q (omega arith) eq))) in
    rw got (usage_percent_lem D (record { total_mem = t; free_mem = a }) pos le small)
