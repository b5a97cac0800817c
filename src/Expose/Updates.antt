-- ===== src/Expose/Updates.antt =====
-- What the functions of src/expose_metrics.c publish when a reading fails or is large.
use metrics_monitor.Base.{ℕ, ◌-◌, ◌≤◌, ◌<◌, ◌≡◌, refl, true, some, List, ◌∷◌, ◌++◌, arith, All}
use metrics_monitor.Double.{Double}
use metrics_monitor.Stdio.{Bytes, read_lines}
use metrics_monitor.Stdio.Decimal.{EndsNumber}
use metrics_monitor.Metrics.Counters.Lookup.{
  Skipped, stat_line, get_change_context-absent, get_minor_page_faults-reads,
}
use metrics_monitor.Expose.{
  Gauge, set, error, World, nonneg, negative, to_int, update_change_context_gauge,
  update_minor_page_faults_gauge,
}

-- No conversion from an unsigned integer is negative, as in IEEE 754.
abbrev pub Unsigned : Double → Type 0
Unsigned D = (n : ℕ) → D.is_nonneg (D.of_ℕ n) ≡ true

to_int_large : (n : ℕ) → 2147483648 ≤ n → n < 4294967296 → to_int n ≡ negative (4294967296 - n)
unfolding to_int
to_int_large n lo hi = ground arith

to_int_small : (n : ℕ) → n < 2147483648 → to_int n ≡ nonneg n
unfolding to_int
to_int_small n hi = ground arith

-- When no line of /proc/stat gives the number of context switches, the gauge is still set, to
-- 2^64 - 1, since the error value -1 is unsigned and no `double` made from an unsigned number is
-- negative.
pub update_change_context_gauge-absent :
    (D : Double) (w : World) (content : Bytes)
    → Unsigned D
    → w.stat ≡ some content
    → All (Skipped "ctxt %llu") (read_lines 256 content)
    → update_change_context_gauge D w ≡ set Gauge.change_context (D.of_ℕ 18446744073709551615)
unfolding update_change_context_gauge
update_change_context_gauge-absent D w content u e a =
    rw (e, get_change_context-absent content a, u 18446744073709551615) refl

-- When the first line of /proc/vmstat that gives the minor page faults is `pgfault n` with
-- 2^31 ≤ n < 2^32, and no digit follows, the gauge is not set and
-- an error is printed, since the count becomes a negative `int`.
pub update_minor_page_faults_gauge-large :
    (D : Double) (w : World) (content : Bytes) (xs ys : List Bytes) (n : ℕ) (rest : Bytes)
    → w.vmstat ≡ some content
    → read_lines 256 content ≡ xs ++ (stat_line "pgfault" n rest ∷ ys)
    → All (Skipped "pgfault %llu") xs
    → EndsNumber rest
    → 2147483648 ≤ n
    → n < 4294967296
    → update_minor_page_faults_gauge D w
      ≡ error Gauge.minor_page_faults "Error al obtener los fallos de página menores"
unfolding update_minor_page_faults_gauge
update_minor_page_faults_gauge-large D w content xs ys n rest e r a h lo hi =
    rw
      (
        e,
        get_minor_page_faults-reads content xs ys n rest r a h (omega arith),
        to_int_large n lo hi,
      )
      refl

-- When the first line of /proc/vmstat that gives the minor page faults is `pgfault n` with
-- n < 2^31, and no digit follows, the gauge is set to `n`.
pub update_minor_page_faults_gauge-small :
    (D : Double) (w : World) (content : Bytes) (xs ys : List Bytes) (n : ℕ) (rest : Bytes)
    → w.vmstat ≡ some content
    → read_lines 256 content ≡ xs ++ (stat_line "pgfault" n rest ∷ ys)
    → All (Skipped "pgfault %llu") xs
    → EndsNumber rest
    → n < 2147483648
    → update_minor_page_faults_gauge D w ≡ set Gauge.minor_page_faults (D.of_ℕ n)
unfolding update_minor_page_faults_gauge
update_minor_page_faults_gauge-small D w content xs ys n rest e r a h hi =
    rw (e, get_minor_page_faults-reads content xs ys n rest r a h (omega arith), to_int_small n hi)
      refl
