-- ===== src/Metrics/Counters.antt =====
-- The readers of src/metrics.c that look for one number: context switches, processes, page faults
-- and the disk statistics.
pub mod Lookup
pub mod Disk
use metrics_monitor.Base.{
  ℕ, ◌+◌, ◌%◌, ◌^◌, Option, none, some, List, [], ◌∷◌, String, ◌==◌, if◌then◌else◌,
}
use metrics_monitor.Double.{Double}
use metrics_monitor.Stdio.{
  Bytes, Directive, Value, num, text, format, sscanf, read_lines, fgets_all, directives,
}

-- `BUFFER_SIZE`.
abbrev pub buffer_size : ℕ
buffer_size = 256

-- `(unsigned long long)-1`.
abbrev pub ull_max : ℕ
ull_max = 18446744073709551615

-- The number that a line gives where exactly one is read.
unfoldable pub one_number : List Value → Option ℕ
one_number [] = none
one_number (num n ∷ []) = some n
one_number (num n ∷ v ∷ vs) = none
one_number (text t ∷ vs) = none

-- `while (fgets(...)) if (sscanf(buffer, fmt, &v) == 1) break;` with `v` before the loop.
unfoldable pub find_number : List Directive → List Bytes → ℕ → ℕ
unfolding one_number
find_number fmt [] v = v
find_number fmt (l ∷ ls) v =
    let rest = find_number fmt ls v in elim (one_number (sscanf fmt l)) [ none ↦ rest | some n ↦ n ]

-- A counter that is reported as -1 when the file or the number is missing, or the number is 0.
abbrev pub nonzero_counter : String → Option Bytes → ℕ
nonzero_counter fmt none = ull_max
nonzero_counter fmt (some content) =
    let v : ℕ = find_number (format fmt) (read_lines buffer_size content) 0 in
    if v == 0 then ull_max else v

unfoldable pub get_change_context : Option Bytes → ℕ
unfolding find_number format fgets_all sscanf
get_change_context stat = nonzero_counter "ctxt %llu" stat

unfoldable pub get_total_processes : Option Bytes → ℕ
unfolding find_number format fgets_all sscanf
get_total_processes stat = nonzero_counter "processes %llu" stat

-- The page faults, reported as 0 when the number is missing.
abbrev pub plain_counter : String → Option Bytes → ℕ
plain_counter fmt none = ull_max
plain_counter fmt (some content) = find_number (format fmt) (read_lines buffer_size content) 0

unfoldable pub get_minor_page_faults : Option Bytes → ℕ
unfolding find_number format fgets_all sscanf
get_minor_page_faults vmstat = plain_counter "pgfault %llu" vmstat

unfoldable pub get_major_page_faults : Option Bytes → ℕ
unfolding find_number format fgets_all sscanf
get_major_page_faults vmstat = plain_counter "pgmajfault %llu" vmstat

-- `read` and `write` of `get_disk_stats`.
pub record DiskStats : Type 0 where
  pub read : ℕ
  pub write : ℕ

-- What one `sscanf` stores: it stops at the first conversion that fails.
unfoldable pub store_stats : List Value → DiskStats → DiskStats
store_stats [] d = d
store_stats (num r ∷ []) d = record d { read = r }
store_stats (num r ∷ num w ∷ vs) d = record { read = r; write = w }
store_stats (num r ∷ text t ∷ vs) d = record d { read = r }
store_stats (text t ∷ vs) d = d

abbrev pub disk_format : String
disk_format = "%*u %*u sda %llu %*u %*u %*u %llu"

-- The loop ends early only if exactly one value is stored.
unfoldable pub stats_loop : List Directive → List Bytes → DiskStats → DiskStats
unfolding store_stats one_number
stats_loop fmt [] d = d
stats_loop fmt (l ∷ ls) d =
    let d' : DiskStats = store_stats (sscanf fmt l) d in
    let rest = stats_loop fmt ls d' in
    elim (one_number (sscanf fmt l)) [ none ↦ rest | some n ↦ d' ]

module _ (D : Double) where
  open D use {Carrier, of_ℕ, of_neg}

  unfoldable pub get_disk_stats : Option Bytes → Carrier
  unfolding stats_loop format fgets_all sscanf
  get_disk_stats none = of_neg 1
  get_disk_stats (some content) =
      let d : DiskStats =
        stats_loop (format disk_format) (read_lines buffer_size content)
          (record { read = 0; write = 0 }) in
      if d.read == 0 then of_neg 1 else of_ℕ ((d.read + d.write) % 18446744073709551616)
