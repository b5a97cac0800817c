-- ===== src/Metrics/Traffic.antt =====
-- The readers of src/metrics.c that sum over lines: disk sectors and network bytes.
pub mod Growth
pub mod Lines
use metrics_monitor.Base.{
  ℕ, ◌+◌, ◌-◌, ◌*◌, ◌%◌, Bool, true, false, Option, none, some, List, [], ◌∷◌, String, leb,
  if◌then◌else◌,
}
use metrics_monitor.Double.{Double}
use metrics_monitor.Alloc.Words.{add64, sub64}
use metrics_monitor.Stdio.{
  Bytes, Directive, Value, num, text, format, sscanf, read_lines, fgets_all,
}
use metrics_monitor.Metrics.Counters.{buffer_size}

-- `SECTOR_SIZE`.
abbrev pub sector_size : ℕ
sector_size = 512

-- Two counters: sectors read and written, or bytes received and sent.
pub record Traffic : Type 0 where
  pub rx : ℕ
  pub tx : ℕ

abbrev pub no_traffic : Traffic
no_traffic = record { rx = 0; tx = 0 }

-- Adds the counters of one line, if the line was read completely.
abbrev pub add_traffic : Option Traffic → Traffic → Traffic
add_traffic none t = t
add_traffic (some l) t = record { rx = add64 t.rx l.rx; tx = add64 t.tx l.tx }

-- `while (fgets(...)) if (sscanf(...) == n) { ... }`, the test and the values taken by `read`.
unfoldable pub sum_lines : (Bytes → Option Traffic) → List Bytes → Traffic → Traffic
sum_lines read [] t = t
sum_lines read (l ∷ ls) t = sum_lines read ls (add_traffic (read l) t)

abbrev pub net_format : String
net_format = "%s %llu %*u %*u %*u %*u %*u %*u %*u %llu"

-- The three values of a line of /proc/net/dev.
unfoldable pub net_values : List Value → Option Traffic
net_values (text w ∷ num r ∷ num t ∷ []) = some (record { rx = r; tx = t })
net_values _ = none

unfoldable pub read_net : Bytes → Option Traffic
unfolding net_values format sscanf
read_net l = net_values (sscanf (format net_format) l)

abbrev pub diskstats_format : String
diskstats_format = "%u %u %s %*u %*u %lu %*u %*u %*u %lu"

-- The five values of a line of /proc/diskstats.
unfoldable pub disk_values : List Value → Option Traffic
disk_values (num major ∷ num minor ∷ text w ∷ num r ∷ num t ∷ []) = some (record { rx = r; tx = t })
disk_values _ = none

unfoldable pub read_disk : Bytes → Option Traffic
unfolding disk_values format sscanf
read_disk l = disk_values (sscanf (format diskstats_format) l)

-- The two calls of `fgets` that skip the headings.
abbrev pub skip_headings : List Bytes → List Bytes
skip_headings [] = []
skip_headings (a ∷ []) = []
skip_headings (a ∷ b ∷ ls) = ls

unfoldable pub net_traffic : Bytes → Traffic
unfolding sum_lines read_net fgets_all
net_traffic content =
    sum_lines read_net (skip_headings (read_lines (buffer_size * 2) content)) no_traffic

-- The growth of both counters since the last call, summed.
unfoldable pub growth : Traffic → Traffic → ℕ
growth prev now = add64 (sub64 now.rx prev.rx) (sub64 now.tx prev.tx)

-- The static variables of `get_average_bandwidth`.
pub record Bandwidth : Type 0 where
  pub prev : Traffic
  pub last_time : ℕ

module _ (D : Double) where
  open D use {Carrier, of_ℕ, of_neg, mul, div}

  -- `1024.0 * 1024.0`.
  abbrev pub mega : Carrier
  mega = mul (of_ℕ 1024) (of_ℕ 1024)

  -- `get_disk_usage`: `closed` says that `pclose` did not fail. The static counters follow.
  unfoldable pub get_disk_usage : Option Bytes → Bool → Traffic → Carrier × Traffic
  unfolding sum_lines read_disk growth fgets_all
  get_disk_usage none closed prev = (of_neg 1, prev)
  get_disk_usage (some content) false prev = (of_neg 1, prev)
  get_disk_usage (some content) true prev =
      let now : Traffic = sum_lines read_disk (read_lines (buffer_size * 2) content) no_traffic in
      (div (of_ℕ (growth prev now * sector_size % 18446744073709551616)) mega, now)

  unfoldable pub get_network_usage : Option Bytes → Carrier
  unfolding net_traffic
  get_network_usage none = of_neg 1
  get_network_usage (some content) =
      let now : Traffic = net_traffic content in div (of_ℕ (add64 now.rx now.tx)) mega

  -- `(double)(current_time - last_time) / CLOCKS_PER_SEC`.
  abbrev pub elapsed : ℕ → ℕ → Carrier
  elapsed current last =
      div (if leb last current then of_ℕ (current - last) else of_neg (last - current))
        (of_ℕ 1000000)

  -- `get_average_bandwidth` when `clock()` returns `current`.
  unfoldable pub get_average_bandwidth : Option Bytes → ℕ → Bandwidth → Carrier × Bandwidth
  unfolding net_traffic growth
  get_average_bandwidth none current s = (of_neg 1, s)
  get_average_bandwidth (some content) current s =
      let now : Traffic = net_traffic content in
      (
        div (div (of_ℕ (growth s.prev now)) mega) (elapsed current s.last_time),
        record { prev = now; last_time = current },
      )
