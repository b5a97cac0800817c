-- ===== src/Tests/Readers.antt =====
-- Small files under /proc, and the theorems about the readers and the updates at them.
use metrics_monitor.Base.{ℕ, ◌≡◌, refl, true, false, none, some, [], ◌∷◌, arith}
use metrics_monitor.Stdio.{
  Bytes, codes, format, directives, sscanf, fgets_all, scan_number, scan_signed, scan_digits,
  take_digits, skip_spaces, scan_word, take_word, cons_head,
}
use metrics_monitor.Stdio.Decimal.{decimal, decimal_loop, pad}
use metrics_monitor.Metrics.Counters.{one_number, get_change_context, get_disk_stats}
use metrics_monitor.Metrics.Memory.{get_memory_usage}
use metrics_monitor.Metrics.Memory.Usage.{get_memory_usage-percent}
use metrics_monitor.Metrics.Counters.Lookup.{get_change_context-reads}
use metrics_monitor.Metrics.Counters.Disk.{get_disk_stats-last}
use metrics_monitor.Metrics.Cpu.{no_times}
use metrics_monitor.Metrics.Traffic.{no_traffic}
use metrics_monitor.Expose.{
  Gauge, set, error, World, Statics, update_change_context_gauge, update_minor_page_faults_gauge,
}
use metrics_monitor.Expose.Updates.{
  update_change_context_gauge-absent, update_minor_page_faults_gauge-large,
}
use metrics_monitor.Expose.Round.{Frags}
use metrics_monitor.Tests.Numbers.{fractions, frac, Fraction}

abbrev stat : Bytes
stat = codes "cpu 1\nctxt 42\nend\n"

get_change_context-reads_example : get_change_context (some stat) ≡ 42
unfolding fgets_all cons_head pad decimal decimal_loop one_number sscanf scan_number scan_signed
    scan_digits take_digits skip_spaces scan_word take_word format directives
get_change_context-reads_example =
    get_change_context-reads stat (codes "cpu 1\n" ∷ []) (codes "end\n" ∷ []) 42 (codes "\n") refl
      (refl, tt) refl (omega arith) (omega arith)

abbrev no_stat : Bytes
no_stat = codes "cpu 1\nend\n"

abbrev meminfo_full : Bytes
meminfo_full = codes "MemTotal:  512 kB\nMemFree: 7 kB\nMemAvailable: 128 kB\nCached: 5 kB\n"

get_memory_usage-percent_example :
    get_memory_usage fractions (some meminfo_full) ≡ frac false 38400 512
unfolding fgets_all cons_head pad decimal decimal_loop one_number sscanf scan_number scan_signed
    scan_digits take_digits skip_spaces scan_word take_word format directives
get_memory_usage-percent_example =
    get_memory_usage-percent fractions meminfo_full [] (codes "MemFree: 7 kB\n" ∷ [])
      (codes "Cached: 5 kB\n" ∷ []) 2 512 1 128 (codes " kB\n") (codes " kB\n") refl tt
      ((refl, refl), tt) refl refl (omega arith) (omega arith) (omega arith)

-- The last line, of the partition `sda1`, decides.
abbrev diskstats : Bytes
diskstats = codes "8 0 sda 900 0 0 0 50 0\n8 1 sda1 2 0 0 7 5 3\n"

get_disk_stats-last_example : get_disk_stats fractions (some diskstats) ≡ frac false 8 1
unfolding fgets_all cons_head pad decimal decimal_loop one_number sscanf scan_number scan_signed
    scan_digits take_digits skip_spaces scan_word take_word format directives
get_disk_stats-last_example =
    get_disk_stats-last fractions diskstats (codes "8 0 sda 900 0 0 0 50 0\n" ∷ []) []
      (codes "8 1 sda1 2 0 0 7 5 3\n") 1 7 refl (refl, tt) refl tt (omega arith)

abbrev vmstat_large : Bytes
vmstat_large = codes "nr 1\npgfault 3000000000\n"

abbrev vmstat_small : Bytes
vmstat_small = codes "pgfault 30\npgmajfault 2\n"

-- No file under /proc can be opened: the pipeline of `popen` still ends, and prints nothing.
abbrev pub no_files : ℕ → World
no_files clock = record {
  stat = none;
  meminfo = none;
  vmstat = none;
  diskstats = none;
  net_dev = none;
  sda_lines = some [];
  sda_closed = true;
  clock = clock;
}

-- `frag0`, `frag1` and `frag2` at the start.
abbrev pub start : Frags Fraction
start = record { frag0 = frac false 0 1; frag1 = frac false 0 1; frag2 = frac false 0 1 }

abbrev pub world : World
world = record (no_files 5) { stat = some no_stat; vmstat = some vmstat_small }

update_change_context_gauge-absent_example :
    update_change_context_gauge fractions world
    ≡ set Gauge.change_context (frac false 18446744073709551615 1)
unfolding fgets_all cons_head pad decimal decimal_loop one_number sscanf scan_number scan_signed
    scan_digits take_digits skip_spaces scan_word take_word format directives
update_change_context_gauge-absent_example =
    update_change_context_gauge-absent fractions world no_stat (λ n. refl) refl (refl, (refl, tt))

update_minor_page_faults_gauge-large_example :
    update_minor_page_faults_gauge fractions (record world { vmstat = some vmstat_large })
    ≡ error Gauge.minor_page_faults "Error al obtener los fallos de página menores"
unfolding fgets_all cons_head pad decimal decimal_loop one_number sscanf scan_number scan_signed
    scan_digits take_digits skip_spaces scan_word take_word format directives
update_minor_page_faults_gauge-large_example =
    update_minor_page_faults_gauge-large fractions (record world { vmstat = some vmstat_large })
      vmstat_large (codes "nr 1\n" ∷ []) [] 3000000000 (codes "\n") refl refl (refl, tt) refl
      (omega arith) (omega arith)

abbrev pub statics : Statics
statics = record {
  times = no_times;
  disk = no_traffic;
  bandwidth = record { prev = no_traffic; last_time = 0 };
}
