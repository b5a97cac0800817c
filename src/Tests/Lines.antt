-- ===== src/Tests/Lines.antt =====
-- Files of /proc as the kernel prints them, and the theorems about the readers at them.
use metrics_monitor.Base.{ℕ, ◌≡◌, refl, true, false, some, [], ◌∷◌, arith}
use metrics_monitor.Stdio.{Bytes, codes, fgets_all, cons_head}
use metrics_monitor.Stdio.Decimal.{decimal, decimal_loop, pad}
use metrics_monitor.Stdio.Fields.{Column}
use metrics_monitor.Metrics.Cpu.{Times, no_times, get_cpu_usage}
use metrics_monitor.Metrics.Cpu.Share.{busy, waited}
use metrics_monitor.Metrics.Cpu.Line.{get_cpu_usage-share}
use metrics_monitor.Metrics.Traffic.{no_traffic, get_network_usage, get_disk_usage}
use metrics_monitor.Metrics.Traffic.Lines.{NetLine, DiskLine}
use metrics_monitor.Metrics.Traffic.Lines.Sums.{get_network_usage-sums, get_disk_usage-growth}
use metrics_monitor.Tests.Numbers.{fractions, frac}

abbrev busy_times : Times
busy_times = record no_times { user = 30; idle = 60; steal = 10 }

abbrev cpu_file : Bytes
cpu_file = codes "cpu  30 0 0 60 0 0 0 10 0 0\ncpu0 1\n"

get_cpu_usage-share_example :
    get_cpu_usage fractions (some cpu_file) no_times ≡ (frac false 4000 100, busy_times)
unfolding fgets_all cons_head pad decimal decimal_loop busy waited
get_cpu_usage-share_example =
    get_cpu_usage-share fractions cpu_file (codes " 0 0\n") (codes "cpu0 1\n" ∷ []) no_times
      busy_times refl refl
      (record {
        user = omega arith;
        nice = omega arith;
        system = omega arith;
        idle = omega arith;
        iowait = omega arith;
        irq = omega arith;
        softirq = omega arith;
        steal = omega arith;
      })
      (omega arith)

abbrev column : ℕ → ℕ → Column
column k n = record { before = k; value = n }

abbrev eth : NetLine
eth = record {
  lead = 2;
  name = codes "eth0:";
  rx = column 1 700;
  packets = column 0 8;
  errs = column 0 0;
  drop = column 2 0;
  fifo = column 0 0;
  frame = column 0 0;
  compressed = column 0 0;
  multicast = column 0 0;
  tx = column 0 300;
  rest = codes " 5 0\n";
}

abbrev net_file : Bytes
net_file = codes "Inter-| Receive\n face |bytes\n  eth0:  700 8 0   0 0 0 0 0 300 5 0\n"

get_network_usage-sums_example :
    get_network_usage fractions (some net_file) ≡ frac false 1000 1048576
unfolding fgets_all cons_head pad decimal decimal_loop
get_network_usage-sums_example =
    get_network_usage-sums fractions net_file (codes "Inter-| Receive\n") (codes " face |bytes\n")
      (eth ∷ []) refl
      ((((refl, (refl, (refl, (refl, (refl, tt))))), λ e. cc), omega arith, refl), tt)

abbrev sda : ℕ → ℕ → DiskLine
sda r w = record {
  lead = 3;
  major = 8;
  minor = column 6 0;
  gap = 0;
  name = codes "sda";
  reads = column 0 9;
  merged = column 0 1;
  read_sectors = column 0 r;
  read_ms = column 0 4;
  writes = column 0 5;
  write_merged = column 0 6;
  write_sectors = column 0 w;
  rest = codes " 7\n";
}

abbrev disk_file : Bytes
disk_file = codes "   8       0 sda 9 1 100 4 5 6 40 7\n"

abbrev later_file : Bytes
later_file = codes "   8       0 sda 9 1 103 4 5 6 45 7\n"

get_disk_usage-growth_example :
    (get_disk_usage fractions
      (some later_file)
      true
      (get_disk_usage fractions (some disk_file) true no_traffic).1).0
    ≡ frac false 4096 1048576
unfolding fgets_all cons_head pad decimal decimal_loop
get_disk_usage-growth_example =
    get_disk_usage-growth fractions disk_file later_file no_traffic (sda 100 40 ∷ [])
      (sda 103 45 ∷ []) refl refl
      ((omega arith, omega arith, ((refl, (refl, (refl, tt))), λ e. cc), omega arith, refl), tt)
      ((omega arith, omega arith, ((refl, (refl, (refl, tt))), λ e. cc), omega arith, refl), tt)
      (omega arith) (omega arith) (omega arith) (omega arith)
