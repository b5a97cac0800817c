-- ===== src/Metrics/Cpu/Line.antt =====
-- `get_cpu_usage` of src/metrics.c on the text of /proc/stat.
use metrics_monitor.Base.{
  ℕ, ◌+◌, ◌<◌, ◌≡◌, refl, ap, ◌∙◌, Option, some, List, [], ◌∷◌, ◌++◌, arith, ◌==◌, if◌then◌else◌,
}
use metrics_monitor.Double.{Double}
use metrics_monitor.Stdio.{Bytes, codes, format, directives, sscanf, read_lines}
use metrics_monitor.Stdio.Decimal.{EndsNumber}
use metrics_monitor.Stdio.Fields.{Field, shown, print, sscanf-print_wide}
use metrics_monitor.Metrics.Cpu.{
  Times, times_of, cpu_format, first_line, cpu_percent, get_cpu_usage,
}
use metrics_monitor.Metrics.Cpu.Share.{Grew, all_time, busy, waited, cpu_percent-share}

abbrev spaced : ℕ → ℕ → Field
spaced k n = shown (record { before = k; value = n })

abbrev later_fields : Times → List Field
later_fields t =
    spaced 0 t.nice
    ∷ spaced 0 t.system
    ∷ spaced 0 t.idle
    ∷ spaced 0 t.iowait
    ∷ spaced 0 t.irq
    ∷ spaced 0 t.softirq
    ∷ spaced 0 t.steal
    ∷ []

-- The eight numbers, behind two spaces, one space between them.
abbrev time_fields : Times → List Field
time_fields t = spaced 1 t.user ∷ later_fields t

-- The first line of /proc/stat for the counters `t`, and what follows them.
abbrev pub cpu_line : Times → Bytes → Bytes
cpu_line t rest = codes "cpu" ++ print (time_fields t) rest

cpu_line-read :
    (t : Times) (rest : Bytes)
    → all_time t < 18446744073709551616
    → EndsNumber rest
    → times_of (sscanf (format cpu_format) (cpu_line t rest)) ≡ some t
unfolding sscanf format directives times_of
cpu_line-read t rest small h =
    ap times_of (sscanf-print_wide (spaced 1 t.user) (later_fields t) [] rest (omega arith) h)

get_cpu_usage-read :
    (D : Double) (stat : Option Bytes) (l : Bytes) (prev now : Times)
    → first_line stat ≡ some l
    → times_of (sscanf (format cpu_format) l) ≡ some now
    → get_cpu_usage D stat prev ≡ cpu_percent D prev now
unfolding get_cpu_usage
get_cpu_usage-read D stat l prev now e r = rw (get_cpu_usage, e, r) refl

-- When the first line of /proc/stat shows the counters `b`, none of which is below that of the last
-- reading `a`, and the counters sum to less than 2^64, the reader returns 100 times the busy share
-- of the time that passed and keeps the new reading; if no time passed it returns -1 and keeps the
-- old one. No digit follows the eight numbers.
pub get_cpu_usage-share :
    (D : Double) (content rest : Bytes) (ls : List Bytes) (a b : Times)
    → read_lines 1024 content ≡ cpu_line b rest ∷ ls
    → EndsNumber rest
    → Grew a b
    → all_time b < 18446744073709551616
    → get_cpu_usage D (some content) a ≡ (
        if busy a b + waited a b == 0
        then (D.of_neg 1, a)
        else (D.mul (D.div (D.of_ℕ (busy a b)) (D.of_ℕ (busy a b + waited a b))) (D.of_ℕ 100), b))
get_cpu_usage-share D content rest ls a b e h g small =
    get_cpu_usage-read D (some content) (cpu_line b rest) a b (rw (first_line, e) refl)
      (cpu_line-read b rest small h)
    ∙ (cpu_percent-share D a b g small).1
