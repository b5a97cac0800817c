-- ===== src/Metrics/Cpu.antt =====
-- `get_cpu_usage` of src/metrics.c.
pub mod Share
pub mod Line
use metrics_monitor.Base.{ℕ, ◌*◌, Option, none, some, List, [], ◌∷◌, String, ◌==◌, if◌then◌else◌}
use metrics_monitor.Double.{Double}
use metrics_monitor.Alloc.Words.{add64, sub64}
use metrics_monitor.Stdio.{Bytes, Value, num, text, format, sscanf, read_lines, fgets_all}
use metrics_monitor.Metrics.Counters.{buffer_size}

-- One reading of the `cpu` line; the static variables hold the previous one.
pub record Times : Type 0 where
  pub user : ℕ
  pub nice : ℕ
  pub system : ℕ
  pub idle : ℕ
  pub iowait : ℕ
  pub irq : ℕ
  pub softirq : ℕ
  pub steal : ℕ

abbrev pub no_times : Times
no_times = record {
  user = 0;
  nice = 0;
  system = 0;
  idle = 0;
  iowait = 0;
  irq = 0;
  softirq = 0;
  steal = 0;
}

-- The eight numbers, if all were read.
unfoldable pub times_of : List Value → Option Times
times_of (num a ∷ num b ∷ num c ∷ num d ∷ num e ∷ num f ∷ num g ∷ num h ∷ vs) = some (record {
  user = a;
  nice = b;
  system = c;
  idle = d;
  iowait = e;
  irq = f;
  softirq = g;
  steal = h;
})
times_of _ = none

abbrev pub cpu_format : String
cpu_format = "cpu  %llu %llu %llu %llu %llu %llu %llu %llu"

unfoldable pub idle_total : Times → ℕ
idle_total t = add64 t.idle t.iowait

unfoldable pub non_idle : Times → ℕ
non_idle t = add64 (add64 (add64 (add64 (add64 t.user t.nice) t.system) t.irq) t.softirq) t.steal

unfoldable pub total : Times → ℕ
unfolding idle_total non_idle
total t = add64 (idle_total t) (non_idle t)

-- `totald` and `idled`.
unfoldable pub totald : Times → Times → ℕ
unfolding total
totald prev now = sub64 (total now) (total prev)

unfoldable pub idled : Times → Times → ℕ
unfolding idle_total
idled prev now = sub64 (idle_total now) (idle_total prev)

-- The first line of the file, if there is one.
abbrev pub first_line : Option Bytes → Option Bytes
first_line none = none
first_line (some content) = elim (read_lines (buffer_size * 4) content) [
  | [] ↦ none
  | l ∷ ls ↦ some l
]

module _ (D : Double) where
  open D use {Carrier, of_ℕ, of_neg, mul, div}

  -- The end of `get_cpu_usage` for the reading `now`.
  unfoldable pub cpu_percent : Times → Times → Carrier × Times
  unfolding totald idled
  cpu_percent prev now = if totald prev now == 0 then (of_neg 1, prev) else (
    mul (div (of_ℕ (sub64 (totald prev now) (idled prev now))) (of_ℕ (totald prev now))) (of_ℕ 100),
    now,
  )

  -- The value, and the reading that the static variables hold afterwards.
  unfoldable pub get_cpu_usage : Option Bytes → Times → Carrier × Times
  unfolding cpu_percent times_of format fgets_all sscanf
  get_cpu_usage stat prev = elim (first_line stat) [
    | none ↦ (of_neg 1, prev)
    | some l ↦ elim (times_of (sscanf (format cpu_format) l)) [
      | none ↦ (of_neg 1, prev)
      | some now ↦ cpu_percent prev now
    ]
  ]
