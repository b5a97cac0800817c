-- ===== src/Metrics/Cpu/Share.antt =====
-- `get_cpu_usage` of src/metrics.c: the share of the time since the last reading that was busy.
use metrics_monitor.Base.{ℕ, ◌+◌, ◌-◌, ◌≤◌, ◌<◌, ◌≡◌, refl, arith, ◌==◌, if◌then◌else◌}
use metrics_monitor.Double.{Double}
use metrics_monitor.Alloc.Words.{sub64}
use metrics_monitor.Metrics.Cpu.{Times, idle_total, non_idle, total, totald, idled, cpu_percent}

-- The sum of the counters of a reading, without wrapping.
abbrev pub all_time : Times → ℕ
all_time t = t.user + t.nice + t.system + t.idle + t.iowait + t.irq + t.softirq + t.steal

-- No counter fell between two readings.
pub record Grew (a b : Times) : Type 0 where
  pub user : a.user ≤ b.user
  pub nice : a.nice ≤ b.nice
  pub system : a.system ≤ b.system
  pub idle : a.idle ≤ b.idle
  pub iowait : a.iowait ≤ b.iowait
  pub irq : a.irq ≤ b.irq
  pub softirq : a.softirq ≤ b.softirq
  pub steal : a.steal ≤ b.steal

-- The growth of the six counters of busy time.
unfoldable pub busy : Times → Times → ℕ
busy a b =
    (b.user - a.user)
    + (b.nice - a.nice)
    + (b.system - a.system)
    + (b.irq - a.irq)
    + (b.softirq - a.softirq)
    + (b.steal - a.steal)

unfoldable pub waited : Times → Times → ℕ
waited a b = (b.idle - a.idle) + (b.iowait - a.iowait)

-- The sums of a reading do not wrap.
total_plain : (t : Times) → all_time t < 18446744073709551616 → total t ≡ all_time t
unfolding total idle_total non_idle
total_plain t small = omega arith

idle_plain : (t : Times) → all_time t < 18446744073709551616 → idle_total t ≡ t.idle + t.iowait
unfolding idle_total
idle_plain t small = omega arith

sub64_grown : (x y d : ℕ) → y ≡ d + x → y < 18446744073709551616 → sub64 y x ≡ d
sub64_grown x y d e small = omega arith

minus_plus : (x y : ℕ) → x ≤ y → (y - x) + x ≡ y
minus_plus x y le = omega arith

sums :
    (u0 u1 du n0 n1 dn s0 s1 ds i0 i1 di w0 w1 dw q0 q1 dq f0 f1 df t0 t1 dt : ℕ)
    → du + u0 ≡ u1
    → dn + n0 ≡ n1
    → ds + s0 ≡ s1
    → di + i0 ≡ i1
    → dw + w0 ≡ w1
    → dq + q0 ≡ q1
    → df + f0 ≡ f1
    → dt + t0 ≡ t1
    → u1 + n1 + s1 + i1 + w1 + q1 + f1 + t1
      ≡ (du + dn + ds + dq + df + dt) + (di + dw) + (u0 + n0 + s0 + i0 + w0 + q0 + f0 + t0)
sums u0 u1 du n0 n1 dn s0 s1 ds i0 i1 di w0 w1 dw q0 q1 dq f0 f1 df t0 t1 dt a b c d e f g h =
    omega arith

-- The later counters are the earlier ones and what they grew by.
all_time-Grew : (a b : Times) → Grew a b → all_time b ≡ busy a b + waited a b + all_time a
unfolding busy waited
all_time-Grew a b g =
    let user = minus_plus a.user b.user g.user in
    let nice = minus_plus a.nice b.nice g.nice in
    let system = minus_plus a.system b.system g.system in
    let idle = minus_plus a.idle b.idle g.idle in
    let iowait = minus_plus a.iowait b.iowait g.iowait in
    let irq = minus_plus a.irq b.irq g.irq in
    let softirq = minus_plus a.softirq b.softirq g.softirq in
    let steal = minus_plus a.steal b.steal g.steal in
    sums _ _ _ _ _ _ _ _ _ _ _ _ _ _ _ _ _ _ _ _ _ _ _ _ user nice system idle iowait irq softirq
      steal

idled-Grew : (a b : Times) → Grew a b → all_time b < 18446744073709551616 → idled a b ≡ waited a b
unfolding idled idle_total waited
idled-Grew a b g small = let idle = g.idle in let iowait = g.iowait in omega arith

-- When no counter fell and the counters sum to less than 2^64, the reader returns 100 times the
-- busy share of the time that passed, a share of at most one, and keeps the new reading; if no
-- time passed it returns -1 and keeps the old one.
pub cpu_percent-share :
    (D : Double) (a b : Times)
    → Grew a b
    → all_time b < 18446744073709551616
    → (busy a b ≤ busy a b + waited a b)
      × (cpu_percent D a b ≡ (
          if busy a b + waited a b == 0 then (D.of_neg 1, a) else (
            D.mul (D.div (D.of_ℕ (busy a b)) (D.of_ℕ (busy a b + waited a b))) (D.of_ℕ 100),
            b,
          )))
unfolding cpu_percent totald idled
cpu_percent-share D a b g small =
    let grew = all_time-Grew a b g in
    let small_a : all_time a < 18446744073709551616 = omega arith in
    let t : totald a b ≡ busy a b + waited a b =
      rw (total_plain a small_a, total_plain b small)
        (sub64_grown (all_time a) (all_time b) (busy a b + waited a b) grew small) in
    let i : idled a b ≡ waited a b = idled-Grew a b g small in
    let diff : sub64 (busy a b + waited a b) (waited a b) ≡ busy a b =
      sub64_grown (waited a b) (busy a b + waited a b) (busy a b) refl (omega arith) in
    (omega arith, rw (t, i, diff) refl)
