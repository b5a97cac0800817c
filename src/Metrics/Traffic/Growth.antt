-- ===== src/Metrics/Traffic/Growth.antt =====
-- The growth of the counters that `get_disk_usage` and `get_average_bandwidth` of src/metrics.c
-- report.
use metrics_monitor.Base.{ℕ, ◌+◌, ◌%◌, ◌<◌, ◌≡◌, arith}
use metrics_monitor.Alloc.Words.{add64}
use metrics_monitor.Metrics.Traffic.{Traffic, growth}

-- Counters of 64 bits.
pub record Is64 (t : Traffic) : Type 0 where
  pub rx : t.rx < 18446744073709551616
  pub tx : t.tx < 18446744073709551616

-- What `growth` is, up to wrapping.
growth_sum :
    (a b : Traffic)
    → Is64 a
    → Is64 b
    → (growth a b + (a.rx + a.tx)) % 18446744073709551616 ≡ (b.rx + b.tx) % 18446744073709551616
unfolding growth
growth_sum a b ha hb = let arx = ha.rx in let atx = ha.tx in omega arith

growth_small : (a b : Traffic) → growth a b < 18446744073709551616
unfolding growth
growth_small a b = omega arith

join :
    (x y z s t u : ℕ)
    → x < 18446744073709551616
    → y < 18446744073709551616
    → z < 18446744073709551616
    → (x + s) % 18446744073709551616 ≡ t % 18446744073709551616
    → (y + t) % 18446744073709551616 ≡ u % 18446744073709551616
    → (z + s) % 18446744073709551616 ≡ u % 18446744073709551616
    → (x + y) % 18446744073709551616 ≡ z
join x y z s t u hx hy hz e f g = omega arith

-- Between readings no traffic is lost or counted twice, even when the 64-bit counters wrap: the
-- growths that two successive calls report add up, modulo 2^64, to the growth that one call over
-- both periods would report.
pub growth-telescopes :
    (a b c : Traffic) → Is64 a → Is64 b → Is64 c → add64 (growth a b) (growth b c) ≡ growth a c
growth-telescopes a b c ha hb hc =
    join (growth a b) (growth b c) (growth a c) (a.rx + a.tx) (b.rx + b.tx) (c.rx + c.tx)
      (growth_small a b) (growth_small b c) (growth_small a c) (growth_sum a b ha hb)
      (growth_sum b c hb hc) (growth_sum a c ha hc)
