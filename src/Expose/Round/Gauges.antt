-- ===== src/Expose/Round/Gauges.antt =====
-- What one round of updates does with the gauges.
use metrics_monitor.Base.{◌≡◌, refl, Bool, true, false, String, List, [], ◌∷◌, map, if◌then◌else◌}
use metrics_monitor.Double.{Double}
use metrics_monitor.Expose.{
  Gauge, Event, set, error, World, Statics, publish, publish_int, Int32, nonneg, negative,
  update_external_frag_first_fit, update_external_frag_best_fit, update_external_frag_worst_fit,
  update_cpu_gauge, update_memory_gauge, update_disk_gauge, update_network_gauge,
  update_bandwidth_gauge, update_major_page_faults_gauge, update_minor_page_faults_gauge,
  update_memory_avalible_gauge, update_memory_total_gauge, update_memory_2_gauge,
  update_disk_stats_gauge, update_total_processes_gauge, update_change_context_gauge,
}
use metrics_monitor.Expose.Round.{Frags, round}

-- The gauge that an event is about.
abbrev pub gauge : {A : Type 0} → Event A → Gauge
gauge (set g a) = g
gauge (error g message) = g

-- The gauges in the order of the main loop.
abbrev pub main_order : List Gauge
main_order =
    Gauge.frag_first_fit ∷ Gauge.frag_best_fit ∷ Gauge.frag_worst_fit ∷ Gauge.cpu_usage
    ∷ Gauge.memory_usage ∷ Gauge.disk_usage ∷ Gauge.network_usage ∷ Gauge.bandwidth_usage
    ∷ Gauge.major_page_faults ∷ Gauge.minor_page_faults ∷ Gauge.memory_avalible ∷ Gauge.memory_total
    ∷ Gauge.memory_usage_2 ∷ Gauge.disk_stats ∷ Gauge.total_processes ∷ Gauge.change_context ∷ []

module _ (D : Double) where
  open D use {Carrier, of_ℕ, of_neg, div, is_nonneg}

  gauge-publish : (g : Gauge) (t : String) (x : Carrier) → gauge (publish D g t x) ≡ g
  gauge-publish g t x = by_sign (is_nonneg x)
    where
      by_sign : (b : Bool) → gauge (if b then set g x else error g t) ≡ g
      by_sign true = refl
      by_sign false = refl

  gauge-publish_int : (g : Gauge) (t : String) (n : Int32) → gauge (publish_int D g t n) ≡ g
  gauge-publish_int g t (nonneg n) = refl
  gauge-publish_int g t (negative n) = refl

-- The events of a round are about the gauges in the order of the main loop.
pub round-gauges :
    (D : Double) (f : Frags D.Carrier) (w : World) (s : Statics)
    → map gauge (round D f w s).0 ≡ main_order
unfolding round update_external_frag_first_fit update_external_frag_best_fit
    update_external_frag_worst_fit update_cpu_gauge update_memory_gauge update_disk_gauge
    update_network_gauge update_bandwidth_gauge update_major_page_faults_gauge
    update_minor_page_faults_gauge update_memory_avalible_gauge update_memory_total_gauge
    update_memory_2_gauge update_disk_stats_gauge update_total_processes_gauge
    update_change_context_gauge
round-gauges D f w s = let p = gauge-publish D in simp (gauge-publish D, gauge-publish_int D)
