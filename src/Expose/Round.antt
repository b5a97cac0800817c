-- ===== src/Expose/Round.antt =====
-- The body of the main loop of src/main.c: one round of updates.
pub mod Gauges
use metrics_monitor.Base.{List, [], ◌∷◌}
use metrics_monitor.Double.{Double}
use metrics_monitor.Expose.{
  World, Statics, Event, update_external_frag_first_fit, update_external_frag_best_fit,
  update_external_frag_worst_fit, update_cpu_gauge, update_memory_gauge, update_disk_gauge,
  update_network_gauge, update_bandwidth_gauge, update_major_page_faults_gauge,
  update_minor_page_faults_gauge, update_memory_avalible_gauge, update_memory_total_gauge,
  update_memory_2_gauge, update_disk_stats_gauge, update_total_processes_gauge,
  update_change_context_gauge,
}

-- `frag0`, `frag1` and `frag2` of src/sim_alloc.c as the round reads them.
pub record Frags (A : Type 0) : Type 0 where
  pub frag0 : A
  pub frag1 : A
  pub frag2 : A

module _ (D : Double) where
  open D use {Carrier}

  -- The events of the sixteen calls, in order, and the static variables behind them.
  unfoldable pub round : Frags Carrier → World → Statics → List (Event Carrier) × Statics
  unfolding update_cpu_gauge update_disk_gauge update_bandwidth_gauge
  round f w s0 =
      let cpu = update_cpu_gauge D w s0 in
      let disk = update_disk_gauge D w cpu.1 in
      let bandwidth = update_bandwidth_gauge D w disk.1 in
      (
        update_external_frag_first_fit D f.frag0
            ∷ update_external_frag_best_fit D f.frag1
            ∷ update_external_frag_worst_fit D f.frag2
            ∷ cpu.0
            ∷ update_memory_gauge D w
            ∷ disk.0
            ∷ update_network_gauge D w
            ∷ bandwidth.0
            ∷ update_major_page_faults_gauge D w
            ∷ update_minor_page_faults_gauge D w
            ∷ update_memory_avalible_gauge D w
            ∷ update_memory_total_gauge D w
            ∷ update_memory_2_gauge D w
            ∷ update_disk_stats_gauge D w
            ∷ update_total_processes_gauge D w
            ∷ update_change_context_gauge D w
            ∷ [],
        bandwidth.1,
      )
