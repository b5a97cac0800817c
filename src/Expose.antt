-- ===== src/Expose.antt =====
-- src/expose_metrics.c: the gauges and the functions that update them. The gauge library is a
-- parameter: only the value that a gauge was last set to is modelled. Each update runs under the
-- mutex `lock` and by the main thread alone.
pub mod Updates
pub mod Round
pub mod Init
pub mod Main
use metrics_monitor.Base.{
  ℕ, ◌+◌, ◌-◌, ◌%◌, Bool, true, false, Option, none, some, List, [], ◌∷◌, ltb, leb, if◌then◌else◌,
  String,
}
use metrics_monitor.Double.{Double}
use metrics_monitor.Stdio.{Bytes}
use metrics_monitor.Metrics.Counters.{
  get_change_context, get_total_processes, get_minor_page_faults, get_major_page_faults,
  get_disk_stats,
}
use metrics_monitor.Metrics.Memory.{
  get_memory_total, get_memory_avalible, get_memory_usage, get_memory_usage_2,
}
use metrics_monitor.Metrics.Cpu.{Times, get_cpu_usage}
use metrics_monitor.Metrics.Traffic.{
  Traffic, Bandwidth, get_disk_usage, get_network_usage, get_average_bandwidth,
}

-- The gauges that `init_metrics` makes.
pub data Gauge : Type 0 where
  cpu_usage memory_usage disk_usage network_usage bandwidth_usage : Gauge
  major_page_faults minor_page_faults change_context total_processes : Gauge
  memory_total memory_avalible memory_usage_2 disk_stats : Gauge
  frag_first_fit frag_best_fit frag_worst_fit : Gauge

-- What an update does: it sets its gauge, or it prints a message on `stderr`. The gauge of an error
-- is the one that the update is for.
pub data Event (A : Type 0) : Type 0 where
  set : Gauge → A → Event A
  error : Gauge → String → Event A

-- A number of `unsigned long long` as an `int`: its low 32 bits, two's complement. `nonneg n` is
-- n, `negative n` is -n.
pub data Int32 : Type 0 where
  nonneg : ℕ → Int32
  negative : ℕ → Int32

unfoldable pub to_int : ℕ → Int32
to_int n =
    let w : ℕ = n % 4294967296 in if ltb w 2147483648 then nonneg w else negative (4294967296 - w)

-- The files and clocks that one round of updates sees.
pub record World : Type 0 where
  pub stat : Option Bytes
  pub meminfo : Option Bytes
  pub vmstat : Option Bytes
  pub diskstats : Option Bytes
  pub net_dev : Option Bytes
  -- What `popen("cat /proc/diskstats| grep -w 'sda'")` gives, and whether `pclose` succeeds.
  pub sda_lines : Option Bytes
  pub sda_closed : Bool
  pub clock : ℕ

-- The static variables of src/metrics.c.
pub record Statics : Type 0 where
  pub times : Times
  pub disk : Traffic
  pub bandwidth : Bandwidth

module _ (D : Double) where
  open D use {Carrier, of_ℕ, is_nonneg}

  -- `if (usage >= 0) prom_gauge_set(...) else fprintf(stderr, ...)`.
  abbrev pub publish : Gauge → String → Carrier → Event Carrier
  publish g message usage = if is_nonneg usage then set g usage else error g message

  abbrev pub publish_int : Gauge → String → Int32 → Event Carrier
  publish_int g message (nonneg n) = set g (of_ℕ n)
  publish_int g message (negative n) = error g message

  -- The three updates of the fragmentation gauges, given `frag0`, `frag1` and `frag2`. Their
  -- message is the one of the available memory.
  unfoldable pub update_external_frag_first_fit : Carrier → Event Carrier
  update_external_frag_first_fit frag0 =
      publish frag_first_fit "Error al obtener la memoria disponible" frag0

  unfoldable pub update_external_frag_best_fit : Carrier → Event Carrier
  update_external_frag_best_fit frag1 =
      publish frag_best_fit "Error al obtener la memoria disponible" frag1

  unfoldable pub update_external_frag_worst_fit : Carrier → Event Carrier
  update_external_frag_worst_fit frag2 =
      publish frag_worst_fit "Error al obtener la memoria disponible" frag2

  unfoldable pub update_memory_avalible_gauge : World → Event Carrier
  unfolding get_memory_avalible
  update_memory_avalible_gauge w =
      publish memory_avalible "Error al obtener la memoria disponible"
        (get_memory_avalible D w.meminfo)

  unfoldable pub update_memory_total_gauge : World → Event Carrier
  unfolding get_memory_total
  update_memory_total_gauge w =
      publish memory_total "Error al obtener la memoria total" (get_memory_total D w.meminfo)

  unfoldable pub update_memory_2_gauge : World → Event Carrier
  unfolding get_memory_usage_2
  update_memory_2_gauge w =
      publish memory_usage_2 "Error al obtener el uso de memoria (métrica alternativa)"
        (get_memory_usage_2 D w.meminfo)

  unfoldable pub update_disk_stats_gauge : World → Event Carrier
  unfolding get_disk_stats
  update_disk_stats_gauge w =
      publish disk_stats "Error al obtener las estadísticas del disco"
        (get_disk_stats D w.diskstats)

  -- The counter goes through `double` before the test.
  unfoldable pub update_total_processes_gauge : World → Event Carrier
  unfolding get_total_processes
  update_total_processes_gauge w =
      publish total_processes "Error al obtener el número total de procesos"
        (of_ℕ (get_total_processes w.stat))

  unfoldable pub update_change_context_gauge : World → Event Carrier
  unfolding get_change_context
  update_change_context_gauge w =
      publish change_context "Error al obtener el número de cambios de contexto"
        (of_ℕ (get_change_context w.stat))

  unfoldable pub update_cpu_gauge : World → Statics → Event Carrier × Statics
  unfolding get_cpu_usage
  update_cpu_gauge w s =
      let r = get_cpu_usage D w.stat s.times in
      (publish cpu_usage "Error al obtener el uso de CPU" r.0, record s { times = r.1 })

  unfoldable pub update_memory_gauge : World → Event Carrier
  unfolding get_memory_usage
  update_memory_gauge w =
      publish memory_usage "Error al obtener el uso de memoria" (get_memory_usage D w.meminfo)

  unfoldable pub update_disk_gauge : World → Statics → Event Carrier × Statics
  unfolding get_disk_usage
  update_disk_gauge w s =
      let r = get_disk_usage D w.sda_lines w.sda_closed s.disk in
      (publish disk_usage "Error al obtener el uso del disco" r.0, record s { disk = r.1 })

  unfoldable pub update_network_gauge : World → Event Carrier
  unfolding get_network_usage
  update_network_gauge w =
      publish network_usage "Error al obtener el uso de la red" (get_network_usage D w.net_dev)

  unfoldable pub update_bandwidth_gauge : World → Statics → Event Carrier × Statics
  unfolding get_average_bandwidth
  update_bandwidth_gauge w s =
      let r = get_average_bandwidth D w.net_dev w.clock s.bandwidth in
      (
        publish bandwidth_usage "Error al obtener el ancho de banda en uso" r.0,
        record s { bandwidth = r.1 },
      )

  -- The page faults go through `int` before the test.
  unfoldable pub update_major_page_faults_gauge : World → Event Carrier
  unfolding get_major_page_faults to_int
  update_major_page_faults_gauge w =
      publish_int major_page_faults "Error al obtener los fallos de página mayores"
        (to_int (get_major_page_faults w.vmstat))

  unfoldable pub update_minor_page_faults_gauge : World → Event Carrier
  unfolding get_minor_page_faults to_int
  update_minor_page_faults_gauge w =
      publish_int minor_page_faults "Error al obtener los fallos de página menores"
        (to_int (get_minor_page_faults w.vmstat))
