-- ===== src/Expose/Init.antt =====
-- `init_metrics` of src/expose_metrics.c: the gauges are made and registered. The Prometheus client
-- and the mutex are a parameter, the record Prom.
pub mod Registered
use metrics_monitor.Base.{
  ℕ, ◌+◌, Bool, true, false, Option, none, some, List, [], ◌∷◌, ◌++◌, String, ◌==◌, if◌then◌else◌,
}
use metrics_monitor.Expose.{Gauge}

-- The calls of the libraries, on a state of theirs: what they return is up to them. A `Metric` is a
-- pointer that is not NULL.
pub record Prom : Type 1 where
  pub State : Type 0
  pub Metric : Type 0
  pub mutex_init : State → ℕ × State
  pub registry_default_init : State → ℕ × State
  pub gauge_new : String → String → State → Option Metric × State
  -- `prom_collector_registry_must_register_metric`, and whether it gives a pointer.
  pub must_register : Option Metric → State → Bool × State

-- The arguments of `prom_gauge_new` and the message where it fails.
pub record Spec : Type 0 where
  pub gauge : Gauge
  pub name : String
  pub help : String
  pub message : String

abbrev pub spec : Gauge → String → String → String → Spec
spec g n h m = record { gauge = g; name = n; help = h; message = m }

-- The gauges whose failure is only reported, in the order of the code.
abbrev pub optional_gauges : List Spec
optional_gauges =
    spec Gauge.cpu_usage "cpu_usage_percentage" "Porcentaje de uso de CPU"
      "Error al crear la métrica de uso de CPU"
    ∷ spec Gauge.memory_usage "memory_usage_percentage" "Porcentaje de uso de memoria"
        "Error al crear la métrica de uso de memoria"
    ∷ spec Gauge.disk_usage "disk_usage_percentage" "Porcentaje de uso de disco"
        "Error al crear la métrica de uso de disco"
    ∷ spec Gauge.network_usage "network_usage" "Uso de la red"
        "Error al crear la métrica de uso de la red"
    ∷ spec Gauge.bandwidth_usage "bandwidth_usage" "Ancho de banda en uso"
        "Error al crear la métrica de uso de ancho de banda"
    ∷ spec Gauge.major_page_faults "major_page_faults" "Número de fallos de página mayores"
        "Error al crear la métrica de fallos de página mayores"
    ∷ spec Gauge.minor_page_faults "minor_page_faults" "Número de fallos de página menores"
        "Error al crear la métrica de fallos de página menores"
    ∷ []

-- The gauges whose failure ends `init_metrics`.
abbrev pub required_gauges : List Spec
required_gauges =
    spec Gauge.change_context "change_contexts" "Número de cambios de contexto"
      "Error al crear la métrica de cambios de contexto"
    ∷ spec Gauge.total_processes "total_processes" "Número total de procesos"
        "Error al crear la métrica de total de procesos"
    ∷ spec Gauge.memory_total "memory_total" "Memoria total del sistema"
        "Error al crear la métrica de memoria total"
    ∷ spec Gauge.memory_avalible "memory_available" "Memoria disponible del sistema"
        "Error al crear la métrica de memoria disponible"
    ∷ spec Gauge.memory_usage_2 "memory_usage_2" "Uso de memoria (otra métrica)"
        "Error al crear la métrica de uso de memoria (otra)"
    ∷ spec Gauge.disk_stats "disk_stats" "Estadísticas del disco"
        "Error al crear la métrica de estadísticas del disco"
    ∷ spec Gauge.frag_first_fit "frag_first_fit" "Fragmentacion de first fit"
        "Error al crear la métrica de fragmentacion first fit"
    ∷ spec Gauge.frag_best_fit "frag_best_fit" "Fragmentacion de best fit"
        "Error al crear la métrica de fragmentacion best fit"
    ∷ spec Gauge.frag_worst_fit "frag_worst_fit" "Fragmentacion de worst fit"
        "Error al crear la métrica de fragmentacion worst fit"
    ∷ []

-- The operands of the `||` that registers the gauges.
abbrev pub register_order : List Gauge
register_order =
    Gauge.cpu_usage ∷ Gauge.memory_usage ∷ Gauge.disk_usage ∷ Gauge.network_usage
    ∷ Gauge.bandwidth_usage ∷ Gauge.major_page_faults ∷ Gauge.minor_page_faults
    ∷ Gauge.change_context ∷ Gauge.total_processes ∷ Gauge.memory_total ∷ Gauge.memory_avalible
    ∷ Gauge.memory_usage_2 ∷ Gauge.frag_first_fit ∷ Gauge.frag_best_fit ∷ Gauge.frag_worst_fit ∷ []

-- A number for each gauge, to compare them.
abbrev pub number : Gauge → ℕ
number Gauge.cpu_usage = 0
number Gauge.memory_usage = 1
number Gauge.disk_usage = 2
number Gauge.network_usage = 3
number Gauge.bandwidth_usage = 4
number Gauge.major_page_faults = 5
number Gauge.minor_page_faults = 6
number Gauge.change_context = 7
number Gauge.total_processes = 8
number Gauge.memory_total = 9
number Gauge.memory_avalible = 10
number Gauge.memory_usage_2 = 11
number Gauge.disk_stats = 12
number Gauge.frag_first_fit = 13
number Gauge.frag_best_fit = 14
number Gauge.frag_worst_fit = 15

abbrev pub is_made : {A : Type 0} → Option A → Bool
is_made none = false
is_made (some a) = true

module _ (P : Prom) where
  open P use {State, Metric, mutex_init, registry_default_init, gauge_new, must_register}

  -- The libraries' state, the static pointers, the calls that register a gauge, and `stderr`.
  pub record Setup : Type 0 where
    pub lib : State
    pub metrics : Gauge → Option Metric
    pub registered : List Gauge
    pub errors : List String

  abbrev pub warn : String → Setup → Setup
  warn e s = record s { errors = s.errors ++ (e ∷ []) }

  -- `g = prom_gauge_new(name, help, 0, NULL); if (g == NULL) fprintf(stderr, message);`
  unfoldable pub make : Spec → Setup → Setup
  make d s =
      let r = gauge_new d.name d.help s.lib in
      let s' : Setup = record s {
        lib = r.1;
        metrics = λ g. if number g == number d.gauge then r.0 else s.metrics g;
      } in
      if is_made r.0 then s' else warn d.message s'

  unfoldable pub make_optional : List Spec → Setup → Setup
  make_optional [] s = s
  make_optional (d ∷ ds) s = make_optional ds (make d s)

  -- Whether all were made: the first failure returns.
  unfoldable pub make_required : List Spec → Setup → Bool × Setup
  make_required [] s = (true, s)
  make_required (d ∷ ds) s =
      let s' : Setup = make d s in
      let rest = make_required ds s' in if is_made (s'.metrics d.gauge) then rest else (false, s')

  -- `register(a) == NULL || register(b) == NULL || ...`, negated: it stops at the first failure.
  unfoldable pub register_all : List Gauge → Setup → Bool × Setup
  register_all [] s = (true, s)
  register_all (g ∷ gs) s =
      let r = must_register (s.metrics g) s.lib in
      let s' : Setup = record s { lib = r.1; registered = s.registered ++ (g ∷ []) } in
      let rest = register_all gs s' in if r.0 then rest else (false, s')

  abbrev pub start_mutex : Setup → Setup
  start_mutex s =
      let r = mutex_init s.lib in
      let s' : Setup = record s { lib = r.1 } in
      if r.0 == 0 then s' else warn "Error al inicializar el mutex" s'

  abbrev pub start_registry : Setup → Setup
  start_registry s =
      let r = registry_default_init s.lib in
      let s' : Setup = record s { lib = r.1 } in
      if r.0 == 0 then s' else warn "Error al inicializar el registro de Prometheus" s'

  -- The last `if` of `init_metrics`.
  unfoldable pub register_metrics : Setup → Setup
  register_metrics s =
      let r = register_all register_order s in
      if r.0 then r.1 else warn "Error al registrar las métricas" r.1

  unfoldable pub init_metrics : Setup → Setup
  init_metrics s =
      let r =
        make_required required_gauges
          (make_optional optional_gauges (start_registry (start_mutex s))) in
      if r.0 then register_metrics r.1 else r.1
