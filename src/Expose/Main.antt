-- ===== src/Expose/Main.antt =====
-- `main` of src/main.c: the start of the threads, and the loop of updates with what the gauges hold.
-- Each thread's creation succeeds or fails as the system decides; the threads themselves run beside
-- the loop and are not followed here.
pub mod Values
pub mod Signs
use metrics_monitor.Base.{
  ℕ, ◌≡◌, ◌≢◌, Bool, true, false, Option, none, some, List, [], ◌∷◌, ◌++◌, String, ◌==◌,
  if◌then◌else◌,
}
use metrics_monitor.Double.{Double}
use metrics_monitor.Expose.{Gauge, Event, set, error, World, Statics}
use metrics_monitor.Expose.Init.{Prom, Setup, number, init_metrics}
use metrics_monitor.Expose.Round.{Frags, round}

-- What `main` prints before it returns EXIT_FAILURE, or the state in which its loop starts.
pub data Startup (P : Prom) : Type 0 where
  exit_failure : String → Setup P → Startup P
  looping : Setup P → Startup P

-- `main` up to its loop, given whether the two calls of `pthread_create` succeed.
unfoldable pub start_main : (P : Prom) → (sim_created http_created : Bool) → Setup P → Startup P
start_main P false http_created s = exit_failure "Error al crear el hilo de simulacion de memoria" s
start_main P true false s =
    exit_failure "Error al crear el hilo del servidor HTTP" (init_metrics P s)
start_main P true true s = looping (init_metrics P s)

-- `prom_gauge_set` of the Prometheus client, on a state of its own and a pointer that may be NULL,
-- and the value that the client exposes for a metric: `none` where it was never set.
pub record Client (A : Type 0) : Type 1 where
  pub State : Type 0
  pub Metric : Type 0
  pub prom_gauge_set : Option Metric → A → State → State
  pub value : State → Metric → Option A

-- The documented behaviour: a metric has the value that it was set to last. Nothing is said of a
-- call with NULL.
pub record IsClient {A : Type 0} (C : Client A) : Type 0 where
  pub same :
      (m : C.Metric) (x : A) (v : C.State) → C.value (C.prom_gauge_set (some m) x v) m ≡ some x
  pub other :
      (m n : C.Metric) (x : A) (v : C.State)
      → n ≢ m
      → C.value (C.prom_gauge_set (some m) x v) n ≡ C.value v n

-- `metrics` holds the static pointers as `init_metrics` leaves them.
module _ (D : Double) (C : Client D.Carrier) (metrics : Gauge → Option C.Metric) where
  open D use {Carrier}
  open C use {State, prom_gauge_set}

  -- The call of `prom_gauge_set` in an update, with the update's static pointer; an error makes
  -- none.
  unfoldable pub set_gauge : Event Carrier → State → State
  set_gauge (set g x) v = prom_gauge_set (metrics g) x v
  set_gauge (error g message) v = v

  unfoldable pub set_gauges : List (Event Carrier) → State → State
  set_gauges [] v = v
  set_gauges (e ∷ es) v = set_gauges es (set_gauge e v)

  -- What one turn of the loop sees.
  pub record Input : Type 0 where
    pub frags : Frags Carrier
    pub world : World

  -- The loop for as many turns as there are inputs: the events of each turn, the client's state and
  -- the static variables.
  unfoldable pub rounds :
      List Input → State → Statics → List (List (Event Carrier)) × State × Statics
  rounds [] v s = ([], v, s)
  rounds (i ∷ is) v s =
      let r = round D i.frags i.world s in
      let rest = rounds is (set_gauges r.0 v) r.1 in (r.0 ∷ rest.0, rest.1, rest.2)
