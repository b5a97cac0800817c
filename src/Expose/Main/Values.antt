-- ===== src/Expose/Main/Values.antt =====
-- What the loop of src/main.c keeps in the gauges.
use metrics_monitor.Base.{◌≡◌, ◌≢◌, refl, Option, some}
use metrics_monitor.Double.{Double}
use metrics_monitor.Pairwise.{Pairwise}
use metrics_monitor.Expose.{Gauge, Event, set, error}
use metrics_monitor.Expose.Init.{number}
use metrics_monitor.Expose.Round.Gauges.{gauge}
use metrics_monitor.Expose.Main.{Client, IsClient, set_gauge}

abbrev pub Differ : Gauge → Gauge → Type 0
Differ g h = number g ≢ number h

-- What an event leaves in its gauge, which held `old`.
abbrev pub result : {A : Type 0} → Event A → Option A → Option A
result (set g x) old = some x
result (error g message) old = old

module _ (D : Double) (C : Client D.Carrier) (laws : IsClient C) (metrics : Gauge → Option C.Metric)
    (ptr : Gauge → C.Metric) (made : (g : Gauge) → metrics g ≡ some (ptr g))
    (apart : (g h : Gauge) → Differ g h → ptr g ≢ ptr h) where
  open D use {Carrier}
  open C use {State, value}

  pub set_gauge-other :
      (e : Event Carrier) (v : State) (g : Gauge)
      → Differ g (gauge e)
      → value (set_gauge D C metrics e v) (ptr g) ≡ value v (ptr g)
  unfolding set_gauge
  set_gauge-other (set h x) v g d =
      rw (made h, set_gauge) (laws.other (ptr h) (ptr g) x v (apart g h d))
  set_gauge-other (error h t) v g d = refl

  pub set_gauge_self :
      (e : Event Carrier) (v : State)
      → value (set_gauge D C metrics e v) (ptr (gauge e)) ≡ result e (value v (ptr (gauge e)))
  unfolding set_gauge
  set_gauge_self (set h x) v = rw (made h, set_gauge) (laws.same (ptr h) x v)
  set_gauge_self (error h t) v = refl
