-- ===== src/Tests/Startup.antt =====
-- The start of the program and its loop, and the theorems about them, on small inputs.
use metrics_monitor.Base.{
  Option, ◌==◌, ==-refl, ==-false, ℕ, suc, ◌≡◌, ◌≢◌, ◌⊎◌, refl, true, false, none, some, List, [],
  ◌∷◌, All, ltb, if◌then◌else◌,
}
use metrics_monitor.Expose.{Gauge}
use metrics_monitor.Expose.Init.{
  number, Prom, Spec, Setup, required_gauges, is_made, make, make_optional, make_required,
  init_metrics,
}
use metrics_monitor.Expose.Init.Registered.{init_metrics-disk_stats, init_metrics-all_or_none}
use metrics_monitor.Expose.Main.{Client, IsClient, Input, rounds}
use metrics_monitor.Expose.Main.Signs.{HoldsNonneg, rounds-HoldsNonneg}
use metrics_monitor.Tests.Numbers.{fractions, frac, Fraction}
use metrics_monitor.Tests.Readers.{start, no_files, world, statics}

-- A client that counts its metrics, has room for `limit` of them, and registers all it is given.
abbrev client : ℕ → Prom
client limit = record {
  State = ℕ;
  Metric = ℕ;
  mutex_init = λ t. (0, t);
  registry_default_init = λ t. (0, t);
  gauge_new = λ n h t. (if ltb t limit then some t else none, suc t);
  must_register = λ m t. (is_made m, t);
}

-- A client that never fails.
abbrev willing : Prom
willing = record {
  State = ℕ;
  Metric = ℕ;
  mutex_init = λ t. (0, t);
  registry_default_init = λ t. (0, t);
  gauge_new = λ n h t. (some t, suc t);
  must_register = λ m t. (true, t);
}

abbrev fresh : (P : Prom) → P.State → Setup P
fresh P t = record { lib = t; metrics = λ g. none; registered = []; errors = [] }

init_metrics-disk_stats_example :
    All
      (λ (g : Gauge). g ≢ Gauge.disk_stats)
      (init_metrics (client 20) (fresh (client 20) 0)).registered
init_metrics-disk_stats_example = init_metrics-disk_stats (client 20) (fresh (client 20) 0) refl

-- There is room for nine of the sixteen.
init_metrics-all_or_none_example :
    ((init_metrics (client 9) (fresh (client 9) 0)).registered ≡ [])
    ⊎ All
        (λ (d : Spec).
          is_made ((init_metrics (client 9) (fresh (client 9) 0)).metrics d.gauge) ≡ true)
        required_gauges
init_metrics-all_or_none_example = init_metrics-all_or_none (client 9) (fresh (client 9) 0) refl

nine_made :
    (init_metrics (client 9) (fresh (client 9) 0)).errors
    ≡ "Error al crear la métrica de memoria total" ∷ []
unfolding make make_optional make_required init_metrics
nine_made = refl

-- A client that keeps the values in a function, at first 7 for every metric.
abbrev values : Client Fraction
values = record {
  State = ℕ → Option Fraction;
  Metric = ℕ;
  prom_gauge_set = λ p x v n. elim p [ none ↦ v n | some m ↦ if n == m then some x else v n ];
  value = λ v n. v n;
}

values-IsClient : IsClient values
values-IsClient = record {
  same = λ m x v. rw (==-refl m) refl;
  other = λ m n x v ne. rw (==-false n m ne) refl;
}

abbrev sevens : ℕ → Option Fraction
sevens n = some (frac false 7 1)

-- The static pointers.
abbrev pointers : Gauge → Option ℕ
pointers g = some (number g)

abbrev two_turns : List (Input fractions values pointers)
two_turns =
    record { frags = start; world = world } ∷ record { frags = start; world = no_files 9 } ∷ []

rounds-HoldsNonneg_example :
    HoldsNonneg fractions values number
      (rounds fractions values pointers two_turns sevens statics).1
      Gauge.change_context
rounds-HoldsNonneg_example =
    rounds-HoldsNonneg fractions values pointers number two_turns sevens statics (λ n. refl)
      values-IsClient (λ g. refl) (λ g h d. d) (λ g. refl) Gauge.change_context
