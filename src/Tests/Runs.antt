-- ===== src/Tests/Runs.antt =====
-- The simulation on a small system.
use metrics_monitor.Base.{
  ℕ, ◌+◌, ◌*◌, ◌%◌, ◌≡◌, true, false, Bool, Option, none, some, [], ◌∷◌, arith, length, All,
}
use mathlib.Core.List.{Perm}
use metrics_monitor.Alloc.State.{Heap, first_fit}
use metrics_monitor.Sim.{generar_datos, entry, set_entry, active, drop_entry, simulador}
use metrics_monitor.Sim.Indices.{drop_entry-Perm}
use metrics_monitor.Sim.Bounds.{IsPaso, generar_datos-IsPaso}
use metrics_monitor.Tests.System.{demo}
use metrics_monitor.Tests.Numbers.{fractions}

abbrev rand : ℕ → ℕ
rand k = (k * 1103 + 12345) % 997

abbrev blank : Heap
blank = record {
  mem = λ x. 0;
  base = 0;
  method = first_fit;
  malloc_call = 0;
  log_open = false;
  log = [];
  maps = [];
  breaks = [];
}

abbrev returns : {A : Type 0} → Option A → Bool
returns none = false
returns (some a) = true

-- Whether the whole simulation of four steps ends.
abbrev ends : Bool
unfolding simulador generar_datos
ends = returns (simulador demo 10 rand fractions first_fit (generar_datos rand 0 4) 8 blank)

generar_datos-IsPaso_example :
    (length (generar_datos rand 0 25) ≡ 25) × All IsPaso (generar_datos rand 0 25)
generar_datos-IsPaso_example = generar_datos-IsPaso rand 0 25

drop_entry-Perm_example : Perm {A = ℕ} (8 ∷ 16 ∷ 24 ∷ 32 ∷ []) (16 ∷ 8 ∷ 32 ∷ 24 ∷ [])
unfolding entry set_entry active drop_entry
drop_entry-Perm_example = drop_entry-Perm (8 ∷ 16 ∷ 24 ∷ 32 ∷ []) 1 (omega arith)
