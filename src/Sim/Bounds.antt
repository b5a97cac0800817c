-- ===== src/Sim/Bounds.antt =====
-- The bounds of src/sim_alloc.c: the data it generates.
use metrics_monitor.Base.{ℕ, zero, suc, ◌+◌, ◌≤◌, ◌<◌, ◌≡◌, refl, length, arith, All}
use metrics_monitor.Sim.{Paso, generar_datos}

-- An action is 0 or 1 and a size lies between 1 and 50.
pub record IsPaso (d : Paso) : Type 0 where
  pub accion : d.accion < 2
  pub tamano_min : 1 ≤ d.tamano
  pub tamano_max : d.tamano ≤ 50

-- Whatever `rand` gives, `generar_datos` fills all entries, with actions 0 or 1 and sizes from 1
-- to 50.
pub generar_datos-IsPaso :
    (rand : ℕ → ℕ) (k n : ℕ)
    → (length (generar_datos rand k n) ≡ n) × All IsPaso (generar_datos rand k n)
unfolding generar_datos
generar_datos-IsPaso rand k zero = (refl, tt)
generar_datos-IsPaso rand k (suc n) =
    let rest = generar_datos-IsPaso rand (k + 2) n in
    (
      omega arith,
      (record { accion = omega arith; tamano_min = omega arith; tamano_max = omega arith }, rest.1),
    )
