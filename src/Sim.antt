-- ===== src/Sim.antt =====
-- src/sim_alloc.c: the simulation that allocates and frees at random under one policy. `rand` is a
-- parameter, the sequence of its results; `k` counts the calls so far. The semaphore is left out.
pub mod Indices
pub mod Bounds
pub mod Liberar
use metrics_monitor.Base.{
  ℕ, zero, suc, ◌+◌, ◌-◌, ◌*◌, ◌%◌, Bool, true, false, ◌&&◌, Option, none, some, List, [], ◌∷◌,
  ◌++◌, ◌==◌, ltb, if◌then◌else◌, length,
}
use metrics_monitor.Double.{Double}
use metrics_monitor.Memory.{null}
use metrics_monitor.Alloc.State.{
  Os, Heap, Method, first_fit, best_fit, worst_fit, Cmd, pure, get, put, set_method, ◌>>=◌, ◌>>◌,
}
use metrics_monitor.Alloc.Api.{my_malloc, my_free, mem_trim}
use metrics_monitor.Alloc.Report.{external_frag}
use metrics_monitor.Expose.Round.{Frags}

-- `NUM_ITERACIONES`.
abbrev pub num_iteraciones : ℕ
num_iteraciones = 25

-- `TAMANO_MAXIMO_ASIGNACION`.
abbrev pub tamano_maximo_asignacion : ℕ
tamano_maximo_asignacion = 50

-- `MAX_PUNTEROS_ACTIVOS`.
abbrev pub max_punteros_activos : ℕ
max_punteros_activos = 10

-- One entry of the arrays `acciones` and `tamanos`.
pub record Paso : Type 0 where
  pub accion : ℕ
  pub tamano : ℕ

-- `generar_datos` from the `k`-th result of `rand` on, for `n` entries.
unfoldable pub generar_datos : (ℕ → ℕ) → ℕ → ℕ → List Paso
generar_datos rand k zero = []
generar_datos rand k (suc n) =
    record { accion = rand k % 2; tamano = rand (k + 1) % tamano_maximo_asignacion + 1 }
    ∷ generar_datos rand (k + 2) n

-- `punteros[i]`, an entry of the array below `asignaciones_activas`.
unfoldable pub entry : List ℕ → ℕ → ℕ
entry [] i = null
entry (p ∷ ps) zero = p
entry (p ∷ ps) (suc i) = entry ps i

-- `punteros[i] = p`.
unfoldable pub set_entry : List ℕ → ℕ → ℕ → List ℕ
set_entry [] i q = []
set_entry (p ∷ ps) zero q = q ∷ ps
set_entry (p ∷ ps) (suc i) q = p ∷ set_entry ps i q

-- The first `n` entries.
unfoldable pub active : ℕ → List ℕ → List ℕ
active zero ps = []
active (suc n) [] = []
active (suc n) (p ∷ ps) = p ∷ active n ps

-- `punteros[i] = punteros[--asignaciones_activas]`.
unfoldable pub drop_entry : List ℕ → ℕ → List ℕ
unfolding entry set_entry active
drop_entry ps i = active (length ps - 1) (set_entry ps i (entry ps (length ps - 1)))

-- The pointers in use and the number of calls of `rand`.
pub record Activas : Type 0 where
  pub punteros : List ℕ
  pub k : ℕ

module _ (os : Os) (fuel : ℕ) (rand : ℕ → ℕ) where
  -- One iteration of the loop of `simulador`.
  unfoldable pub paso : Paso → Activas → Cmd Activas
  unfolding drop_entry entry
  paso d a =
      let n : ℕ = length a.punteros in
      if d.accion == 0 && ltb n max_punteros_activos
      then (do
        bloque ← my_malloc os fuel d.tamano
        pure (if bloque == null then a else record a { punteros = a.punteros ++ (bloque ∷ []) }))
      else if d.accion == 1 && ltb 0 n
      then (do
        my_free os fuel (entry a.punteros (rand a.k % n))
        pure (record { punteros = drop_entry a.punteros (rand a.k % n); k = a.k + 1 }))
      else pure a

  unfoldable pub pasos : List Paso → Activas → Cmd Activas
  unfolding paso
  pasos [] a = pure a
  pasos (d ∷ ds) a = paso d a >>= pasos ds

  -- `for (...) my_free(punteros[i]);`
  unfoldable pub liberar : List ℕ → Cmd (Unit {0})
  liberar [] = pure tt
  liberar (p ∷ ps) = my_free os fuel p >> liberar ps

  -- The value stored in `*frag` and the number of calls of `rand`.
  unfoldable pub simulador : (D : Double) → Method → List Paso → ℕ → Cmd (D.Carrier × ℕ)
  unfolding pasos liberar external_frag mem_trim set_method
  simulador D metodo datos k = do
    h ← get
    put (set_method metodo h)
    a ← pasos datos (record { punteros = []; k = k })
    liberar a.punteros
    frag ← (λ h. elim (external_frag D fuel h) [ none ↦ none | some f ↦ some (f, h) ])
    mem_trim os fuel
    pure (frag, a.k)

-- The three getters; the semaphore around each read is left out.
module _ {A : Type 0} (f : Frags A) where
  unfoldable pub get_frag_first_fit : A
  get_frag_first_fit = f.frag0

  unfoldable pub get_frag_best_fit : A
  get_frag_best_fit = f.frag1

  unfoldable pub get_frag_worst_fit : A
  get_frag_worst_fit = f.frag2

-- The rest of the loop body of `init_sim` behind its `break`: the same data under the three
-- policies. The body is not reached. `k` counts the calls of `rand`.
unfoldable pub iteracion :
    (os : Os) (fuel : ℕ) (rand : ℕ → ℕ) (D : Double) → ℕ → Cmd (Frags D.Carrier × ℕ)
unfolding simulador generar_datos
iteracion os fuel rand D k =
    let datos = generar_datos rand k num_iteraciones in
    (do
      (f0, k1) ← simulador os fuel rand D first_fit datos (k + 2 * num_iteraciones)
      (f1, k2) ← simulador os fuel rand D best_fit datos k1
      (f2, k3) ← simulador os fuel rand D worst_fit datos k2
      pure (record { frag0 = f0; frag1 = f1; frag2 = f2 }, k3))

-- `init_sim` on the heap and the three variables: its loop ends at the `break` of its first turn,
-- before any call.
unfoldable pub init_sim : {A : Type 0} → Heap × Frags A → Heap × Frags A
init_sim s = s
