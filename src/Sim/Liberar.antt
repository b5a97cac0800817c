-- ===== src/Sim/Liberar.antt =====
-- The loop of src/sim_alloc.c that frees what `simulador` has left.
use metrics_monitor.Base.{ℕ, ◌≡◌, refl, some, List, [], ◌∷◌, ◌++◌}
use mathlib.Core.Path.{subst}
use metrics_monitor.Alloc.Block.{data_of}
use metrics_monitor.Alloc.State.{Os, Heap, ◌>>=◌, ◌>>◌}
use metrics_monitor.Alloc.Api.{my_free}
use metrics_monitor.Alloc.Layout.{Cell}
use metrics_monitor.Alloc.Free.{free_cells}
use metrics_monitor.Alloc.Free.Ready.{Ready, my_free-Ready}
use metrics_monitor.Sim.{liberar}

-- The list `ds` is what is left of `cs` when the blocks with these data addresses are released in
-- order, each of which is in the list at its turn.
pub data Releases : List Cell → List ℕ → List Cell → Type 0 where
  done : {cs : List Cell} → Releases cs [] cs
  next :
      {cs ds : List Cell} {ps : List ℕ} (xs ys : List Cell) (c : Cell)
      → cs ≡ xs ++ (c ∷ ys)
      → Releases (free_cells xs c ys) ps ds
      → Releases cs (data_of c.addr ∷ ps) ds

module _ (os : Os) (fuel : ℕ) (rand : ℕ → ℕ) where
  liberar-cons :
      (p : ℕ) (ps : List ℕ) (h h1 h2 : Heap)
      → my_free os fuel p h ≡ some (tt, h1)
      → liberar os fuel rand ps h1 ≡ some (tt, h2)
      → liberar os fuel rand (p ∷ ps) h ≡ some (tt, h2)
  unfolding liberar
  liberar-cons p ps h h1 h2 e f = rw (◌>>◌, ◌>>=◌, e) f

  -- When every block's links are right, headers do not overlap, the sizes sum to less than 2^64
  -- and the fuel exceeds the length of the list, the loop ends for any pointers to blocks that are
  -- in the list at their turn, in any order; the list is then exactly the one that releasing the
  -- blocks in this order describes, and every block's links are right again.
  pub liberar-Releases :
      (h : Heap) (cs ds : List Cell) (ps : List ℕ)
      → Ready fuel h cs
      → Releases cs ps ds
      → (h' : Heap) × (liberar os fuel rand ps h ≡ some (tt, h')) × Ready fuel h' ds
  unfolding liberar
  liberar-Releases h cs _ _ r done = (h, refl, r)
  liberar-Releases h cs ds _ r (next {ps = ps} xs ys c e rest) =
      let step = my_free-Ready os fuel h xs ys c (subst (Ready fuel h) e r) in
      let f = step.0 in
      let rec = liberar-Releases f.heap (free_cells xs c ys) ds ps step.1 rest in
      (rec.0, liberar-cons (data_of c.addr) ps h f.heap rec.0 f.runs rec.1, rec.2)
