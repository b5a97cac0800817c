-- ===== src/Tests/Liberar.antt =====
-- The loop that frees the remaining pointers, on a heap of three blocks.
use metrics_monitor.Base.{◌≡◌, refl, true, false, some, [], ◌∷◌, arith}
use metrics_monitor.Memory.{store}
use metrics_monitor.Alloc.State.{Heap}
use metrics_monitor.Alloc.Ops.{init_block}
use metrics_monitor.Alloc.Layout.{cell}
use metrics_monitor.Alloc.Layout.Fuse.{fuse_cells, total_size}
use metrics_monitor.Alloc.Free.{free_cells}
use metrics_monitor.Alloc.Free.Ready.{Ready}
use metrics_monitor.Sim.{liberar}
use metrics_monitor.Sim.Liberar.{next, done, liberar-Releases}
use metrics_monitor.Tests.System.{demo}
use metrics_monitor.Tests.Blocks.{three, three_cells, three-Shows}

three-Ready : Ready 10 three three_cells
unfolding init_block store total_size
three-Ready = record {
  shows = three-Shows;
  apart = omega arith;
  links = (refl, refl, (refl, refl, (refl, refl, tt)));
  in_space = omega arith;
  total = omega arith;
  enough = omega arith;
}

-- The first block swallows the free one behind it, and the last one leaves the list.
liberar-Releases_example :
    (h' : Heap) × (liberar demo 10 (λ n. n) (4136 ∷ 12328 ∷ []) three ≡ some (tt, h'))
    × Ready 10 h' (cell 4096 712 true ∷ [])
unfolding free_cells fuse_cells
liberar-Releases_example =
    liberar-Releases demo 10 (λ n. n) three three_cells (cell 4096 712 true ∷ [])
      (4136 ∷ 12328 ∷ []) three-Ready
      (next [] (cell 8192 512 true ∷ cell 12288 104 false ∷ []) (cell 4096 200 false) refl
        (next (cell 4096 712 true ∷ []) [] (cell 12288 104 false) refl done))
