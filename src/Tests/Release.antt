-- ===== src/Tests/Release.antt =====
-- A used block with a free one side by side behind it, released.
use metrics_monitor.Base.{refl, inl, inr, true, false, List, [], ◌∷◌, arith}
use metrics_monitor.Memory.{Mem, store}
use metrics_monitor.Alloc.Block.{set_free}
use metrics_monitor.Alloc.State.{Heap}
use metrics_monitor.Alloc.Ops.{init_block}
use metrics_monitor.Alloc.Layout.{Cell, cell}
use metrics_monitor.Alloc.Layout.Fuse.{fuse_cells, total_size}
use metrics_monitor.Alloc.Invariant.{HeapInv}
use metrics_monitor.Alloc.Free.{free_cells, Freed}
use metrics_monitor.Alloc.Free.Keep.{my_free-Inv}
use metrics_monitor.Tests.System.{demo}
use metrics_monitor.Tests.Blocks.{three, region}

abbrev memory : Mem
memory =
    set_free (init_block 8192 4336 504 (init_block 4336 4096 100 (init_block 4096 0 200 (λ _. 0))))
      4336 1

abbrev beside : Heap
beside = record three { mem = memory; maps = region 8192 504 ∷ region 4096 340 ∷ [] }

abbrev behind : List Cell
behind = cell 4336 100 true ∷ cell 8192 504 false ∷ []

beside-HeapInv : HeapInv beside (cell 4096 200 false ∷ behind)
unfolding init_block store
beside-HeapInv = record {
  shows = (
    refl,
    omega arith,
    refl,
    refl,
    (refl, omega arith, refl, refl, (refl, omega arith, refl, refl, refl)),
  );
  apart = omega arith;
  covered = (
    λ x lo hi. inr (inl (omega arith)),
    (λ x lo hi. inr (inl (omega arith)), (λ x lo hi. inl (omega arith), tt)),
  );
  in_space = omega arith;
}

my_free-Inv_example :
    (f : Freed demo 10 beside [] (cell 4096 200 false) behind) × HeapInv f.heap
      (cell 4096 300 true ∷ cell 8192 504 false ∷ [])
unfolding total_size init_block store free_cells fuse_cells
my_free-Inv_example =
    my_free-Inv demo 10 beside [] (cell 4096 200 false) behind (omega arith) (omega arith)
      (record { data_link = refl; back_link = refl }) (refl, tt) beside-HeapInv
