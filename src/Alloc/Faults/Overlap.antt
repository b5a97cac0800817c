-- ===== src/Alloc/Faults/Overlap.antt =====
-- `my_free` and `fusion` of lib/memory/src/memory.c on blocks that are neighbours in the list and
-- not in memory.
use metrics_monitor.Base.{
  ℕ, ◌+◌, ◌≤◌, ◌<◌, ◌≡◌, refl, true, false, some, List, [], ◌∷◌, ◌++◌, arith, length,
}
use mathlib.Core.Path.{subst}
use metrics_monitor.Pairwise.{Pairwise}
use metrics_monitor.Alloc.Block.{data_of}
use metrics_monitor.Alloc.State.{Os, Heap}
use metrics_monitor.Alloc.Api.{my_free}
use metrics_monitor.Alloc.Layout.{Cell, cell, Shows, HeadersApart, BlocksApart}
use metrics_monitor.Alloc.Layout.Mark.{marked}
use metrics_monitor.Alloc.Layout.Fuse.{fuse_cells, total_size}
use metrics_monitor.Alloc.Release.{Linked}
use metrics_monitor.Alloc.Free.{free_cells, my_free-Freed}

-- A free block is swallowed, and the used one behind it ends the fusion.
pub fuse_cells-one :
    (c d e : Cell) (r : List Cell)
    → d.is_free ≡ true
    → e.is_free ≡ false
    → fuse_cells c (d ∷ e ∷ r) ≡ record c { size = c.size + d.size } ∷ e ∷ r
unfolding fuse_cells
fuse_cells-one c d e [] free used = rw free refl
fuse_cells-one c d e (f ∷ r) free used = rw (free, used) refl

-- `my_free` of the block `c` before a free block `d` and a used block `e`, as `my_free` takes them,
-- makes one free block of the sizes of `c` and `d` at the address of `c`, wherever `d` lies. When `e`
-- lies behind `c` and closer to it than the size of `d`, that free block and the used block `e`
-- share bytes.
pub my_free-overlap :
    (os : Os) (fuel : ℕ) (h : Heap) (xs : List Cell) (c d e : Cell) (r : List Cell)
    → length (xs ++ (c ∷ d ∷ e ∷ r)) < fuel
    → c.addr < 18446744073709551616
    → total_size (c ∷ d ∷ e ∷ r) < 18446744073709551616
    → d.is_free ≡ true
    → e.is_free ≡ false
    → c.addr + 40 + c.size ≤ e.addr
    → e.addr < c.addr + 40 + c.size + d.size
    → Linked h.mem xs c
    → Pairwise HeadersApart (xs ++ (c ∷ d ∷ e ∷ r))
    → Shows h.mem h.base (xs ++ (c ∷ d ∷ e ∷ r))
    → (h' : Heap) × (my_free os fuel (data_of c.addr) h ≡ some (tt, h'))
      × Shows h'.mem h'.base (xs ++ (cell c.addr (c.size + d.size) true ∷ e ∷ r))
      × (¬ BlocksApart (cell c.addr (c.size + d.size) true) e)
unfolding free_cells
my_free-overlap os fuel h xs c d e r enough small total free used behind near linked apart sh =
    let f = my_free-Freed os fuel h xs c (d ∷ e ∷ r) enough small total linked apart sh in
    (
      f.heap,
      f.runs,
      subst (λ t. Shows f.heap.mem f.heap.base (xs ++ t))
          (fuse_cells-one (marked 1 c) d e r free used) f.shows,
      λ k. omega arith,
    )
