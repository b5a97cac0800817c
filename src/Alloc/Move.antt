-- ===== src/Alloc/Move.antt =====
-- `my_realloc` of lib/memory/src/memory.c where it moves the block: a new block is made, the data
-- are copied, and the old block is freed.
pub mod Data
pub mod Whole
use metrics_monitor.Base.{
  ℕ, zero, suc, ◌+◌, ◌-◌, ◌*◌, ◌%◌, ◌≤◌, ◌<◌, ◌≡◌, ◌≢◌, ◌⊎◌, refl, sym, ap, ◌∙◌, inl, inr, true,
  false, none, some, List, [], ◌∷◌, ◌++◌, arith, ◌==◌, ==-false, ==-refl, if◌then◌else◌, leb,
  length, length-append, All,
}
use mathlib.Core.Path.{subst}
use mathlib.Core.List.{append_assoc}
use metrics_monitor.Memory.{Mem, null, load_int, load_int-frame}
use metrics_monitor.Pairwise.{Pairwise, around, All-append, All-left, All-right, All-map}
use metrics_monitor.Alloc.Words.{align}
use metrics_monitor.Alloc.Words.Bounds.{align_bounds, align_again}
use metrics_monitor.Alloc.Block.{size, next, ptr, data_of, get_block}
use metrics_monitor.Alloc.State.{Os, IsMmap, Heap, Disjoint, round_page, log_handler}
use metrics_monitor.Alloc.Ops.{valid_addr, copy_block}
use metrics_monitor.Alloc.Api.{
  my_malloc, my_free, can_grow, realloc_entry, move_block, resize, my_realloc,
}
use metrics_monitor.Alloc.Layout.{
  Cell, cell, Shows, Seen, SameHeader, BlocksApart, BlocksApart-sym, Shows-Seen, Shows-frame,
}
use metrics_monitor.Alloc.Layout.Mark.{marked}
use metrics_monitor.Alloc.Layout.Take.{Pairwise-HeadersApart}
use metrics_monitor.Alloc.Layout.Fuse.{fuse_cells, total_size, Clear}
use metrics_monitor.Alloc.Choice.{IsPolicy, NoneChosen}
use metrics_monitor.Alloc.Copy.{Headers, Copied, copy_loop-Copied, copy_block-loop}
use metrics_monitor.Alloc.Free.{Inner, free-Inner}
use metrics_monitor.Alloc.Invariant.{HeapInv, Covered, Covered-fresh}
use metrics_monitor.Alloc.Malloc.Fresh.{Fresh, my_malloc-Fresh}
use metrics_monitor.Alloc.Realloc.{log_handler-fields}
use metrics_monitor.Alloc.Valid.{valid_addr-block, get_block-data_of}

-- An address in the data of a block, or in the last word of its header, is clear of another block.
pub Clear-away :
    (y : ℕ) (c d : Cell) → c.addr + 32 ≤ y → y < c.addr + 40 + c.size → BlocksApart c d → Clear y d
Clear-away y c d lo hi apart = ground arith

pub move_block-runs :
    (os : Os) (fuel b q s : ℕ) (h h1 h2 : Heap) (p : ℕ) (m : Mem)
    → my_malloc os fuel s h ≡ some (p, h1)
    → p ≢ null
    → copy_block fuel b (get_block p) h1.mem ≡ some m
    → my_free os fuel q (record h1 { mem = m }) ≡ some (tt, h2)
    → move_block os fuel b q s h ≡ some (p, log_handler os (realloc_entry p) h2)
unfolding move_block
move_block-runs os fuel b q s h h1 h2 p m e ne c f = ground (arith, e, ne, c, f)

-- The branch of `my_realloc` that moves the block.
pub my_realloc-move :
    (os : Os) (fuel n b : ℕ) (h : Heap)
    → b < 18446744073709551616
    → valid_addr fuel (data_of b) (record h { malloc_call = 1 }) ≡ some true
    → size h.mem b < align n
    → can_grow b (align n) h.mem ≡ false
    → my_realloc os fuel (data_of b) n h
      ≡ move_block os fuel b (data_of b) (align n) (record h { malloc_call = 1 })
unfolding my_realloc resize
my_realloc-move os fuel n b h small valid larger stuck =
    let there : (data_of b == null) ≡ false = ground arith in
    let short : leb (align n) (size h.mem b) ≡ false = ground arith in
    rw (there, valid, get_block-data_of b small, short, stuck) refl
