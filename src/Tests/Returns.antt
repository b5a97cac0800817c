-- ===== src/Tests/Returns.antt =====
-- The theorems on what is freed, copied and reported, at small heaps.
use metrics_monitor.Base.{
  ℕ, ◌+◌, ◌*◌, ◌≡◌, refl, inl, true, false, Option, none, some, [], ◌∷◌, arith,
}
use metrics_monitor.Memory.{null, store, load_int}
use metrics_monitor.Alloc.Words.{align}
use metrics_monitor.Alloc.State.{Heap, log_handler}
use metrics_monitor.Alloc.Ops.{init_block, extend_heap}
use metrics_monitor.Alloc.Api.{place, log_malloc, my_malloc, my_free, my_realloc, mem_trim}
use metrics_monitor.Alloc.Layout.{cell, Shows}
use metrics_monitor.Alloc.Layout.Fuse.{total_size, fuse_cells}
use metrics_monitor.Alloc.Malloc.Undo.{my_malloc-my_free}
use metrics_monitor.Alloc.Find.{find_block, best_loop}
use metrics_monitor.Alloc.Move.Whole.{my_realloc-moves}
use metrics_monitor.Alloc.Trim.Loop.{mem_trim-empties}
use metrics_monitor.Alloc.Report.{Warning, block_lines, check_heap}
use metrics_monitor.Alloc.Report.Check.{faults, is_tidy, is_nil, check_heap-faults}
use metrics_monitor.Tests.System.{demo, demo-IsMmap, hand_out, top}
use metrics_monitor.Tests.Blocks.{three, three_blocks, three_cells, three-Shows, three-HeapInv}

mem_trim-empties_example :
    (h' : Heap) × (mem_trim demo 10 three ≡ some (tt, h'))
    × (h'.base ≡ null)
    × (h'.maps ≡ three.maps)
unfolding total_size init_block store
mem_trim-empties_example =
    mem_trim-empties demo 10 three three_cells (omega arith) (omega arith) (omega arith)
      (inl refl, (inl refl, (inl refl, tt))) (omega arith) three-Shows

check_heap-faults_example :
    (check_heap 10 77 8232 three ≡ some (block_lines 77 8192 three_blocks, []))
    × (is_nil {A = Warning} [] ≡ is_tidy three_cells)
unfolding faults
check_heap-faults_example =
    check_heap-faults 10 77 three (cell 4096 200 false ∷ []) (cell 12288 104 false ∷ [])
      (cell 8192 512 true) (omega arith) (omega arith) three-Shows

-- No block of `three` has 1000 bytes: the request is met by a new region.
big : Heap
big = heap_of (my_malloc demo 10 1000 three)
  where
    heap_of : Option (ℕ × Heap) → Heap
    heap_of none = three
    heap_of (some (p, h)) = h

my_malloc-my_free_example :
    (h2 : Heap) × (my_free demo 10 20520 big ≡ some (tt, h2)) × Shows h2.mem h2.base three_cells
unfolding big my_malloc place find_block best_loop align extend_heap init_block store log_malloc
    log_handler hand_out top
my_malloc-my_free_example =
    my_malloc-my_free demo 10 1000 three big three_cells 20520 demo-IsMmap tt (omega arith)
      (omega arith) (omega arith) (omega arith) three-HeapInv
      ((λ e. cc), ((λ e. cc), ((λ e. cc), tt))) refl (omega arith)

-- The first block of `three` moves behind the others, and becomes one free block with the second.
my_realloc-moves_example :
    (h' : Heap) × (my_realloc demo 60 4136 1000 three ≡ some (20520, h'))
    × (load_int h'.mem (20520 + 3 * 4) ≡ load_int three_blocks (4136 + 3 * 4))
    × Shows h'.mem h'.base (cell 4096 712 true ∷ cell 12288 104 false ∷ cell 20480 1000 false ∷ [])
unfolding align total_size fuse_cells hand_out top init_block store
my_realloc-moves_example =
    my_realloc-moves demo 60 1000 3 three [] (cell 8192 512 true ∷ cell 12288 104 false ∷ [])
      (cell 4096 200 false) 20480 _ demo-IsMmap tt (omega arith) (omega arith) (omega arith)
      (omega arith) (omega arith) (omega arith) three-HeapInv refl refl refl (omega arith) refl
      ((λ e. cc), ((λ e. cc), ((λ e. cc), tt))) refl (omega arith)
