-- ===== src/Tests/Blocks.antt =====
-- Heaps with a few blocks, and the theorems about the allocator at them.
use metrics_monitor.Base.{
  map, ℕ, ◌+◌, ◌<◌, Option, none, ◌≡◌, refl, inl, inr, true, false, some, List, [], ◌∷◌, ◌++◌,
  arith,
}
use metrics_monitor.Memory.{Mem, null, store}
use metrics_monitor.Pairwise.{Pairwise}
use metrics_monitor.Alloc.Words.{align}
use metrics_monitor.Alloc.Block.{size, set_free}
use metrics_monitor.Alloc.State.{Heap, Mapping, log_handler, best_fit}
use metrics_monitor.Alloc.Ops.{
  init_block, split_at, split_block, take_block, trim_block, extend_heap, fusion,
}
use metrics_monitor.Alloc.Find.{find_block, best_loop}
use metrics_monitor.Alloc.Choice.{Chosen, find_block-Chosen}
use metrics_monitor.Alloc.Layout.Split.{split_cell, split_block-Shows}
use metrics_monitor.Alloc.Layout.Take.{take_cell}
use metrics_monitor.Alloc.Layout.Fuse.{
  total_size, fuse_cells, fusion-fuse_cells, total_size-fuse_cells,
}
use metrics_monitor.Alloc.Free.{Freed, my_free-Freed}
use metrics_monitor.Alloc.Realloc.{my_realloc-shrink, my_realloc-short}
use metrics_monitor.Alloc.Calloc.{Cleared, my_calloc-Cleared}
use metrics_monitor.Alloc.Faults.{extend_heap-overrun}
use metrics_monitor.Alloc.Api.{place, log_malloc, my_malloc, my_realloc}
use metrics_monitor.Alloc.Layout.{Cell, cell, Shows, HeadersApart}
use metrics_monitor.Alloc.Invariant.{HeapInv}
use metrics_monitor.Alloc.Malloc.Run.{Malloced, my_malloc-Malloced}
use metrics_monitor.Alloc.Report.{memory_usage, external_frag}
use metrics_monitor.Alloc.Report.Totals.{lines_of, used_size, free_size, memory_usage-sums}
use metrics_monitor.Alloc.Report.Frag.{max_used, unusable, sum_sizes, external_frag-share}
use metrics_monitor.Tests.Numbers.{fractions, frac}
use metrics_monitor.Tests.System.{demo, demo-IsMmap, hand_out, top}

-- Three blocks in three regions: used, free, used.
abbrev pub three_blocks : Mem
three_blocks =
    set_free (init_block 12288 8192 104 (init_block 8192 4096 512 (init_block 4096 0 200 (λ _. 0))))
      8192 1

abbrev pub region : ℕ → ℕ → Mapping
region a n = record { start = a; len = n }

abbrev pub three : Heap
three = record {
  mem = three_blocks;
  base = 4096;
  method = best_fit;
  malloc_call = 0;
  log_open = false;
  log = [];
  maps = region 12288 104 ∷ region 8192 512 ∷ region 4096 200 ∷ [];
  breaks = [];
}

-- What `my_malloc` leaves behind for `my_calloc`.
calloc_heap : Heap
calloc_heap = heap_of (my_malloc demo 10 24 (record three { malloc_call = 1 }))
  where
    heap_of : Option (ℕ × Heap) → Heap
    heap_of none = three
    heap_of (some (p, h)) = h

abbrev pub three_cells : List Cell
three_cells = cell 4096 200 false ∷ cell 8192 512 true ∷ cell 12288 104 false ∷ []

pub three-Shows : Shows three_blocks 4096 three_cells
unfolding init_block store
three-Shows = (
  refl,
  omega arith,
  refl,
  refl,
  (refl, omega arith, refl, refl, (refl, omega arith, refl, refl, refl)),
)

pub three-HeapInv : HeapInv three three_cells
three-HeapInv = record {
  shows = three-Shows;
  apart = omega arith;
  covered = (
    λ x lo hi. inr (inr (inl (omega arith))),
    (λ x lo hi. inr (inl (omega arith)), (λ x lo hi. inl (omega arith), tt)),
  );
  in_space = omega arith;
}

my_malloc-Malloced_example : Malloced demo 10 100 three three_cells
unfolding align
my_malloc-Malloced_example =
    my_malloc-Malloced demo 10 100 three three_cells demo-IsMmap tt (omega arith) (omega arith)
      (omega arith) (omega arith) three-HeapInv

find_block-Chosen_example :
    (r : ℕ × ℕ) × (find_block 10 best_fit three_blocks 4096 4096 104 ≡ some r)
    × Chosen best_fit 104 4096 three_cells r.0 r.1
find_block-Chosen_example =
    find_block-Chosen three_blocks 104 10 4096 4096 three_cells three-Shows (omega arith)
      (omega arith) (omega arith) best_fit tt

split_block-Shows_example :
    Shows
      (split_block 8192 104 three_blocks)
      4096
      (cell 4096 200 false ∷ (split_cell 104 (cell 8192 512 true) ++ (cell 12288 104 false ∷ [])))
split_block-Shows_example =
    split_block-Shows three_blocks 4096 104 (cell 4096 200 false ∷ []) (cell 12288 104 false ∷ [])
      (cell 8192 512 true) (omega arith) (omega arith) three-HeapInv.apart three-Shows

fusion-fuse_cells_example :
    (m' : Mem) × (fusion 10 4096 three_blocks ≡ some m')
    × Shows m' 4096 (cell 4096 712 false ∷ cell 12288 104 false ∷ [])
    × Pairwise HeadersApart (cell 4096 712 false ∷ cell 12288 104 false ∷ [])
unfolding total_size fuse_cells
fusion-fuse_cells_example =
    fusion-fuse_cells 10 three_blocks 4096 [] (cell 8192 512 true ∷ cell 12288 104 false ∷ [])
      (cell 4096 200 false) (omega arith) (omega arith) (omega arith) three-Shows

total_size-fuse_cells_example :
    total_size (fuse_cells (cell 4096 200 false) (cell 8192 512 true ∷ cell 12288 104 false ∷ []))
    ≡ 816
unfolding total_size
total_size-fuse_cells_example =
    total_size-fuse_cells (cell 4096 200 false) (cell 8192 512 true ∷ cell 12288 104 false ∷ [])

memory_usage-sums_example :
    (memory_usage 10 three
      ≡ some (
        map (lines_of three.mem) three_cells,
        816,
        record { total_allocated = 304; total_free = 512 },
      ))
    × (304 + 512 ≡ 816)
unfolding used_size free_size total_size
memory_usage-sums_example =
    memory_usage-sums 10 three three_cells (omega arith) (omega arith) three-Shows

external_frag-share_example : external_frag fractions 10 three ≡ some (frac false 0 816)
unfolding sum_sizes unusable max_used
external_frag-share_example =
    external_frag-share fractions 10 three three_cells (omega arith) three-Shows

my_free-Freed_example :
    Freed demo 10 three [] (cell 4096 200 false) (cell 8192 512 true ∷ cell 12288 104 false ∷ [])
unfolding total_size init_block store
my_free-Freed_example =
    my_free-Freed demo 10 three [] (cell 4096 200 false)
      (cell 8192 512 true ∷ cell 12288 104 false ∷ []) (omega arith) (omega arith) (omega arith)
      (record { data_link = refl; back_link = refl }) (omega arith) three-Shows

my_realloc-shrink_example :
    (h' : Heap) × (my_realloc demo 10 4136 100 three ≡ some (4136, h'))
    × Shows h'.mem h'.base (
        take_cell (align 100) (cell 4096 200 false)
        ++ (cell 8192 512 true ∷ cell 12288 104 false ∷ []))
unfolding align init_block store
my_realloc-shrink_example =
    my_realloc-shrink demo 10 100 three [] (cell 8192 512 true ∷ cell 12288 104 false ∷ [])
      (cell 4096 200 false) (omega arith) (omega arith) (omega arith) refl (omega arith) refl
      (omega arith) three-Shows

extend_heap-overrun_example :
    (h' : Heap) × (extend_heap demo null 4096 three ≡ some (20480, h'))
    × (h'.maps ≡ region 20480 4096 ∷ three.maps)
    × (20480 + 4096 < 20480 + 40 + size h'.mem 20480)
unfolding hand_out top
extend_heap-overrun_example =
    extend_heap-overrun demo three null 4096 20480 _ refl (inl refl) (omega arith)

my_calloc-Cleared_example : Cleared demo 10 3 8 three 8232 calloc_heap
unfolding calloc_heap my_malloc place find_block best_loop align take_block trim_block split_block
    split_at log_malloc log_handler store init_block
my_calloc-Cleared_example =
    my_calloc-Cleared demo 10 3 8 three 8232 calloc_heap (omega arith) (omega arith) refl
      (omega arith)

-- A used block of 200 bytes with a free one of 100 behind it, the last of the list.
abbrev two_blocks : Mem
two_blocks = split_at 4096 200 4336 (init_block 4096 0 340 (λ _. 0))

abbrev two : Heap
two = record three { mem = two_blocks; maps = region 4096 340 ∷ [] }

abbrev two_cells : List Cell
two_cells = cell 4096 200 false ∷ cell 4336 100 true ∷ []

two-Shows : Shows two_blocks 4096 two_cells
unfolding init_block split_at store
two-Shows = (refl, omega arith, refl, refl, (refl, omega arith, refl, refl, refl))

my_realloc-short_example :
    (h' : Heap) × (my_realloc demo 10 4136 300 two ≡ some (4136, h'))
    × (h'.mem ≡ two_blocks)
    × (size h'.mem 4096 < align 300)
unfolding align init_block split_at store
my_realloc-short_example =
    my_realloc-short demo 10 300 two [] (cell 4096 200 false) (cell 4336 100 true) (omega arith)
      (omega arith) refl (omega arith) (omega arith) (omega arith) (omega arith) refl (omega arith)
      two-Shows
