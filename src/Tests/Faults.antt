-- ===== src/Tests/Faults.antt =====
-- Theorems about the allocator that need heaps of their own.
use metrics_monitor.Base.{
  inl, inr, ◌≤◌, ◌<◌, ℕ, ◌≡◌, refl, true, false, Option, none, some, [], ◌∷◌, arith,
}
use metrics_monitor.Memory.{Mem, store}
use metrics_monitor.Alloc.Words.{align}
use metrics_monitor.Alloc.Block.{is_free, set_free}
use metrics_monitor.Alloc.State.{Heap, log_handler}
use metrics_monitor.Alloc.Find.{find_block, first_loop, best_loop, worst_loop}
use metrics_monitor.Alloc.Ops.{init_block, split_at, split_block, trim_block, take_block}
use metrics_monitor.Alloc.Api.{place, log_malloc, my_malloc, my_free, my_realloc}
use metrics_monitor.Alloc.Layout.{cell, Shows, BlocksApart}
use metrics_monitor.Alloc.Layout.Fuse.{total_size}
use metrics_monitor.Alloc.Faults.Overlap.{my_free-overlap}
use metrics_monitor.Alloc.Faults.Lost.{my_realloc-lost}
use metrics_monitor.Alloc.Invariant.{HeapInv}
use metrics_monitor.Alloc.Faults.Unlinked.{my_free-split_block}
use metrics_monitor.Alloc.Layout.Take.{take_cell}
use metrics_monitor.Alloc.Realloc.Grow.{my_realloc-grows}
use metrics_monitor.Tests.System.{demo, demo-IsMmap}
use metrics_monitor.Tests.Blocks.{three, three-HeapInv, region}

-- Used at 4096, free at 12288, used at 8192, in this order in the list.
abbrev crossed_blocks : Mem
crossed_blocks =
    set_free
      (init_block 8192 12288 104 (init_block 12288 4096 8000 (init_block 4096 0 200 (λ _. 0))))
      12288 1

abbrev crossed : Heap
crossed = record three {
  mem = crossed_blocks;
  maps = region 8192 104 ∷ region 12288 8000 ∷ region 4096 200 ∷ [];
}

my_free-overlap_example :
    (h' : Heap) × (my_free demo 10 4136 crossed ≡ some (tt, h'))
    × Shows h'.mem h'.base (cell 4096 8200 true ∷ cell 8192 104 false ∷ [])
    × (¬ BlocksApart (cell 4096 8200 true) (cell 8192 104 false))
unfolding total_size init_block store
my_free-overlap_example =
    my_free-overlap demo 10 crossed [] (cell 4096 200 false) (cell 12288 8000 true)
      (cell 8192 104 false) [] (omega arith) (omega arith) (omega arith) refl refl (omega arith)
      (omega arith) (record { data_link = refl; back_link = refl }) (omega arith)
      (
        refl,
        omega arith,
        refl,
        refl,
        (refl, omega arith, refl, refl, (refl, omega arith, refl, refl, refl)),
      )

-- Used at 4096, free at 4240 as `split_block` leaves it, used at 8192.
abbrev split_heap : Heap
split_heap = record three {
  mem = split_at 4096 104 4240 (init_block 8192 4096 200 (init_block 4096 0 3000 (λ _. 0)));
  maps = region 8192 200 ∷ region 4096 3000 ∷ [];
}

-- The free block in the middle of `three`, split behind 104 bytes.
abbrev halved : Heap
halved = record three { mem = split_block 8192 104 three.mem }

-- A request of 200 bytes is given the surplus.
given : Heap
given = heap_of (my_malloc demo 10 200 halved)
  where
    heap_of : Option (ℕ × Heap) → Heap
    heap_of none = three
    heap_of (some (p, h)) = h

my_free-split_block_example : my_free demo 10 8376 given ≡ some (tt, given)
unfolding given my_malloc place find_block first_loop best_loop worst_loop align take_block
    trim_block split_block split_at log_malloc log_handler store init_block
my_free-split_block_example =
    my_free-split_block demo 10 104 200 three given (cell 4096 200 false ∷ [])
      (cell 12288 104 false ∷ []) (cell 8192 512 true) demo-IsMmap tt (omega arith) (omega arith)
      (omega arith) (omega arith) (omega arith) three-HeapInv (omega arith) refl

-- Used at 4096, free at 4240 as `split_block` leaves it, used at 8192 and at 12288.
abbrev lossy : Heap
lossy = record three {
  mem =
      split_at 4096 104 4240
        (init_block 12288 8192 104 (init_block 8192 4096 200 (init_block 4096 0 3000 (λ _. 0))));
  maps = region 12288 104 ∷ region 8192 200 ∷ region 4096 3000 ∷ [];
}

lossy-HeapInv :
    HeapInv lossy
      (cell 4096 104 false ∷ cell 4240 2856 true ∷ cell 8192 200 false ∷ cell 12288 104 false ∷ [])
unfolding split_at init_block store
lossy-HeapInv = record {
  shows = (
    refl,
    omega arith,
    refl,
    refl,
    (
      refl,
      omega arith,
      refl,
      refl,
      (refl, omega arith, refl, refl, (refl, omega arith, refl, refl, refl)),
    ),
  );
  apart = omega arith;
  covered = (
    λ x lo hi. inr (inr (inl (omega arith))),
    (
      λ x lo hi. inr (inr (inl (omega arith))),
      (λ x lo hi. inr (inl (omega arith)), (λ x lo hi. inl (omega arith), tt)),
    ),
  );
  in_space = omega arith;
}

got_heap : Heap
got_heap = heap_of (my_malloc demo 10 400 (record lossy { malloc_call = 1 }))
  where
    heap_of : Option (ℕ × Heap) → Heap
    heap_of none = three
    heap_of (some (p, h)) = h

my_realloc-lost_example :
    (h' : Heap) × (my_realloc demo 10 8232 400 lossy ≡ some (4280, h'))
    × ((y : ℕ) → 4280 ≤ y → y < 4680 → h'.mem y ≡ got_heap.mem y)
    × (is_free h'.mem 8192 ≡ true)
unfolding total_size got_heap my_malloc place find_block best_loop align take_block trim_block
    split_block split_at log_malloc log_handler store init_block
my_realloc-lost_example =
    my_realloc-lost demo 10 400 lossy got_heap (cell 4096 104 false ∷ cell 4240 2856 true ∷ []) []
      (cell 4096 104 false ∷ []) (cell 8192 200 false ∷ cell 12288 104 false ∷ [])
      (cell 8192 200 false) (cell 12288 104 false) (cell 4240 2856 true) demo-IsMmap tt
      (omega arith) (omega arith) (omega arith) (omega arith) (omega arith) lossy-HeapInv refl refl
      (omega arith) refl refl refl refl

-- The first block grows into the second, whose rest of 920 bytes stays free.
my_realloc-grows_example :
    (h' : Heap) × (my_realloc demo 10 4136 2000 split_heap ≡ some (4136, h'))
    × Shows h'.mem h'.base (cell 4096 2000 false ∷ cell 6136 920 true ∷ cell 8192 200 false ∷ [])
unfolding align total_size take_cell split_at init_block store
my_realloc-grows_example =
    my_realloc-grows demo 10 2000 split_heap [] [] (cell 4096 104 false) (cell 4240 2856 true)
      (cell 8192 200 false) (omega arith) (omega arith) (omega arith) refl refl refl refl
      (omega arith) (omega arith) refl (omega arith)
      (
        refl,
        omega arith,
        refl,
        refl,
        (refl, omega arith, refl, refl, (refl, omega arith, refl, refl, refl)),
      )
