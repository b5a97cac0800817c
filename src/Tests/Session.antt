-- ===== src/Tests/Session.antt =====
-- Two allocations from an empty heap under two policies.
use metrics_monitor.Base.{ℕ, ◌≡◌, refl, inr, false, Option, none, some, [], ◌∷◌, arith}
use metrics_monitor.Memory.{store}
use metrics_monitor.Pairwise.{Pairwise}
use metrics_monitor.Alloc.Words.{align}
use metrics_monitor.Alloc.State.{Heap, first_fit, set_method, log_handler}
use metrics_monitor.Alloc.Find.{find_block, best_loop, first_loop}
use metrics_monitor.Alloc.Ops.{
  init_block, trim_block, extend_heap, valid_addr, valid_loop, fusion, fusion_loop,
}
use metrics_monitor.Alloc.Api.{
  place, log_malloc, my_malloc, my_free, my_realloc, resize, release, drop_last,
}
use metrics_monitor.Alloc.Session.{
  live, LiveApart, Reach, Written, note, forget, regrow, resized, first, later, start, given,
  released, written, choose,
}
use metrics_monitor.Alloc.Session.Contents.{Reach-reads}
use metrics_monitor.Alloc.Layout.{cell}
use metrics_monitor.Alloc.Layout.Fuse.{total_size}
use metrics_monitor.Alloc.Block.{get_block}
use metrics_monitor.Alloc.Session.Safe.{Reach-LiveApart}
use metrics_monitor.Tests.System.{demo, demo-IsMmap, hand_out, top}
use metrics_monitor.Tests.Blocks.{three}

abbrev empty : Heap
empty = record three { mem = λ _. 0; base = 0; maps = [] }

abbrev heap_of : Option (ℕ × Heap) → Heap
heap_of none = three
heap_of (some (p, h)) = h

one : Heap
one = heap_of (my_malloc demo 10 24 empty)

two : Heap
two = heap_of (my_malloc demo 10 100 (set_method first_fit one))

-- The caller writes to the first allocation, and frees the second one.
changed : Heap
changed = record two { mem = store two.mem 4136 7 }

abbrev after : Option (Unit {0} × Heap) → Heap
after none = three
after (some (u, h)) = h

freed : Heap
freed = after (my_free demo 10 12328 changed)

after_freed :
    Reach demo 10 empty 2 freed
      (live 4136 24 ∷ [])
      (note 4136 7 (forget 12328 100 (forget 4136 24 (λ y. none))))
unfolding one two changed freed my_malloc place find_block best_loop first_loop align extend_heap
    init_block store log_malloc log_handler hand_out top set_method my_free release drop_last
    valid_addr valid_loop fusion fusion_loop total_size get_block
after_freed =
    released (live 12328 100) (cell 4096 24 false ∷ []) [] (cell 12288 104 false)
      (written (live 4136 24) 4136 7
        (given 100 12328
          (choose first_fit (given 24 4136 start (omega arith) refl (omega arith)) tt) (omega arith)
          refl (omega arith))
        (later first) (omega arith))
      first (refl, omega arith, refl, refl, (refl, omega arith, refl, refl, refl)) refl
      (inr (record { data_link = refl; back_link = refl }, tt, omega arith)) refl

-- The caller shrinks the first allocation, which keeps its block.
shrunk : Heap
shrunk = heap_of (my_realloc demo 10 4136 16 freed)

abbrev noted : Written
noted = regrow (live 4136 24) 16 (note 4136 7 (forget 12328 100 (forget 4136 24 (λ y. none))))

after_shrunk : Reach demo 10 empty 3 shrunk (live 4136 16 ∷ []) noted
unfolding one two changed freed shrunk my_malloc place find_block best_loop first_loop align
    extend_heap init_block store log_malloc log_handler hand_out top set_method my_free release
    drop_last valid_addr valid_loop fusion fusion_loop get_block my_realloc resize trim_block
after_shrunk =
    resized (live 4136 24) 16 [] [] (cell 4096 24 false) after_freed first (omega arith)
      (refl, omega arith, refl, refl, refl) refl refl (omega arith) refl

Reach-LiveApart_example :
    Pairwise LiveApart (live 4136 16 ∷ [])
    × ((r : ℕ × Heap) × (my_malloc demo 10 7 shrunk ≡ some r))
unfolding align
Reach-LiveApart_example =
    Reach-LiveApart demo 10 3 7 empty shrunk (live 4136 16 ∷ []) noted demo-IsMmap tt refl
      (omega arith) (omega arith) after_shrunk

Reach-reads_example : shrunk.mem 4136 ≡ 7
unfolding note forget regrow
Reach-reads_example =
    Reach-reads demo 10 empty demo-IsMmap tt refl 3 shrunk (live 4136 16 ∷ []) [] noted
      (live 4136 16) 4136 7 (omega arith) after_shrunk first (omega arith) refl
