-- ===== src/Alloc/Move/Whole.antt =====
-- `my_realloc` of lib/memory/src/memory.c as a whole where it moves the block.
use metrics_monitor.Base.{
  ℕ, ◌+◌, ◌*◌, ◌%◌, ◌-◌, ◌≤◌, ◌<◌, ◌≡◌, ◌⊎◌, ap, ◌∙◌, inr, true, false, some, List, [], ◌∷◌, ◌++◌,
  arith, ==-refl, length, All,
}
use mathlib.Core.List.{append_assoc}
use metrics_monitor.Memory.{Mem, load_int, load_int-frame}
use metrics_monitor.Pairwise.{around, All-append, All-right, All-map}
use metrics_monitor.Alloc.Words.{align}
use metrics_monitor.Alloc.Words.Bounds.{align_bounds, align_again}
use metrics_monitor.Alloc.Block.{ptr, data_of}
use metrics_monitor.Alloc.State.{Os, IsMmap, Heap, MmapGives, Disjoint, round_page, log_handler}
use metrics_monitor.Alloc.Ops.{valid_addr}
use metrics_monitor.Alloc.Api.{my_malloc, can_grow, realloc_entry, my_realloc}
use metrics_monitor.Alloc.Layout.{Cell, cell, Shows, Seen, BlocksApart, BlocksApart-sym, Shows-Seen}
use metrics_monitor.Alloc.Layout.Mark.{marked}
use metrics_monitor.Alloc.Layout.Take.{Pairwise-HeadersApart}
use metrics_monitor.Alloc.Layout.Fuse.{fuse_cells, total_size, Clear}
use metrics_monitor.Alloc.Choice.{IsPolicy, NoneChosen}
use metrics_monitor.Alloc.Invariant.{HeapInv, Covered, Covered-fresh, round_page_pos}
use metrics_monitor.Alloc.Malloc.Fresh.{Fresh, my_malloc-Fresh}
use metrics_monitor.Alloc.Realloc.{log_handler-fields}
use metrics_monitor.Alloc.Valid.{valid_addr-block, get_block-data_of}
use metrics_monitor.Alloc.Move.{Clear-away, move_block-runs, my_realloc-move}
use metrics_monitor.Alloc.Move.Data.{copy_block-my_free}

-- The heap behind `my_malloc` of an aligned size `s` that makes a new block at `b`.
record Made (os : Os) (fuel s : ℕ) (h : Heap) (xs ys : List Cell) (c : Cell) (b : ℕ) : Type 0 where
  heap : Heap
  runs : my_malloc os fuel s h ≡ some (data_of b, heap)
  inv : HeapInv heap (xs ++ (c ∷ (ys ++ (cell b s false ∷ []))))
  new_link : ptr heap.mem b ≡ data_of b
  frame :
      (y : ℕ)
      → Disjoint y 1 b (round_page s)
      → All (Clear y) (xs ++ (c ∷ ys))
      → heap.mem y ≡ h.mem y

Made-Fresh :
    (os : Os) (fuel s : ℕ) (h : Heap) (xs ys : List Cell) (c : Cell) (b : ℕ)
    → align s ≡ s
    → Fresh os fuel s h (xs ++ (c ∷ ys)) b
    → Made os fuel s h xs ys c b
Made-Fresh os fuel s h xs ys c b e f = record {
  heap = f.heap;
  runs = f.runs;
  inv = rw (e, append_assoc) at f.inv;
  new_link = f.linked.data_link;
  frame = rw e at f.frame;
}

-- A list with the block `c` is not empty.
Made-of :
    (os : Os) (fuel s : ℕ) (h : Heap) (xs ys : List Cell) (c : Cell) (b : ℕ) (m : Mem)
    → IsMmap os
    → IsPolicy h.method
    → length (xs ++ (c ∷ ys)) < fuel
    → align s ≡ s
    → 0 < s
    → s + 8 ≤ 18446744073709551616
    → s + 40 ≤ round_page s
    → HeapInv h (xs ++ (c ∷ ys))
    → NoneChosen h.method s (xs ++ (c ∷ ys))
    → os.mmap h.maps s h.mem ≡ some (b, m)
    → Made os fuel s h xs ys c b
Made-of os fuel s h [] ys c b m works pol enough e pos bound room inv none_fit answer =
    Made-Fresh os fuel s h [] ys c b e (
      my_malloc-Fresh os works fuel s h c ys pol enough pos bound (rw e room) inv (rw e none_fit) b
        m (rw e answer))
Made-of os fuel s h (x ∷ xs) ys c b m works pol enough e pos bound room inv none_fit answer =
    Made-Fresh os fuel s h (x ∷ xs) ys c b e (
      my_malloc-Fresh os works fuel s h x (xs ++ (c ∷ ys)) pol enough pos bound (rw e room) inv
        (rw e none_fit) b m (rw e answer))

-- The data of `c` and the last word of its header are outside a fresh region.
outside :
    (b page y : ℕ) (c : Cell)
    → (b + page ≤ c.addr) ⊎ (c.addr + 40 + c.size ≤ b)
    → c.addr + 32 ≤ y
    → y < c.addr + 40 + c.size
    → Disjoint y 1 b page
outside b page y c k lo hi = ground arith

-- What the heap `g` behind `my_malloc` is known to be.
module _ (h g : Heap) (xs ys : List Cell) (c : Cell) (b page : ℕ) (inv : HeapInv h (xs ++ (c ∷ ys)))
    (away : (b + page ≤ c.addr) ⊎ (c.addr + 40 + c.size ≤ b))
    (frame : (y : ℕ)
      → Disjoint y 1 b page
      → All (Clear y) (xs ++ (c ∷ ys))
      → g.mem y ≡ h.mem y) where
  same_word : (y : ℕ) → c.addr + 32 ≤ y → y < c.addr + 40 + c.size → g.mem y ≡ h.mem y
  same_word y lo hi =
      let near = around BlocksApart BlocksApart-sym xs ys c inv.apart in
      frame y (outside b page y c away lo hi) (
        All-append (Clear y) xs (c ∷ ys) (All-map xs (λ d k. Clear-away y c d lo hi k) near.0)
          (inr lo, All-map ys (λ d k. Clear-away y c d lo hi k) near.1))

  same_int :
      (j : ℕ)
      → j * 4 < c.size
      → load_int g.mem (data_of c.addr + j * 4) ≡ load_int h.mem (data_of c.addr + j * 4)
  same_int j lt =
      load_int-frame h.mem g.mem (data_of c.addr + j * 4)
        (same_word (data_of c.addr + j * 4) (omega arith) (omega arith))
        (same_word (data_of c.addr + j * 4 - 4) (omega arith) (omega arith))

-- When the block does not suffice, cannot grow in place and no free block is eligible, and the
-- system gives a region at `b`, `my_realloc` ends and returns the data address of a new block there.
-- The `int` of index `j` of the old data stands in the new block, and in the list the old block is
-- free and has swallowed the free blocks behind it. The request, the policy, the heap and the
-- fuel are as for `my_malloc`; the fuel also bounds the words to copy; the field `ptr` of the block
-- is right, and its address and size are multiples of 8.
pub my_realloc-moves :
    (os : Os) (fuel n j : ℕ) (h : Heap) (xs ys : List Cell) (c : Cell) (b : ℕ) (m : Mem)
    → IsMmap os
    → IsPolicy h.method
    → length (xs ++ (c ∷ ys)) + 1 < fuel
    → c.size < fuel * 4
    → 0 < n
    → n + 8 ≤ 18446744073709551616
    → align n + 40 ≤ round_page (align n)
    → total_size (c ∷ (ys ++ (cell b (align n) false ∷ []))) < 18446744073709551616
    → HeapInv h (xs ++ (c ∷ ys))
    → ptr h.mem c.addr ≡ data_of c.addr
    → c.addr % 8 ≡ 0
    → c.size % 8 ≡ 0
    → c.size < align n
    → can_grow c.addr (align n) h.mem ≡ false
    → NoneChosen h.method (align n) (xs ++ (c ∷ ys))
    → os.mmap h.maps (align n) h.mem ≡ some (b, m)
    → j * 4 < c.size
    → (h' : Heap) × (my_realloc os fuel (data_of c.addr) n h ≡ some (data_of b, h'))
      × (load_int h'.mem (data_of b + j * 4) ≡ load_int h.mem (data_of c.addr + j * 4))
      × Shows h'.mem h'.base (xs ++ fuse_cells (marked 1 c) (ys ++ (cell b (align n) false ∷ [])))
my_realloc-moves os fuel n j h xs ys c b m works pol enough turns pos bound room total inv link at
      whole larger stuck none_fit answer lt =
    let s : ℕ = align n in
    let h1 : Heap = record h { malloc_call = 1 } in
    let bounds = align_bounds n pos bound in
    let g : MmapGives h.maps s h.mem b m = works h.maps s h.mem b m answer in
    let again : align s ≡ s = align_again s bounds.0 (omega (arith, bounds.1)) bounds.3 in
    let f =
      Made-of os fuel s h1 xs ys c b m works pol (omega arith) again (omega (arith, bounds.1))
        (omega (arith, bounds.0, bounds.3)) room inv none_fit answer in
    let cover = (All-right (Covered h.maps) xs (c ∷ ys) inv.covered).0 in
    let away =
      Covered-fresh b (round_page s) h.maps c (round_page_pos s g.some_len) g.fresh cover in
    let seen : Seen h.mem c = Shows-Seen h.mem h.base xs ys c inv.shows in
    let same = same_word h1 f.heap xs ys c b (round_page s) inv away f.frame in
    let r =
      copy_block-my_free os fuel f.heap xs ys c b s f.inv
        (same (c.addr + 32) (omega arith) (omega arith) ∙ link) f.new_link (omega arith) at
        (omega (arith, g.at_page)) whole turns enough total in
    let small : c.addr < 18446744073709551616 =
      omega (arith, (All-right _ xs (c ∷ ys) inv.in_space).0) in
    let valid : valid_addr fuel (data_of c.addr) h1 ≡ some true =
      valid_addr-block fuel h1 xs ys c (omega arith) small
        (Pairwise-HeadersApart (xs ++ (c ∷ ys)) inv.apart) inv.shows
      ∙ ap some (rw link (==-refl (data_of c.addr))) in
    let fields = log_handler-fields os (data_of b) r.heap in
    (
      log_handler os (realloc_entry (data_of b)) r.heap,
      my_realloc-move os fuel n c.addr h small valid (rw seen.size_eq larger) stuck
          ∙ move_block-runs os fuel c.addr (data_of c.addr) s h1 f.heap r.heap (data_of b) r.copy
              f.runs (omega arith)
              (rw (get_block-data_of b (omega (arith, g.in_space))) r.copy_runs) r.free_runs,
      rw fields.0
          (r.moved j lt ∙ same_int h1 f.heap xs ys c b (round_page s) inv away f.frame j lt),
      rw (fields.0, fields.1) r.shows,
    )
