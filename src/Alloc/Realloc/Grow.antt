-- ===== src/Alloc/Realloc/Grow.antt =====
-- `my_realloc` of lib/memory/src/memory.c where it grows the block into the free block behind it.
use metrics_monitor.Base.{
  ℕ, ◌+◌, ◌≤◌, ◌<◌, ◌≡◌, true, false, some, List, ◌∷◌, ◌++◌, arith, length, length-append,
}
use mathlib.Core.Path.{subst}
use metrics_monitor.Memory.{Mem}
use metrics_monitor.Pairwise.{Pairwise, Pairwise-merge}
use metrics_monitor.Alloc.Words.{align}
use metrics_monitor.Alloc.Block.{size, next, ptr, data_of}
use metrics_monitor.Alloc.State.{Os, Heap}
use metrics_monitor.Alloc.Api.{can_grow, my_realloc}
use metrics_monitor.Alloc.Layout.{
  Cell, Shows, Seen, BlocksApart, BlocksApart-sym, Shows-Seen, Shows-tail,
}
use metrics_monitor.Alloc.Layout.Take.{take_cell, Pairwise-HeadersApart}
use metrics_monitor.Alloc.Layout.Fuse.{total_size, fusion-fuse_cells}
use metrics_monitor.Alloc.Realloc.{grow, valid_addr-linked, trim_block-Shows}
use metrics_monitor.Alloc.Faults.Overlap.{fuse_cells-one}

-- Two blocks side by side as one: the header of the second is not counted.
abbrev joined : Cell → Cell → Cell
joined c d = record c { size = c.size + d.size }

joined-BlocksApart :
    (c d z : Cell)
    → d.addr ≡ c.addr + 40 + c.size
    → BlocksApart c z
    → BlocksApart d z
    → BlocksApart (joined c d) z
joined-BlocksApart c d z e a b = ground (arith, a, b)

-- The list with the two blocks joined has no overlaps either.
joined-Pairwise :
    (xs ys : List Cell) (c d : Cell)
    → d.addr ≡ c.addr + 40 + c.size
    → Pairwise BlocksApart (xs ++ (c ∷ d ∷ ys))
    → Pairwise BlocksApart (xs ++ (joined c d ∷ ys))
joined-Pairwise xs ys c d e =
    Pairwise-merge BlocksApart xs ys c d (joined c d) (λ z a b. joined-BlocksApart c d z e a b)
      (λ z a b.
        BlocksApart-sym (joined c d) z
          (joined-BlocksApart c d z e (BlocksApart-sym z c a) (BlocksApart-sym z d b)))

-- The code's test for growing in place.
can_grow-Shows :
    (m : Mem) (s : ℕ) (c d e : Cell) (r : List Cell)
    → d.is_free ≡ true
    → s ≤ c.size + d.size
    → c.size + 40 + d.size < 18446744073709551616
    → size m c.addr ≡ c.size
    → Shows m (next m c.addr) (d ∷ e ∷ r)
    → can_grow c.addr s m ≡ true
can_grow-Shows m s c d e r free fits bound hs t = ground (arith, t)

-- `my_realloc` of a used block with a free block right behind it in memory and in the list, then a
-- used one, to a size that the data of both have together: it ends and returns the same address; the
-- two blocks become one, whose surplus is a free block again if it has room for a header and four
-- bytes, and no other block changes. The field `ptr` of the block is right, the blocks do
-- not overlap, sizes are below 2^64 and the fuel exceeds the length of the list.
pub my_realloc-grows :
    (os : Os) (fuel n : ℕ) (h : Heap) (xs r : List Cell) (c d e : Cell)
    → length (xs ++ (c ∷ d ∷ e ∷ r)) < fuel
    → c.addr < 18446744073709551616
    → total_size (c ∷ d ∷ e ∷ r) + 40 < 18446744073709551616
    → c.is_free ≡ false
    → d.is_free ≡ true
    → e.is_free ≡ false
    → d.addr ≡ c.addr + 40 + c.size
    → c.size < align n
    → align n ≤ c.size + d.size
    → ptr h.mem c.addr ≡ data_of c.addr
    → Pairwise BlocksApart (xs ++ (c ∷ d ∷ e ∷ r))
    → Shows h.mem h.base (xs ++ (c ∷ d ∷ e ∷ r))
    → (h' : Heap) × (my_realloc os fuel (data_of c.addr) n h ≡ some (data_of c.addr, h'))
      × Shows h'.mem h'.base (xs ++ (take_cell (align n) (joined c d) ++ (e ∷ r)))
unfolding total_size
my_realloc-grows os fuel n h xs r c d e enough small total used free behind next_to short fits link
      apart sh =
    let heads = Pairwise-HeadersApart (xs ++ (c ∷ d ∷ e ∷ r)) apart in
    let valid = valid_addr-linked fuel h xs (d ∷ e ∷ r) c enough small link apart sh in
    let seen : Seen h.mem c = Shows-Seen h.mem h.base xs (d ∷ e ∷ r) c sh in
    let t = Shows-tail h.mem h.base xs (d ∷ e ∷ r) c sh in
    let f =
      fusion-fuse_cells fuel h.mem h.base xs (d ∷ e ∷ r) c
        (omega (arith, length-append xs (c ∷ d ∷ e ∷ r))) (omega arith) heads sh in
    let fused : Shows f.0 h.base (xs ++ (joined c d ∷ e ∷ r)) =
      subst (λ cs. Shows f.0 h.base (xs ++ cs)) (fuse_cells-one c d e r free behind) f.2 in
    let k =
      grow os fuel n h c.addr small valid f.0 (rw seen.size_eq (ground arith))
        (can_grow-Shows h.mem (align n) c d e r free fits (omega arith) seen.size_eq t) f.1 in
    (
      k.heap,
      k.runs,
      rw (k.mem_eq, k.base_eq)
          (trim_block-Shows f.0 h.base (align n) xs (e ∷ r) (joined c d) used fits (omega arith)
            (omega arith) (joined-Pairwise xs (e ∷ r) c d next_to apart) fused),
    )
