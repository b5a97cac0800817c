-- ===== src/Alloc/Faults/Lost.antt =====
-- `my_realloc` of lib/memory/src/memory.c into a block that `split_block` made.
use metrics_monitor.Base.{
  ℕ, ◌+◌, ◌≤◌, ◌<◌, ◌≡◌, ◌==◌, ==-refl, sym, ap, ◌∙◌, true, false, some, List, ◌∷◌, ◌++◌, arith,
  if◌then◌else◌, length, All,
}
use mathlib.Core.Path.{subst}
use mathlib.Core.Option.{some-injective}
use metrics_monitor.Memory.{Mem, null}
use metrics_monitor.Pairwise.{All-right}
use metrics_monitor.Alloc.Words.{align}
use metrics_monitor.Alloc.Words.Bounds.{align_bounds, align_again}
use metrics_monitor.Alloc.Block.{ptr, is_free, data_of}
use metrics_monitor.Alloc.State.{Os, IsMmap, Heap, round_page, log_handler}
use metrics_monitor.Alloc.Ops.{valid_addr}
use metrics_monitor.Alloc.Api.{my_malloc, my_realloc, can_grow, realloc_entry}
use metrics_monitor.Alloc.Layout.{Cell, Shows, Seen, Shows-Seen}
use metrics_monitor.Alloc.Layout.Take.{Pairwise-HeadersApart}
use metrics_monitor.Alloc.Layout.Fuse.{total_size}
use metrics_monitor.Alloc.Layout.Links.{SameLinks}
use metrics_monitor.Alloc.Choice.{IsPolicy}
use metrics_monitor.Alloc.Invariant.{HeapInv, InSpace}
use metrics_monitor.Alloc.Copy.{copy_block-no_ptr}
use metrics_monitor.Alloc.Malloc.Run.{Malloced, my_malloc-Malloced}
use metrics_monitor.Alloc.Realloc.{log_handler-fields}
use metrics_monitor.Alloc.Valid.{valid_addr-block, get_block-data_of}
use metrics_monitor.Alloc.Move.{move_block-runs, my_realloc-move}
use metrics_monitor.Alloc.Faults.Unlinked.{Reused, handed_out-Reused}
use metrics_monitor.Alloc.Faults.Released.{freed, untouched, is_released}

-- `my_realloc` where `m` is what `my_malloc` gives it: the block at `b` of the list.
realloc_into :
    (os : Os) (fuel n b : ℕ) (h : Heap) (xs rs : List Cell) (c r : Cell)
    (m : Malloced os fuel (align n) (record h { malloc_call = 1 }) (xs ++ (c ∷ r ∷ rs)))
    → Reused os fuel (align n) (record h { malloc_call = 1 }) (xs ++ (c ∷ r ∷ rs)) m b
    → length (xs ++ (c ∷ r ∷ rs)) + 1 < fuel
    → total_size (xs ++ (c ∷ r ∷ rs)) < 18446744073709551616
    → HeapInv h (xs ++ (c ∷ r ∷ rs))
    → c.is_free ≡ false
    → ptr h.mem c.addr ≡ data_of c.addr
    → c.size < align n
    → can_grow c.addr (align n) h.mem ≡ false
    → b < 18446744073709551616
    → ptr m.heap.mem b ≡ null
    → my_malloc os fuel (align n) (record h { malloc_call = 1 }) ≡ some (data_of b, m.heap)
    → (h' : Heap) × (my_realloc os fuel (data_of c.addr) n h ≡ some (data_of b, h'))
      × ((y : ℕ) → data_of b ≤ y → y < data_of b + align (align n) → h'.mem y ≡ m.heap.mem y)
      × (is_free h'.mem c.addr ≡ true)
realloc_into os fuel n b h xs rs c r m u enough total inv used link larger stuck b_small no_ptr
      got =
    let cs : List Cell = xs ++ (c ∷ r ∷ rs) in
    let h1 : Heap = record h { malloc_call = 1 } in
    let space = (All-right InSpace xs (c ∷ r ∷ rs) inv.in_space).0 in
    let small : c.addr < 18446744073709551616 = omega (arith, space) in
    let seen : Seen h.mem c = Shows-Seen h.mem h.base xs (r ∷ rs) c inv.shows in
    let valid : valid_addr fuel (data_of c.addr) h1 ≡ some true =
      valid_addr-block fuel h1 xs (r ∷ rs) c (omega arith) small
        (Pairwise-HeadersApart cs inv.apart) inv.shows
      ∙ ap some (rw link (==-refl (data_of c.addr))) in
    let f = freed os fuel (align n) b h1 xs rs c r m u enough used link small total in
    let fields = log_handler-fields os (data_of b) f.heap in
    (
      log_handler os (realloc_entry (data_of b)) f.heap,
      my_realloc-move os fuel n c.addr h small valid (rw seen.size_eq larger) stuck
          ∙ move_block-runs os fuel c.addr (data_of c.addr) (align n) h1 m.heap f.heap (data_of b)
              m.heap.mem got (omega arith)
              (rw (get_block-data_of b b_small) (copy_block-no_ptr fuel c.addr b m.heap.mem no_ptr))
              f.runs,
      (λ y lo hi.
          ap (λ (k : Mem). k y) fields.0
          ∙ untouched os fuel (align n) b h1 xs rs c r m u enough used link small total y
              (omega arith) (omega arith)),
      rw fields.0 (is_released os fuel (align n) b h1 xs rs c r m u enough used link small total),
    )

-- A used block `c`, not the last one, cannot grow in place to the size asked for, and `my_malloc`
-- hands out a block `d` of the list for the new data, whose field `ptr` is NULL, as `split_block`
-- leaves it in fresh memory. Then `my_realloc` of `c` ends and returns the data address of `d` as a
-- success, with every byte of its data as `my_malloc` left it: none of the old data are copied. The
-- old block is released all the same. The field `ptr` of `c` is right, the sizes of the blocks sum to
-- less than 2^64, the fuel exceeds the length of the list by two or more, and the request, the
-- policy, the heap and the system are as for `my_malloc`.
pub my_realloc-lost :
    (os : Os) (fuel n : ℕ) (h g : Heap) (xs rs us vs : List Cell) (c r d : Cell)
    → IsMmap os
    → IsPolicy h.method
    → length (xs ++ (c ∷ r ∷ rs)) + 1 < fuel
    → 0 < n
    → n + 8 ≤ 18446744073709551616
    → align n + 40 ≤ round_page (align n)
    → total_size (xs ++ (c ∷ r ∷ rs)) < 18446744073709551616
    → HeapInv h (xs ++ (c ∷ r ∷ rs))
    → c.is_free ≡ false
    → ptr h.mem c.addr ≡ data_of c.addr
    → c.size < align n
    → can_grow c.addr (align n) h.mem ≡ false
    → xs ++ (c ∷ r ∷ rs) ≡ us ++ (d ∷ vs)
    → ptr h.mem d.addr ≡ null
    → my_malloc os fuel (align n) (record h { malloc_call = 1 }) ≡ some (data_of d.addr, g)
    → (h' : Heap) × (my_realloc os fuel (data_of c.addr) n h ≡ some (data_of d.addr, h'))
      × ((y : ℕ) → data_of d.addr ≤ y → y < data_of d.addr + align n → h'.mem y ≡ g.mem y)
      × (is_free h'.mem c.addr ≡ true)
my_realloc-lost os fuel n h g xs rs us vs c r d works pol enough pos bound page total inv used link
      larger stuck there no_ptr got =
    let s : ℕ = align n in
    let cs : List Cell = xs ++ (c ∷ r ∷ rs) in
    let h1 : Heap = record h { malloc_call = 1 } in
    let bounds = align_bounds n pos bound in
    let again : align s ≡ s = align_again s bounds.0 (omega (arith, bounds.1)) bounds.3 in
    let m : Malloced os fuel s h1 cs =
      my_malloc-Malloced os fuel s h1 cs works pol (omega arith) (omega (arith, bounds.1))
        (omega (arith, bounds.0, bounds.3)) (rw again page) inv in
    let same : (if m.block == null then null else data_of m.block, m.heap) ≡ (data_of d.addr, g) =
      some-injective _ _ (sym m.runs ∙ got) in
    let at : m.block ≡ d.addr = ground (arith, ap (λ (z : ℕ × Heap). z.0) same) in
    let d_space : InSpace d =
      (All-right InSpace us (d ∷ vs) (subst (All InSpace) there inv.in_space)).0 in
    let d_seen : Seen h.mem d =
      Shows-Seen h.mem h.base us vs d (subst (Shows h.mem h.base) there inv.shows) in
    let u : Reused os fuel s h1 cs m d.addr =
      handed_out-Reused os fuel s h1 cs us vs d m there at d_seen.ne_null in
    let still : ptr m.heap.mem d.addr ≡ null =
      (All-right _ us (d ∷ vs)
        (subst (All (λ (e : Cell). SameLinks h.mem m.heap.mem e.addr)) there m.links)).0.1
      ∙ no_ptr in
    let into =
      realloc_into os fuel n d.addr h xs rs c r m u enough total inv used link larger stuck
        (omega (arith, d_space)) still
        (m.runs ∙ ap (λ (b : ℕ). some (b, m.heap)) (ap (λ (z : ℕ × Heap). z.0) same)) in
    (
      into.0,
      into.1,
      (λ y lo hi. into.2 y lo (omega (arith, again, hi)) ∙ ap (λ (z : ℕ × Heap). z.1.mem y) same),
      into.3,
    )
