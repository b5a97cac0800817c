-- ===== src/Alloc/Realloc.antt =====
-- `my_realloc` of lib/memory/src/memory.c where it keeps the block in place.
pub mod Grow
use metrics_monitor.Base.{
  ℕ, zero, suc, ◌+◌, ◌-◌, ◌≤◌, ◌<◌, ◌≡◌, ◌≢◌, refl, ap, ◌∙◌, inl, inr, true, false, some, List, [],
  ◌∷◌, ◌++◌, arith, ◌==◌, ==-refl, leb, length, Bool-cases,
}
use metrics_monitor.Memory.{Mem, null}
use metrics_monitor.Pairwise.{Pairwise}
use metrics_monitor.Alloc.Words.{align}
use metrics_monitor.Alloc.Words.Bounds.{sub64-eq}
use metrics_monitor.Alloc.Block.{size, next, ptr, data_of}
use metrics_monitor.Alloc.State.{Os, Heap, log_handler}
use metrics_monitor.Alloc.Ops.{valid_addr, split_block, trim_block, fusion, fusion_loop}
use metrics_monitor.Alloc.Api.{can_grow, realloc_entry, resize, my_realloc}
use metrics_monitor.Alloc.Layout.{Cell, Shows, Seen, BlocksApart, Shows-Seen, Shows-tail}
use metrics_monitor.Alloc.Layout.Split.{split_cell, split_block-Shows}
use metrics_monitor.Alloc.Layout.Take.{take_cell, Pairwise-HeadersApart}
use metrics_monitor.Alloc.Valid.{get_block-data_of, valid_addr-block}

-- Trimming a used block to `s` bytes, as taking a free one would.
pub trim_block-Shows :
    (m : Mem) (p s : ℕ) (xs ys : List Cell) (c : Cell)
    → c.is_free ≡ false
    → s ≤ c.size
    → s + 40 < 18446744073709551616
    → c.size < 18446744073709551616
    → Pairwise BlocksApart (xs ++ (c ∷ ys))
    → Shows m p (xs ++ (c ∷ ys))
    → Shows (trim_block c.addr s m) p (xs ++ (take_cell s c ++ ys))
unfolding trim_block take_cell split_cell
trim_block-Shows m p s xs ys c used fit hs hc apart sh = elim (Bool-cases (leb 44 (c.size - s))) [
  | inl large ↦
      let e : leb c.size (s + 40) ≡ false = ground arith in
      rw (seen.size_eq, sub64-eq c.size s fit hc, large)
        (rw (e, used) at (split_block-Shows m p s xs ys c hs hc apart sh))
  | inr small ↦ rw (seen.size_eq, sub64-eq c.size s fit hc, small) (rw used at sh)
]
  where
    seen : Seen m c
    seen = Shows-Seen m p xs ys c sh

pub log_handler-fields :
    (os : Os) (p : ℕ) (h : Heap)
    → ((log_handler os (realloc_entry p) h).mem ≡ h.mem)
      × ((log_handler os (realloc_entry p) h).base ≡ h.base)
      × ((log_handler os (realloc_entry p) h).malloc_call ≡ h.malloc_call)
      × ((log_handler os (realloc_entry p) h).maps ≡ h.maps)
      × ((log_handler os (realloc_entry p) h).method ≡ h.method)
unfolding log_handler
log_handler-fields os p h = ground arith

-- The result of `my_realloc` that returns the address it was given, with the memory `m`.
pub record Kept (os : Os) (fuel n : ℕ) (h : Heap) (b : ℕ) (m : Mem) : Type 0 where
  pub heap : Heap
  pub runs : my_realloc os fuel (data_of b) n h ≡ some (data_of b, heap)
  pub mem_eq : heap.mem ≡ m
  pub base_eq : heap.base ≡ h.base
  pub call_eq : heap.malloc_call ≡ 1
  pub maps_eq : heap.maps ≡ h.maps
  pub method_eq : heap.method ≡ h.method

module _ (os : Os) (fuel n : ℕ) (h : Heap) (b : ℕ) (small : b < 18446744073709551616)
    (valid : valid_addr fuel (data_of b) (record h { malloc_call = 1 }) ≡ some true) where
  Kept-of :
      (m : Mem)
      → resize os fuel b (data_of b) (align n) (record h { malloc_call = 1 })
        ≡ some (
          data_of b,
          log_handler os (realloc_entry (data_of b)) (record h { mem = m; malloc_call = 1 }),
        )
      → Kept os fuel n h b m
  unfolding my_realloc
  Kept-of m e =
      let f = log_handler-fields os (data_of b) (record h { mem = m; malloc_call = 1 }) in
      let ne : (data_of b == null) ≡ false = ground arith in
      record {
        heap = log_handler os (realloc_entry (data_of b)) (record h { mem = m; malloc_call = 1 });
        runs = rw (ne, valid, get_block-data_of b small) e;
        mem_eq = f.0;
        base_eq = f.1;
        call_eq = f.2;
        maps_eq = f.3;
        method_eq = f.4;
      }

  keep : leb (align n) (size h.mem b) ≡ true → Kept os fuel n h b (trim_block b (align n) h.mem)
  unfolding resize
  keep e = Kept-of _ (rw e refl)

  pub grow :
      (m : Mem)
      → leb (align n) (size h.mem b) ≡ false
      → can_grow b (align n) h.mem ≡ true
      → fusion fuel b h.mem ≡ some m
      → Kept os fuel n h b (trim_block b (align n) m)
  unfolding resize
  grow m e g f = Kept-of _ (ground arith)

-- A block whose field `ptr` is right is found.
pub valid_addr-linked :
    (fuel : ℕ) (h : Heap) (xs ys : List Cell) (c : Cell)
    → length (xs ++ (c ∷ ys)) < fuel
    → c.addr < 18446744073709551616
    → ptr h.mem c.addr ≡ data_of c.addr
    → Pairwise BlocksApart (xs ++ (c ∷ ys))
    → Shows h.mem h.base (xs ++ (c ∷ ys))
    → valid_addr fuel (data_of c.addr) (record h { malloc_call = 1 }) ≡ some true
valid_addr-linked fuel h xs ys c enough small link apart sh =
    valid_addr-block fuel (record h { malloc_call = 1 }) xs ys c enough small
      (Pairwise-HeadersApart (xs ++ (c ∷ ys)) apart) sh
    ∙ ap some (rw link (==-refl (data_of c.addr)))

-- A block whose field `ptr` is right and that is large enough is trimmed.
pub my_realloc-trims :
    (os : Os) (fuel n : ℕ) (h : Heap) (xs ys : List Cell) (c : Cell)
    → length (xs ++ (c ∷ ys)) < fuel
    → c.addr < 18446744073709551616
    → align n ≤ c.size
    → ptr h.mem c.addr ≡ data_of c.addr
    → Pairwise BlocksApart (xs ++ (c ∷ ys))
    → Shows h.mem h.base (xs ++ (c ∷ ys))
    → Kept os fuel n h c.addr (trim_block c.addr (align n) h.mem)
my_realloc-trims os fuel n h xs ys c enough small fit link apart sh =
    let valid = valid_addr-linked fuel h xs ys c enough small link apart sh in
    let seen : Seen h.mem c = Shows-Seen h.mem h.base xs ys c sh in
    keep os fuel n h c.addr small valid (rw seen.size_eq (ground arith))

-- `my_realloc` of a used block, whose field `ptr` is right, to a size that it already has, given
-- fuel beyond the length of the list, blocks that do not overlap and a size below 2^64: it ends and
-- returns the same address, the surplus becomes a free block behind it if it has room for a header
-- and four bytes, and no other block of the list changes.
pub my_realloc-shrink :
    (os : Os) (fuel n : ℕ) (h : Heap) (xs ys : List Cell) (c : Cell)
    → length (xs ++ (c ∷ ys)) < fuel
    → c.addr < 18446744073709551616
    → c.size + 40 < 18446744073709551616
    → c.is_free ≡ false
    → align n ≤ c.size
    → ptr h.mem c.addr ≡ data_of c.addr
    → Pairwise BlocksApart (xs ++ (c ∷ ys))
    → Shows h.mem h.base (xs ++ (c ∷ ys))
    → (h' : Heap) × (my_realloc os fuel (data_of c.addr) n h ≡ some (data_of c.addr, h'))
      × Shows h'.mem h'.base (xs ++ (take_cell (align n) c ++ ys))
my_realloc-shrink os fuel n h xs ys c enough small bound used fit link apart sh =
    let r = my_realloc-trims os fuel n h xs ys c enough small fit link apart sh in
    (
      r.heap,
      r.runs,
      rw (r.mem_eq, r.base_eq)
          (trim_block-Shows h.mem h.base (align n) xs ys c used fit (omega arith) (omega arith)
            apart sh),
    )

-- Too large a request leaves the block as it is: `b->size - s` wraps, and `split_block` refuses.
trim_block-short :
    (m : Mem) (b s : ℕ) → size m b < s → s + 40 < 18446744073709551616 → trim_block b s m ≡ m
unfolding trim_block split_block
trim_block-short m b s h k = ground arith

-- `fusion` does nothing when the next block is the last one.
fusion-before_last :
    (fuel : ℕ) (m : Mem) (b : ℕ) (d : Cell)
    → b ≢ null
    → Shows m (next m b) (d ∷ [])
    → 0 < fuel
    → fusion fuel b m ≡ some m
unfolding fusion fusion_loop
fusion-before_last zero m b d ne t pos = absurd (omega arith)
fusion-before_last (suc k) m b d ne t pos = ground (arith, t)

-- When the block behind is free and the last of the list, and both with the header between them
-- have room for the request, `fusion` stops before it: `my_realloc` takes the branch that grows the
-- block in place, returns the old address, and the block keeps its size, which is less than the
-- request; the memory is unchanged. The field `ptr` of the block is right, the blocks do not
-- overlap, sizes are below 2^64 and the fuel exceeds the length of the list.
pub my_realloc-short :
    (os : Os) (fuel n : ℕ) (h : Heap) (xs : List Cell) (c d : Cell)
    → length (xs ++ (c ∷ d ∷ [])) < fuel
    → c.addr < 18446744073709551616
    → d.is_free ≡ true
    → c.size < align n
    → align n ≤ c.size + 40 + d.size
    → c.size + 40 + d.size < 18446744073709551616
    → align n + 40 < 18446744073709551616
    → ptr h.mem c.addr ≡ data_of c.addr
    → Pairwise BlocksApart (xs ++ (c ∷ d ∷ []))
    → Shows h.mem h.base (xs ++ (c ∷ d ∷ []))
    → (h' : Heap) × (my_realloc os fuel (data_of c.addr) n h ≡ some (data_of c.addr, h'))
      × (h'.mem ≡ h.mem)
      × (size h'.mem c.addr < align n)
my_realloc-short os fuel n h xs c d enough small free short fits bound large link apart sh =
    let valid = valid_addr-linked fuel h xs (d ∷ []) c enough small link apart sh in
    let seen : Seen h.mem c = Shows-Seen h.mem h.base xs (d ∷ []) c sh in
    let tail : Shows h.mem (next h.mem c.addr) (d ∷ []) =
      Shows-tail h.mem h.base xs (d ∷ []) c sh in
    let lt : size h.mem c.addr < align n = rw seen.size_eq short in
    let r =
      grow os fuel n h c.addr small valid h.mem (ground arith) (grows seen.size_eq tail)
        (fusion-before_last fuel h.mem c.addr d seen.ne_null tail (omega arith)) in
    let same : r.heap.mem ≡ h.mem = r.mem_eq ∙ trim_block-short h.mem c.addr (align n) lt large in
    (r.heap, r.runs, same, rw same lt)
  where
    grows :
        size h.mem c.addr ≡ c.size
        → Shows h.mem (next h.mem c.addr) (d ∷ [])
        → can_grow c.addr (align n) h.mem ≡ true
    grows e t = ground (arith, t)
