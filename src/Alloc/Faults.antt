-- ===== src/Alloc/Faults.antt =====
-- The blocks that `split_block` of lib/memory/src/memory.c makes, when they are freed, and the regions
-- that `extend_heap` maps.
pub mod Overlap
pub mod Unlinked
pub mod Beside
pub mod Released
pub mod Lost
use metrics_monitor.Base.{
  ℕ, ◌+◌, ◌-◌, ◌<◌, ◌≡◌, ◌≢◌, ◌⊎◌, refl, sym, ap, ◌∙◌, true, false, some, List, [], ◌∷◌, ◌++◌,
  arith, ==-false, leb, length, length-append,
}
use mathlib.Core.List.{append_assoc}
use metrics_monitor.Memory.{Mem, null, store}
use metrics_monitor.Pairwise.{Pairwise}
use metrics_monitor.Alloc.Block.{size, ptr, data_of}
use metrics_monitor.Alloc.State.{Os, Heap, round_page}
use metrics_monitor.Alloc.Ops.{split_at, split_block, valid_addr, extend_heap, init_block}
use metrics_monitor.Alloc.Api.{my_free}
use metrics_monitor.Alloc.Layout.{Cell, cell, Shows, Apart, BlocksApart, HeadersApart}
use metrics_monitor.Alloc.Layout.Split.{split_cell, split_block-Shows, split-Pairwise}
use metrics_monitor.Alloc.Layout.Take.{Pairwise-HeadersApart}
use metrics_monitor.Alloc.Valid.{valid_addr-block}

split_at-ptr : (m : Mem) (b s n : ℕ) → Apart b n → ptr (split_at b s n m) n ≡ ptr m n
unfolding split_at store
split_at-ptr m b s n h = ground arith

pub split_block-ptr :
    (m : Mem) (b s : ℕ) → ptr (split_block b s m) (b + 40 + s) ≡ ptr m (b + 40 + s)
unfolding split_block
split_block-ptr m b s = ground (arith, split_at-ptr m b s (b + 40 + s))

-- `my_free` of a block whose field `ptr` is not its data address does nothing.
pub my_free-unlinked :
    (os : Os) (fuel : ℕ) (h : Heap) (xs ys : List Cell) (c : Cell)
    → length (xs ++ (c ∷ ys)) < fuel
    → c.addr < 18446744073709551616
    → ptr h.mem c.addr ≢ data_of c.addr
    → Pairwise HeadersApart (xs ++ (c ∷ ys))
    → Shows h.mem h.base (xs ++ (c ∷ ys))
    → my_free os fuel (data_of c.addr) h ≡ some (tt, h)
unfolding my_free
my_free-unlinked os fuel h xs ys c enough small ne apart sh =
    let no : valid_addr fuel (data_of c.addr) h ≡ some false =
      valid_addr-block fuel h xs ys c enough small apart sh
      ∙ ap some (==-false (ptr h.mem c.addr) (data_of c.addr) ne) in
    rw (no, my_free) refl

init_block-size :
    (m : Mem) (b last s : ℕ) → (last ≡ null) ⊎ Apart b last → size (init_block b last s m) b ≡ s
unfolding init_block store
init_block-size m b last s h = ground arith

-- `extend_heap` asks `mmap` for the size of the data and not for the header: when the 40 bytes of
-- the header do not fit in the rest of the last page and `mmap` gives a region apart from the last
-- block, the data of the new block, of the size that
-- its header states, end behind the region.
pub extend_heap-overrun :
    (os : Os) (h : Heap) (last s b : ℕ) (m : Mem)
    → os.mmap h.maps s h.mem ≡ some (b, m)
    → (last ≡ null) ⊎ Apart b last
    → round_page s < s + 40
    → (h' : Heap) × (extend_heap os last s h ≡ some (b, h'))
      × (h'.maps ≡ record { start = b; len = s } ∷ h.maps)
      × (b + round_page s < data_of b + size h'.mem b)
unfolding extend_heap
extend_heap-overrun os h last s b m e ap short = (
  record h { mem = init_block b last s m; maps = record { start = b; len = s } ∷ h.maps },
  rw (e, extend_heap) refl,
  refl,
  omega (arith, init_block-size m b last s ap),
)
