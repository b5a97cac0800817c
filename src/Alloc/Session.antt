-- ===== src/Alloc/Session.antt =====
-- Sequences of calls of `my_malloc`, `my_realloc`, `my_free` and `set_method` of
-- lib/memory/src/memory.c and of writes of the caller to its allocations, and the allocations that are alive behind them.
pub mod Held
pub mod Owner
pub mod Freed
pub mod Trimmed
pub mod Resized
pub mod Grown
pub mod Safe
pub mod Contents
use metrics_monitor.Base.{
  true, ℕ, zero, suc, ◌+◌, ◌%◌, ◌≤◌, ◌<◌, ◌≡◌, ◌≢◌, ◌⊎◌, false, not, ◌&&◌, ◌==◌, leb, ltb,
  if◌then◌else◌, Option, none, some, List, [], ◌∷◌, ◌++◌,
}
use metrics_monitor.Memory.{Mem, null, store}
use metrics_monitor.Alloc.Words.{align}
use metrics_monitor.Alloc.Block.{ptr, data_of}
use metrics_monitor.Alloc.State.{Os, Heap, Method, round_page, set_method}
use metrics_monitor.Alloc.Api.{my_malloc, my_free, my_realloc, can_grow}
use metrics_monitor.Alloc.Layout.{Cell, cell, Shows}
use metrics_monitor.Alloc.Layout.Fuse.{total_size, fuse_cells}
use metrics_monitor.Alloc.Release.{Linked}
use metrics_monitor.Alloc.Free.Keep.{SideBySide}
use metrics_monitor.Alloc.Choice.{IsPolicy}

-- An allocation: the address that the caller got and the bytes that it asked for.
pub record Live : Type 0 where
  pub addr : ℕ
  pub size : ℕ

abbrev pub live : ℕ → ℕ → Live
live p n = record { addr = p; size = n }

-- Two allocations share no byte.
abbrev pub LiveApart : Live → Live → Type 0
LiveApart a b = (a.addr + a.size ≤ b.addr) ⊎ (b.addr + b.size ≤ a.addr)

-- A request of at least one byte that neither overflows `align` nor, with its header, the pages
-- that `extend_heap` maps.
abbrev pub Proper : ℕ → Type 0
Proper n = (0 < n) × (n + 8 ≤ 18446744073709551616) × (align n + 40 ≤ round_page (align n))

-- `ms` is `ls` without its entry `l`.
pub data Without (l : Live) : List Live → List Live → Type 0 where
  first : {ls : List Live} → Without l (l ∷ ls) ls
  later : {x : Live} {ls ms : List Live} → Without l ls ms → Without l (x ∷ ls) (x ∷ ms)

-- When `my_free` of the block `c` between `xs` and `ys` is within what the code can do: the field
-- `ptr` is not the data address, so that the call does nothing; or the links are right, and
-- the free blocks behind it that `fusion` swallows stand side by side behind it in memory.
abbrev pub Freeable : Mem → List Cell → Cell → List Cell → Type 0
Freeable m xs c ys =
    (ptr m c.addr ≢ data_of c.addr)
    ⊎ (Linked m xs c
        × SideBySide (c.addr + 40 + c.size) ys
        × (total_size (c ∷ ys) < 18446744073709551616))

-- The address of a whole word of the allocation.
abbrev pub Inside : Live → ℕ → Type 0
Inside l a = (l.addr ≤ a) × (a + 8 ≤ l.addr + l.size) × (a % 8 ≡ 0)

-- What the caller wrote last to each address of its allocations, if it did since it got them.
abbrev pub Written : Type 0
Written = ℕ → Option ℕ

-- The caller writes `v` at `a`.
unfoldable pub note : ℕ → ℕ → Written → Written
note a v w y = if y == a then some v else w y

-- The `n` bytes from `p` on are a new allocation.
unfoldable pub forget : ℕ → ℕ → Written → Written
forget p n w y = if leb p y && ltb y (p + n) then none else w y

-- The allocation `l` has `n` bytes now: words that it did not have whole before are new.
unfoldable pub regrow : Live → ℕ → Written → Written
regrow l n w y =
    if leb l.addr y && (ltb y (l.addr + n) && not (leb (y + 8) (l.addr + l.size)))
    then none
    else w y

-- The heap and the allocations behind `k` calls of `my_malloc` and `my_realloc` from the heap `h0`
-- on, with calls of `my_free` and `set_method` and writes of the caller between them.
pub data Reach (os : Os) (fuel : ℕ) (h0 : Heap) : ℕ → Heap → List Live → Written → Type 0 where
  start : Reach os fuel h0 zero h0 [] (λ y. none)
  given :
      {k : ℕ} {h h' : Heap} {ls : List Live} {w : Written} (n p : ℕ)
      → Reach os fuel h0 k h ls w
      → Proper n
      → my_malloc os fuel n h ≡ some (p, h')
      → p ≢ null
      → Reach os fuel h0 (suc k) h' (live p n ∷ ls) (forget p n w)
  refused :
      {k : ℕ} {h h' : Heap} {ls : List Live} {w : Written} (n : ℕ)
      → Reach os fuel h0 k h ls w
      → Proper n
      → my_malloc os fuel n h ≡ some (null, h')
      → Reach os fuel h0 (suc k) h' ls w
  released :
      {k : ℕ} {h h' : Heap} {ls ms : List Live} {w : Written} (l : Live) (xs ys : List Cell)
      (c : Cell)
      → Reach os fuel h0 k h ls w
      → Without l ls ms
      → Shows h.mem h.base (xs ++ (c ∷ ys))
      → data_of c.addr ≡ l.addr
      → Freeable h.mem xs c ys
      → my_free os fuel l.addr h ≡ some (tt, h')
      → Reach os fuel h0 k h' ms w
  resized :
      {k : ℕ} {h h' : Heap} {ls ms : List Live} {w : Written} (l : Live) (n : ℕ) (xs ys : List Cell)
      (c : Cell)
      → Reach os fuel h0 k h ls w
      → Without l ls ms
      → (0 < n) × (n + 8 ≤ 18446744073709551616)
      → Shows h.mem h.base (xs ++ (c ∷ ys))
      → data_of c.addr ≡ l.addr
      → ptr h.mem c.addr ≡ data_of c.addr
      → align n ≤ c.size
      → my_realloc os fuel l.addr n h ≡ some (l.addr, h')
      → Reach os fuel h0 (suc k) h' (live l.addr n ∷ ms) (regrow l n w)
  grown :
      {k : ℕ} {h h' : Heap} {ls ms : List Live} {w : Written} (l : Live) (n s : ℕ)
      (xs ys zs : List Cell) (c : Cell)
      → Reach os fuel h0 k h ls w
      → Without l ls ms
      → (0 < n) × (n + 8 ≤ 18446744073709551616)
      → Shows h.mem h.base (xs ++ (c ∷ ys))
      → data_of c.addr ≡ l.addr
      → ptr h.mem c.addr ≡ data_of c.addr
      → c.size < align n
      → can_grow c.addr (align n) h.mem ≡ true
      → SideBySide (c.addr + 40 + c.size) ys
      → total_size (c ∷ ys) < 18446744073709551616
      → fuse_cells c ys ≡ cell c.addr s false ∷ zs
      → align n ≤ s
      → my_realloc os fuel l.addr n h ≡ some (l.addr, h')
      → Reach os fuel h0 (suc k) h' (live l.addr n ∷ ms) (regrow l n w)
  written :
      {k : ℕ} {h : Heap} {ls ms : List Live} {w : Written} (l : Live) (a v : ℕ)
      → Reach os fuel h0 k h ls w
      → Without l ls ms
      → Inside l a
      → Reach os fuel h0 k (record h { mem = store h.mem a v }) ls (note a v w)
  choose :
      {k : ℕ} {h : Heap} {ls : List Live} {w : Written} (method : Method)
      → Reach os fuel h0 k h ls w
      → IsPolicy method
      → Reach os fuel h0 k (set_method method h) ls w

-- A used block of the list has the data of the allocation.
abbrev pub Holds : Cell → Live → Type 0
Holds c l = (data_of c.addr ≡ l.addr) × (c.is_free ≡ false) × (l.size ≤ c.size)

abbrev pub HeldIn : List Cell → Live → Type 0
HeldIn [] l = ⊥
HeldIn (c ∷ cs) l = Holds c l ⊎ HeldIn cs l
