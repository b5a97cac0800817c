-- ===== src/Alloc/Faults/Released.antt =====
-- What `my_malloc` and `my_free` of lib/memory/src/memory.c leave when the one hands out a block of the
-- list and the other releases another one.
use metrics_monitor.Base.{
  ℕ, ◌+◌, ◌≤◌, ◌<◌, ◌≡◌, ==-refl, refl, sym, ap, ◌∙◌, true, false, some, List, [], ◌∷◌, ◌++◌, arith,
  length, length-append, All, inl, inr, Bool-cases,
}
use mathlib.Core.Path.{subst}
use metrics_monitor.Memory.{Mem}
use metrics_monitor.Pairwise.{Pairwise, around, All-append, All-right, All-map}
use metrics_monitor.Alloc.Words.{align}
use metrics_monitor.Alloc.Block.{ptr, is_free, data_of}
use metrics_monitor.Alloc.State.{Os, Heap}
use metrics_monitor.Alloc.Ops.{valid_addr}
use metrics_monitor.Alloc.Layout.{Cell, Shows, Shows-Seen, BlocksApart, BlocksApart-sym}
use metrics_monitor.Alloc.Layout.Take.{take_cell, Pairwise-HeadersApart}
use metrics_monitor.Alloc.Layout.Mark.{marked}
use metrics_monitor.Alloc.Layout.Fuse.{Clear, fuse_cells, total_size}
use metrics_monitor.Alloc.Invariant.{HeapInv}
use metrics_monitor.Alloc.Free.{Inner, free-Inner}
use metrics_monitor.Alloc.Malloc.Run.{Malloced}
use metrics_monitor.Alloc.Session.Held.{Taken, Taken-take_cell}
use metrics_monitor.Alloc.Valid.{valid_addr-block}
use metrics_monitor.Alloc.Move.{Clear-away}
use metrics_monitor.Alloc.Faults.Beside.{Before, Before-replaced}
use metrics_monitor.Alloc.Faults.Unlinked.{Reused}

total_size-append : (xs ys : List Cell) → total_size (xs ++ ys) ≡ total_size xs + total_size ys
unfolding total_size
total_size-append [] ys = omega arith
total_size-append (x ∷ xs) ys = omega (arith, total_size-append xs ys)

take_cell-total : (s : ℕ) (c : Cell) → s ≤ c.size → total_size (take_cell s c) ≤ c.size
unfolding take_cell total_size
take_cell-total s c fit = ground arith

-- The first block that `fuse_cells` gives stays where it was, free if it was free.
fuse_cells-Seen :
    (m : Mem) (p : ℕ) (xs ys : List Cell) (c : Cell)
    → c.is_free ≡ true
    → Shows m p (xs ++ fuse_cells c ys)
    → is_free m c.addr ≡ true
unfolding fuse_cells
fuse_cells-Seen m p xs [] c free sh = (Shows-Seen m p xs [] c sh).free_eq ∙ free
fuse_cells-Seen m p xs (d ∷ []) c free sh = (Shows-Seen m p xs (d ∷ []) c sh).free_eq ∙ free
fuse_cells-Seen m p xs (d ∷ e ∷ r) c free sh = elim (Bool-cases d.is_free) [
  | inl joins ↦
      fuse_cells-Seen m p xs (e ∷ r) (record c { size = c.size + d.size }) free (rw joins at sh)
  | inr apart ↦
      let kept : fuse_cells c (d ∷ e ∷ r) ≡ c ∷ d ∷ e ∷ r = rw (apart, fuse_cells) refl in
      let sh' = subst (λ (z : List Cell). Shows m p (xs ++ z)) kept sh in
      (Shows-Seen m p xs (d ∷ e ∷ r) c sh').free_eq ∙ free
]

-- `my_malloc` handed out the block at `b`, whose field `ptr` is NULL: the release of the used block
-- `c` behind that.
module _ (os : Os) (fuel s b : ℕ) (h : Heap) (xs rs : List Cell) (c r : Cell)
    (g : Malloced os fuel s h (xs ++ (c ∷ r ∷ rs)))
    (u : Reused os fuel s h (xs ++ (c ∷ r ∷ rs)) g b)
    (enough : length (xs ++ (c ∷ r ∷ rs)) + 1 < fuel) (used : c.is_free ≡ false)
    (link : ptr h.mem c.addr ≡ data_of c.addr) (small : c.addr < 18446744073709551616)
    (total : total_size (xs ++ (c ∷ r ∷ rs)) < 18446744073709551616) where
  pub t : Taken (align s) u.choice.chosen
  t = Taken-take_cell (align s) u.choice.chosen (ground (arith, u.choice.suited))

  pub before : Before c (u.choice.front ++ ((t.head ∷ t.surplus) ++ u.choice.back))
  before =
      Before-replaced xs rs u.choice.front u.choice.back t.surplus c r u.choice.chosen t.head used
        (ground (arith, u.choice.suited)) u.choice.splits

  made_of : g.cells ≡ u.choice.front ++ (t.head ∷ (t.surplus ++ u.choice.back))
  made_of = u.cells_eq ∙ ap (λ (z : List Cell). u.choice.front ++ (z ++ u.choice.back)) t.splits

  around_c : g.cells ≡ before.front ++ (c ∷ before.follower ∷ before.back)
  around_c = made_of ∙ before.splits

  count : length g.cells ≤ length (xs ++ (c ∷ r ∷ rs)) + 1
  count = omega (
    arith,
    t.few,
    ap (λ (z : List Cell). length z) made_of,
    ap (λ (z : List Cell). length z) u.choice.splits,
    length-append u.choice.front (u.choice.chosen ∷ u.choice.back),
    length-append u.choice.front (t.head ∷ (t.surplus ++ u.choice.back)),
    length-append t.surplus u.choice.back,
  )

  length_eq : length g.cells ≡ length before.front + length (c ∷ before.follower ∷ before.back)
  length_eq =
      ap (λ (z : List Cell). length z) around_c
      ∙ length-append before.front (c ∷ before.follower ∷ before.back)

  total_le : total_size (c ∷ before.follower ∷ before.back) < 18446744073709551616
  unfolding total_size
  total_le = omega (
    arith,
    total,
    ap total_size u.choice.splits,
    total_size-append u.choice.front (u.choice.chosen ∷ u.choice.back),
    ap total_size u.cells_eq,
    total_size-append u.choice.front (take_cell (align s) u.choice.chosen ++ u.choice.back),
    total_size-append (take_cell (align s) u.choice.chosen) u.choice.back,
    take_cell-total (align s) u.choice.chosen (ground (arith, u.choice.suited)),
    ap total_size around_c,
    total_size-append before.front (c ∷ before.follower ∷ before.back),
  )

  inv : HeapInv g.heap (before.front ++ (c ∷ before.follower ∷ before.back))
  inv = subst (HeapInv g.heap) around_c g.inv

  pub valid : valid_addr fuel (data_of c.addr) g.heap ≡ some true
  valid =
      valid_addr-block fuel g.heap before.front (before.follower ∷ before.back) c
        (omega (arith, ap (λ (z : List Cell). length z) around_c, count, enough)) small
        (Pairwise-HeadersApart _ inv.apart) inv.shows
      ∙ ap some (rw ((All-right _ xs (c ∷ r ∷ rs) g.links).0.1 ∙ link) (==-refl (data_of c.addr)))

  pub freed : Inner os fuel g.heap c valid small before.front (before.follower ∷ before.back)
  freed =
      free-Inner os fuel g.heap c valid small before.front before.back before.follower
        (omega (arith, length_eq, count, enough)) total_le (Pairwise-HeadersApart _ inv.apart)
        inv.shows

  -- The data of the block at `b` are clear of every header.
  data-Clear : (y : ℕ) → b + 40 ≤ y → y < b + 40 + align s → All (Clear y) g.cells
  data-Clear y lo hi =
      let here : t.head.addr ≡ b = t.at ∙ sym u.choice.address ∙ u.at in
      let away : Pairwise BlocksApart (u.choice.front ++ (t.head ∷ (t.surplus ++ u.choice.back))) =
        subst (Pairwise BlocksApart) made_of g.inv.apart in
      let near =
        around BlocksApart BlocksApart-sym u.choice.front (t.surplus ++ u.choice.back) t.head
          away in
      let clear : (e : Cell) → BlocksApart t.head e → Clear y e =
        λ e k. Clear-away y t.head e (omega (arith, here)) (omega (arith, here, t.fit)) k in
      subst (All (Clear y)) (sym made_of) (
        All-append (Clear y) u.choice.front (t.head ∷ (t.surplus ++ u.choice.back))
          (All-map u.choice.front clear near.0)
          (inr (omega (arith, here)), All-map (t.surplus ++ u.choice.back) clear near.1))

  pub untouched : (y : ℕ) → b + 40 ≤ y → y < b + 40 + align s → freed.heap.mem y ≡ g.heap.mem y
  untouched y lo hi = freed.frame y (
      All-right _ before.front (c ∷ before.follower ∷ before.back)
        (subst (All (Clear y)) around_c (data-Clear y lo hi)))

  pub is_released : is_free freed.heap.mem c.addr ≡ true
  is_released =
      fuse_cells-Seen freed.heap.mem g.heap.base before.front (before.follower ∷ before.back)
        (marked 1 c) refl freed.shows
