-- ===== src/Alloc/Session/Freed.antt =====
-- What a call of `my_free` of lib/memory/src/memory.c leaves of the allocations that are alive.
use metrics_monitor.Base.{
  ℕ, ◌+◌, ◌≤◌, ◌<◌, ◌≡◌, ◌≢◌, ◌⊎◌, refl, sym, ap, ◌∙◌, inl, inr, true, false, some, List, [], ◌∷◌,
  ◌++◌, arith, length, All, Bool-cases,
}
use mathlib.Core.Path.{subst}
use metrics_monitor.Pairwise.{All-map, All-right}
use metrics_monitor.Alloc.Block.{ptr, data_of}
use metrics_monitor.Alloc.State.{Os, Heap}
use metrics_monitor.Alloc.Api.{my_free}
use metrics_monitor.Alloc.Layout.{Cell, Shows}
use metrics_monitor.Alloc.Layout.Mark.{marked}
use metrics_monitor.Alloc.Layout.Take.{Pairwise-HeadersApart}
use metrics_monitor.Alloc.Layout.Fuse.{fuse_cells, total_size, Clear}
use metrics_monitor.Alloc.Choice.{IsPolicy}
use metrics_monitor.Alloc.Invariant.{HeapInv, InSpace}
use metrics_monitor.Alloc.Release.{Linked}
use metrics_monitor.Alloc.Malloc.Data.{InUsed, OffHeader, InUsed-OffHeader}
use metrics_monitor.Alloc.Free.{free_cells, Freed}
use metrics_monitor.Alloc.Free.Keep.{length-free_cells, SideBySide, my_free-Inv}
use metrics_monitor.Alloc.Faults.{my_free-unlinked}
use metrics_monitor.Alloc.Session.{Live, Without, Freeable, HeldIn}
use metrics_monitor.Alloc.Session.Owner.{
  Without-All, Without-Pairwise, cells_eq, inv, enough, others,
}
use metrics_monitor.Alloc.Session.Held.{Held, HeldIn-left, HeldIn-right}

-- Fusing loses no used block behind the first one.
pub HeldIn-fuse : (c : Cell) (ys : List Cell) (l : Live) → HeldIn ys l → HeldIn (fuse_cells c ys) l
unfolding fuse_cells
HeldIn-fuse c [] l h = absurd h
HeldIn-fuse c (d ∷ []) l h = inr h
HeldIn-fuse c (d ∷ e ∷ r) l h = elim (Bool-cases d.is_free) [
  | inl free ↦ rw free (HeldIn-fuse (record c { size = c.size + d.size }) (e ∷ r) l (behind free h))
  | inr used ↦ subst (λ cs. HeldIn cs l) (sym (stops used)) (inr h)
]
  where
    behind : d.is_free ≡ true → HeldIn (d ∷ e ∷ r) l → HeldIn (e ∷ r) l
    behind free (inl (at, used, fit)) = absurd (cc)
    behind free (inr k) = k

    stops : d.is_free ≡ false → fuse_cells c (d ∷ e ∷ r) ≡ c ∷ d ∷ e ∷ r
    stops used = simp used refl

HeldIn-free :
    (xs ys : List Cell) (c : Cell) (l : Live)
    → HeldIn xs l ⊎ HeldIn ys l
    → HeldIn (free_cells xs c ys) l
unfolding free_cells
HeldIn-free xs [] c l (inl h) = h
HeldIn-free xs [] c l (inr h) = absurd h
HeldIn-free xs (d ∷ ys) c l (inl h) = HeldIn-left xs (fuse_cells (marked 1 c) (d ∷ ys)) l h
HeldIn-free xs (d ∷ ys) c l (inr h) =
    HeldIn-right xs (fuse_cells (marked 1 c) (d ∷ ys)) l (HeldIn-fuse (marked 1 c) (d ∷ ys) l h)

-- A call of `my_free` of the allocation `l`, in the block `c`.
module _ (os : Os) (fuel k : ℕ) (h h' : Heap) (ls ms : List Live) (l : Live) (xs ys : List Cell)
    (c : Cell) (small : k < fuel) (H : Held k h ls) (without : Without l ls ms)
    (shows : Shows h.mem h.base (xs ++ (c ∷ ys))) (at : data_of c.addr ≡ l.addr)
    (runs : my_free os fuel l.addr h ≡ some (tt, h')) where
  cells_now : H.cells ≡ xs ++ (c ∷ ys)
  cells_now = cells_eq k h ls ms l xs ys c H without shows at

  inv_now : HeapInv h (xs ++ (c ∷ ys))
  inv_now = inv k h ls ms l xs ys c H without shows at

  few : length (xs ++ (c ∷ ys)) ≤ k
  few = enough k h ls ms l xs ys c H without shows at

  freed_run : my_free os fuel (data_of c.addr) h ≡ some (tt, h')
  freed_run = rw at runs

  module _ (linked : Linked h.mem xs c) (side : SideBySide (c.addr + 40 + c.size) ys)
      (total : total_size (c ∷ ys) < 18446744073709551616) where
    freed : (f : Freed os fuel h xs c ys) × HeapInv f.heap (free_cells xs c ys)
    freed = my_free-Inv os fuel h xs c ys (omega (arith, few)) total linked side inv_now

    freed_heap : freed.0.heap ≡ h'
    freed_heap = let both = sym freed.0.runs ∙ freed_run in cc

    freed-Held : Held k h' ms
    freed-Held =
        subst (λ g. Held k g ms) freed_heap
          (record {
            cells = free_cells xs c ys;
            count = omega (arith, few, length-free_cells xs ys c);
            inv = freed.1;
            policy = subst IsPolicy (sym freed.0.method_eq) H.policy;
            held =
                All-map ms (λ x b. HeldIn-free xs ys c x b)
                  (others k h ls ms l xs ys c H without shows at);
            some_size = (Without-All (λ (x : Live). 0 < x.size) without H.some_size).1;
            live_apart = (Without-Pairwise without H.live_apart).1;
          })

  kept_heap : ptr h.mem c.addr ≢ data_of c.addr → h ≡ h'
  kept_heap ne =
      let space : InSpace c = (All-right InSpace xs (c ∷ ys) inv_now.in_space).0 in
      let still =
        my_free-unlinked os fuel h xs ys c (omega (arith, few)) (omega (arith, space)) ne
          (Pairwise-HeadersApart (xs ++ (c ∷ ys)) inv_now.apart) shows in
      let both = sym still ∙ freed_run in cc

  kept-Held : ptr h.mem c.addr ≢ data_of c.addr → Held k h' ms
  kept-Held ne =
      subst (λ g. Held k g ms) (kept_heap ne)
        (record {
          cells = H.cells;
          count = H.count;
          inv = H.inv;
          policy = H.policy;
          held = (Without-All (HeldIn H.cells) without H.held).1;
          some_size = (Without-All (λ (x : Live). 0 < x.size) without H.some_size).1;
          live_apart = (Without-Pairwise without H.live_apart).1;
        })

  pub released-Held : Freeable h.mem xs c ys → Held k h' ms
  released-Held (inl ne) = kept-Held ne
  released-Held (inr (linked, side, total)) = freed-Held linked side total

  -- The data of used blocks stay.
  pub released-mem : Freeable h.mem xs c ys → (y : ℕ) → InUsed H.cells y → h'.mem y ≡ h.mem y
  released-mem (inl ne) y u = ap (λ (g : Heap). g.mem y) (sym (kept_heap ne))
  released-mem (inr (linked, side, total)) y u =
      let f : Freed os fuel h xs c ys = (freed linked side total).0 in
      let off = InUsed-OffHeader y H.cells H.inv.apart u in
      let clear = All-map (xs ++ (c ∷ ys)) off_clear (subst (All (OffHeader y)) cells_now off) in
      ap (λ (g : Heap). g.mem y) (sym (freed_heap linked side total)) ∙ f.frame y clear
    where
      off_clear : (d : Cell) → OffHeader y d → Clear y d
      off_clear d o = ground arith
