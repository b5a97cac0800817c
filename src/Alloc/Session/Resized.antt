-- ===== src/Alloc/Session/Resized.antt =====
-- What a call of `my_realloc` of lib/memory/src/memory.c that keeps its block in place leaves of the
-- allocations that are alive.
use metrics_monitor.Base.{
  ℕ, suc, ◌+◌, ◌≤◌, ◌<◌, ◌≡◌, sym, ap, ◌∙◌, some, List, ◌∷◌, ◌++◌, arith, length, All,
}
use metrics_monitor.Pairwise.{All-right}
use metrics_monitor.Alloc.Words.{align}
use metrics_monitor.Alloc.Block.{ptr, data_of}
use metrics_monitor.Alloc.State.{Os, Heap}
use metrics_monitor.Alloc.Ops.{trim_block}
use metrics_monitor.Alloc.Api.{my_realloc}
use metrics_monitor.Alloc.Layout.{Cell, Shows}
use metrics_monitor.Alloc.Invariant.{HeapInv, InSpace}
use metrics_monitor.Alloc.Realloc.{Kept, my_realloc-trims}
use metrics_monitor.Alloc.Session.{Live, live, Without, Inside}
use metrics_monitor.Alloc.Session.Held.{Held}
use metrics_monitor.Alloc.Session.Owner.{inv, enough}
use metrics_monitor.Alloc.Session.Trimmed.{trimmed-Held, trimmed-others, trimmed-here}

-- A call of `my_realloc` of the allocation `l`, whose block `c` is large enough.
module _ (os : Os) (fuel k n : ℕ) (h h' : Heap) (ls ms : List Live) (l : Live) (xs ys : List Cell)
    (c : Cell) (small : k < fuel) (H : Held k h ls) (without : Without l ls ms) (pos : 0 < n)
    (bound : n + 8 ≤ 18446744073709551616) (shows : Shows h.mem h.base (xs ++ (c ∷ ys)))
    (at : data_of c.addr ≡ l.addr) (link : ptr h.mem c.addr ≡ data_of c.addr)
    (fit : align n ≤ c.size) (runs : my_realloc os fuel l.addr n h ≡ some (l.addr, h')) where
  inv_now : HeapInv h (xs ++ (c ∷ ys))
  inv_now = inv k h ls ms l xs ys c H without shows at

  count : length (xs ++ (c ∷ ys)) ≤ k
  count = enough k h ls ms l xs ys c H without shows at

  room : InSpace c
  room = (All-right InSpace xs (c ∷ ys) inv_now.in_space).0

  kept : Kept os fuel n h c.addr (trim_block c.addr (align n) h.mem)
  kept =
      my_realloc-trims os fuel n h xs ys c (omega (arith, count)) (omega (arith, room)) fit link
        inv_now.apart shows

  kept_run : my_realloc os fuel (data_of c.addr) n h ≡ some (l.addr, h')
  kept_run = rw at runs

  heap_eq : kept.heap ≡ h'
  heap_eq = let both = sym kept.runs ∙ kept_run in cc

  pub resized-Held : Held (suc k) h' (live l.addr n ∷ ms)
  resized-Held =
      trimmed-Held k n h h' ls ms l xs ys c H without pos bound shows at fit
        (ap (λ (g : Heap). g.mem) (sym heap_eq) ∙ kept.mem_eq)
        (ap (λ (g : Heap). g.base) (sym heap_eq) ∙ kept.base_eq)
        (ap (λ (g : Heap). g.maps) (sym heap_eq) ∙ kept.maps_eq)
        (ap (λ (g : Heap). g.method) (sym heap_eq) ∙ kept.method_eq)

  pub resized-others : All (λ (x : Live). (y : ℕ) → Inside x y → h'.mem y ≡ h.mem y) ms
  resized-others =
      trimmed-others k n h h' ls ms l xs ys c H without pos bound shows at fit
        (ap (λ (g : Heap). g.mem) (sym heap_eq) ∙ kept.mem_eq)
        (ap (λ (g : Heap). g.base) (sym heap_eq) ∙ kept.base_eq)
        (ap (λ (g : Heap). g.maps) (sym heap_eq) ∙ kept.maps_eq)
        (ap (λ (g : Heap). g.method) (sym heap_eq) ∙ kept.method_eq)

  pub resized-here : (y : ℕ) → Inside (live l.addr n) y → h'.mem y ≡ h.mem y
  resized-here =
      trimmed-here k n h h' ls ms l xs ys c H without pos bound shows at fit
        (ap (λ (g : Heap). g.mem) (sym heap_eq) ∙ kept.mem_eq)
        (ap (λ (g : Heap). g.base) (sym heap_eq) ∙ kept.base_eq)
        (ap (λ (g : Heap). g.maps) (sym heap_eq) ∙ kept.maps_eq)
        (ap (λ (g : Heap). g.method) (sym heap_eq) ∙ kept.method_eq)
