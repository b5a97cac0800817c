-- ===== src/Alloc/Session/Grown.antt =====
-- What a call of `my_realloc` of lib/memory/src/memory.c that grows its block into the free blocks
-- behind it leaves of the allocations that are alive.
use metrics_monitor.Base.{
  ℕ, suc, ◌+◌, ◌≤◌, ◌<◌, ◌≡◌, refl, sym, ap, ◌∙◌, inl, inr, true, false, some, List, [], ◌∷◌, ◌++◌,
  arith, ==-false, leb, length, length-append, All, Bool-cases,
}
use mathlib.Core.Path.{subst}
use metrics_monitor.Pairwise.{All-map, All-both, All-right}
use metrics_monitor.Alloc.Words.{align}
use metrics_monitor.Alloc.Block.{size, ptr, data_of}
use metrics_monitor.Alloc.State.{Os, Heap}
use metrics_monitor.Alloc.Ops.{fusion, trim_block}
use metrics_monitor.Alloc.Api.{my_realloc, can_grow}
use metrics_monitor.Alloc.Layout.{Cell, cell, Shows, Seen, Shows-Seen}
use metrics_monitor.Alloc.Layout.Take.{Pairwise-HeadersApart}
use metrics_monitor.Alloc.Layout.Fuse.{fuse_cells, total_size, Clear, Fused, fusion_loop-Shows}
use metrics_monitor.Alloc.Invariant.{HeapInv, InSpace}
use metrics_monitor.Alloc.Malloc.Data.{InUsed, OffHeader, InUsed-OffHeader}
use metrics_monitor.Alloc.Realloc.{Kept, grow, valid_addr-linked}
use metrics_monitor.Alloc.Free.Keep.{SideBySide, fuse_cells-Room, length-fuse_cells}
use metrics_monitor.Alloc.Session.{Live, live, Without, Inside, Holds, HeldIn}
use metrics_monitor.Alloc.Session.Held.{Held, HeldIn-InUsed}
use metrics_monitor.Alloc.Session.Freed.{HeldIn-fuse}
use metrics_monitor.Alloc.Session.Owner.{Without-All, cells_eq, inv, enough}
use metrics_monitor.Alloc.Session.Trimmed.{trimmed-Held, trimmed-others, trimmed-here}

-- Fusing keeps what the first block holds.
Holds-fuse : (c : Cell) (ys : List Cell) (l : Live) → Holds c l → HeldIn (fuse_cells c ys) l
unfolding fuse_cells
Holds-fuse c [] l h = inl h
Holds-fuse c (d ∷ []) l h = inl h
Holds-fuse c (d ∷ e ∷ r) l h = elim (Bool-cases d.is_free) [
  | inl free ↦
      simp free
        (Holds-fuse (record c { size = c.size + d.size }) (e ∷ r) l (h.0, h.1, omega (arith, h.2)))
  | inr used ↦ simp used (inl h)
]

HeldIn-fused :
    (xs ys : List Cell) (c : Cell) (l : Live)
    → HeldIn (xs ++ (c ∷ ys)) l
    → HeldIn (xs ++ fuse_cells c ys) l
HeldIn-fused [] ys c l (inl h) = Holds-fuse c ys l h
HeldIn-fused [] ys c l (inr h) = HeldIn-fuse c ys l h
HeldIn-fused (x ∷ xs) ys c l (inl h) = inl h
HeldIn-fused (x ∷ xs) ys c l (inr h) = inr (HeldIn-fused xs ys c l h)

module _ (os : Os) (fuel k n s : ℕ) (h h' : Heap) (ls ms : List Live) (l : Live)
    (xs ys zs : List Cell) (c : Cell) (small : k < fuel) (H : Held k h ls)
    (without : Without l ls ms) (pos : 0 < n) (bound : n + 8 ≤ 18446744073709551616)
    (shows : Shows h.mem h.base (xs ++ (c ∷ ys))) (at : data_of c.addr ≡ l.addr)
    (link : ptr h.mem c.addr ≡ data_of c.addr) (short : c.size < align n)
    (grows : can_grow c.addr (align n) h.mem ≡ true) (side : SideBySide (c.addr + 40 + c.size) ys)
    (total : total_size (c ∷ ys) < 18446744073709551616)
    (head : fuse_cells c ys ≡ cell c.addr s false ∷ zs) (fit : align n ≤ s)
    (runs : my_realloc os fuel l.addr n h ≡ some (l.addr, h')) where
  old : HeapInv h (xs ++ (c ∷ ys))
  old = inv k h ls ms l xs ys c H without shows at

  count : length (xs ++ (c ∷ ys)) ≤ k
  count = enough k h ls ms l xs ys c H without shows at

  fused : Fused fuel h.mem h.base xs c ys
  fused =
      fusion_loop-Shows fuel h.mem h.base xs ys c (omega (arith, count, length-append xs (c ∷ ys)))
        total (Pairwise-HeadersApart (xs ++ (c ∷ ys)) old.apart) shows

  -- The heap behind `fusion`.
  between : Heap
  between = record h { mem = fused.mem }

  fused-Held : Held k between ls
  unfolding between
  fused-Held =
      let r =
        fuse_cells-Room h.maps xs ys c c refl (omega arith) side
          (record { apart = old.apart; covered = old.covered; in_space = old.in_space }) in
      record {
        cells = xs ++ fuse_cells c ys;
        count = omega (
          arith,
          count,
          length-append xs (c ∷ ys),
          length-append xs (fuse_cells c ys),
          length-fuse_cells c ys,
        );
        inv = record {
          shows = fused.shows;
          apart = r.apart;
          covered = r.covered;
          in_space = r.in_space;
        };
        policy = H.policy;
        held =
            All-map ls
              (λ x held.
                HeldIn-fused xs ys c x (
                  subst (λ cs. HeldIn cs x) (cells_eq k h ls ms l xs ys c H without shows at) held))
              H.held;
        some_size = H.some_size;
        live_apart = H.live_apart;
      }

  fused-Shows : Shows between.mem between.base (xs ++ (cell c.addr s false ∷ zs))
  unfolding between
  fused-Shows = subst (λ cs. Shows fused.mem h.base (xs ++ cs)) head fused.shows

  kept : Kept os fuel n h c.addr (trim_block c.addr (align n) fused.mem)
  unfolding fusion
  kept =
      let seen : Seen h.mem c = Shows-Seen h.mem h.base xs ys c shows in
      let space : InSpace c = (All-right InSpace xs (c ∷ ys) old.in_space).0 in
      let valid =
        valid_addr-linked fuel h xs ys c (omega (arith, count)) (omega (arith, space)) link
          old.apart shows in
      let no : leb (align n) (size h.mem c.addr) ≡ false = rw seen.size_eq (ground arith) in
      grow os fuel n h c.addr (omega (arith, space)) valid fused.mem no grows
        (rw (==-false c.addr 0 seen.ne_null) fused.runs)

  kept_run : my_realloc os fuel (data_of c.addr) n h ≡ some (l.addr, h')
  kept_run = rw at runs

  heap_eq : kept.heap ≡ h'
  heap_eq = let both = sym kept.runs ∙ kept_run in cc

  -- `fusion` leaves the data of used blocks alone.
  fused_mem : (y : ℕ) → InUsed H.cells y → between.mem y ≡ h.mem y
  unfolding between
  fused_mem y u =
      let off = InUsed-OffHeader y H.cells H.inv.apart u in
      let all = subst (All (OffHeader y)) (cells_eq k h ls ms l xs ys c H without shows at) off in
      fused.frame y (All-map (c ∷ ys) off_clear (All-right (OffHeader y) xs (c ∷ ys) all))
    where
      off_clear : (d : Cell) → OffHeader y d → Clear y d
      off_clear d o = ground arith

  mem_eq : h'.mem ≡ trim_block c.addr (align n) between.mem
  unfolding between
  mem_eq = ap (λ (g : Heap). g.mem) (sym heap_eq) ∙ kept.mem_eq

  base_eq : h'.base ≡ between.base
  unfolding between
  base_eq = ap (λ (g : Heap). g.base) (sym heap_eq) ∙ kept.base_eq

  maps_eq : h'.maps ≡ between.maps
  unfolding between
  maps_eq = ap (λ (g : Heap). g.maps) (sym heap_eq) ∙ kept.maps_eq

  method_eq : h'.method ≡ between.method
  unfolding between
  method_eq = ap (λ (g : Heap). g.method) (sym heap_eq) ∙ kept.method_eq

  pub grown-Held : Held (suc k) h' (live l.addr n ∷ ms)
  grown-Held =
      trimmed-Held k n between h' ls ms l xs zs (cell c.addr s false) fused-Held without pos bound
        fused-Shows at fit mem_eq base_eq maps_eq method_eq

  pub grown-others : All (λ (x : Live). (y : ℕ) → Inside x y → h'.mem y ≡ h.mem y) ms
  grown-others =
      All-both ms (λ x same held y i. same y i ∙ fused_mem y (HeldIn-InUsed H.cells x y held i))
        (trimmed-others k n between h' ls ms l xs zs (cell c.addr s false) fused-Held without pos
          bound fused-Shows at fit mem_eq base_eq maps_eq method_eq)
        (Without-All (HeldIn H.cells) without H.held).1

  pub grown-here : (y : ℕ) → Inside l y → Inside (live l.addr n) y → h'.mem y ≡ h.mem y
  grown-here y i j =
      trimmed-here k n between h' ls ms l xs zs (cell c.addr s false) fused-Held without pos bound
        fused-Shows at fit mem_eq base_eq maps_eq method_eq y j
      ∙ fused_mem y (HeldIn-InUsed H.cells l y (Without-All (HeldIn H.cells) without H.held).0 i)
