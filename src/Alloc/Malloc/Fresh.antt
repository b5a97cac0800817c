-- ===== src/Alloc/Malloc/Fresh.antt =====
-- `my_malloc` of lib/memory/src/memory.c where it makes a new block: what the memory holds then.
use metrics_monitor.Base.{
  ℕ, ◌+◌, ◌≤◌, ◌<◌, ◌≡◌, ◌≢◌, sym, ap, ◌∙◌, inl, inr, false, some, List, [], ◌∷◌, ◌++◌, map, arith,
  ◌==◌, ==-false, if◌then◌else◌, length, All,
}
use mathlib.Core.Path.{subst}
use metrics_monitor.Memory.{Mem, null}
use metrics_monitor.Alloc.Words.{align}
use metrics_monitor.Alloc.Words.Bounds.{align_bounds}
use metrics_monitor.Alloc.Block.{data_of}
use metrics_monitor.Alloc.State.{Os, IsMmap, Heap, MmapGives, Disjoint, round_page, log_handler}
use metrics_monitor.Alloc.Chain.{last_of}
use metrics_monitor.Alloc.Places.{addr_of}
use metrics_monitor.Alloc.Find.{find_block}
use metrics_monitor.Alloc.Ops.{init_block}
use metrics_monitor.Alloc.Api.{place, log_malloc, my_malloc}
use metrics_monitor.Alloc.Layout.{Cell, cell}
use metrics_monitor.Alloc.Layout.Fuse.{Clear}
use metrics_monitor.Alloc.Choice.{IsPolicy, NoneChosen, find_block-Chosen}
use metrics_monitor.Alloc.Invariant.{HeapInv}
use metrics_monitor.Alloc.Release.{Linked, Clear-last}
use metrics_monitor.Alloc.Malloc.Data.{init_block-frame}
use metrics_monitor.Alloc.Malloc.{reused, extended, refused}
use metrics_monitor.Alloc.Malloc.Run.{my_malloc-Malloced, sizes_of, extended_heap, extend_heap-some}
use metrics_monitor.Alloc.Malloc.Undo.{not-Choice}

-- The result of `my_malloc` of `n` bytes that makes a new block at `b` behind the blocks `cs`.
pub record Fresh (os : Os) (fuel n : ℕ) (h : Heap) (cs : List Cell) (b : ℕ) : Type 0 where
  pub heap : Heap
  pub runs : my_malloc os fuel n h ≡ some (data_of b, heap)
  pub inv : HeapInv heap (cs ++ (cell b (align n) false ∷ []))
  pub linked : Linked heap.mem cs (cell b (align n) false)
  pub frame :
      (y : ℕ) → Disjoint y 1 b (round_page (align n)) → All (Clear y) cs → heap.mem y ≡ h.mem y

module _ (os : Os) (works : IsMmap os) (fuel n : ℕ) (h : Heap) (c : Cell) (cs : List Cell)
    (pol : IsPolicy h.method) (enough : length (c ∷ cs) < fuel) (pos : 0 < n)
    (bound : n + 8 ≤ 18446744073709551616) (room : align n + 40 ≤ round_page (align n))
    (inv : HeapInv h (c ∷ cs)) (none_fit : NoneChosen h.method (align n) (c ∷ cs)) (b : ℕ) (m : Mem)
    (answer : os.mmap h.maps (align n) h.mem ≡ some (b, m)) where
  gives : MmapGives h.maps (align n) h.mem b m
  gives = works h.maps (align n) h.mem b m answer

  -- The header that `find_block` reports as the last one.
  found :
      (last : ℕ) × (find_block fuel h.method h.mem h.base h.base (align n) ≡ some (null, last))
      × (last ≡ last_of h.base (map addr_of (c ∷ cs)))
  found =
      let f =
        find_block-Chosen h.mem (align n) fuel h.base h.base (c ∷ cs) inv.shows enough
          (align_bounds n pos bound).3 (sizes_of (c ∷ cs) inv.in_space) h.method pol in
      elim f.2 [
        | inl (z, no_one, at) ↦ (f.0.1, f.1 ∙ ap (λ r. some (r, f.0.1)) z, at)
        | inr ch ↦ absurd (not-Choice h.method (align n) f.0.0 (c ∷ cs) none_fit ch)
      ]

  new_heap : Heap
  new_heap = log_malloc os b n (extended_heap h found.0 (align n) b m)

  fresh-place : place os fuel (align n) h ≡ some (b, extended_heap h found.0 (align n) b m)
  unfolding place
  fresh-place =
      let nonempty : h.base ≢ null = λ e. inv.shows.1 (sym inv.shows.0 ∙ e) in
      ground (arith, found.1, extend_heap-some os found.0 (align n) h b m answer, nonempty)

  fresh-runs : my_malloc os fuel n h ≡ some (data_of b, new_heap)
  unfolding my_malloc new_heap
  fresh-runs = ground (arith, fresh-place, gives.ne_null)

  new_heap-mem : new_heap.mem ≡ init_block b found.0 (align n) m
  unfolding new_heap log_malloc log_handler
  new_heap-mem = ground arith

  new_heap-frame :
      (y : ℕ)
      → Disjoint y 1 b (round_page (align n))
      → All (Clear y) (c ∷ cs)
      → new_heap.mem y ≡ h.mem y
  new_heap-frame y away clear =
      let d = Clear-last y h.base c cs clear in
      ap (λ (k : Mem). k y) new_heap-mem
      ∙ init_block-frame m b found.0 (align n) (round_page (align n)) y (omega arith)
          (inr (omega (arith, d.1, found.2, d.2))) away
      ∙ gives.kept y away

  pub my_malloc-Fresh : Fresh os fuel n h (c ∷ cs) b
  my_malloc-Fresh =
      let r = my_malloc-Malloced os fuel n h (c ∷ cs) works pol enough pos bound room inv in
      let same = sym r.runs ∙ fresh-runs in
      let heap_eq : r.heap ≡ new_heap = cc in
      let p_eq : (if r.block == null then null else data_of r.block) ≡ data_of b = cc in
      elim r.placement [
        | reused ch e ne ↦ absurd (not-Choice h.method (align n) r.block (c ∷ cs) none_fit ch)
        | extended no_one ne cells_eq linked ↦
            let at : r.block ≡ b = omega (arith, rw (==-false r.block 0 ne) at p_eq) in
            record {
              heap = new_heap;
              runs = fresh-runs;
              inv =
                  subst (λ k. HeapInv k ((c ∷ cs) ++ (cell b (align n) false ∷ []))) heap_eq
                    (rw (← at) (rw cells_eq at r.inv));
              linked =
                  subst (λ (k : Heap). Linked k.mem (c ∷ cs) (cell b (align n) false)) heap_eq
                    (rw (← at) linked);
              frame = new_heap-frame;
            }
        | refused no_one z e ↦ absurd (omega (arith, rw z at p_eq))
      ]
