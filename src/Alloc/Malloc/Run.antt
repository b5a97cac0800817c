-- ===== src/Alloc/Malloc/Run.antt =====
-- `place` and `my_malloc` run to the end, with the outcome that `Placement` describes.
use metrics_monitor.Base.{
  ℕ, ◌+◌, ◌≤◌, ◌<◌, ◌≡◌, ◌≢◌, refl, sym, ap, ◌∙◌, ◌⊎◌, inl, inr, false, none, some, Option, List,
  [], ◌∷◌, ◌++◌, map, arith, ◌==◌, if◌then◌else◌, length, All, Bool-cases,
}
use mathlib.Core.Path.{subst}
use metrics_monitor.Pairwise.{All-right}
use metrics_monitor.Memory.{Mem, null}
use metrics_monitor.Alloc.Words.{align}
use metrics_monitor.Alloc.Words.Bounds.{align_bounds}
use metrics_monitor.Alloc.Block.{data_of}
use metrics_monitor.Alloc.State.{Os, IsMmap, Heap, Method, MmapGives, round_page, log_handler}
use metrics_monitor.Alloc.Chain.{last_of}
use metrics_monitor.Alloc.Places.{addr_of, Snoc, Snoc-of}
use metrics_monitor.Alloc.Ops.{extend_heap, init_block, take_block}
use metrics_monitor.Alloc.Api.{place, log_malloc, my_malloc}
use metrics_monitor.Alloc.Layout.{Cell, cell, Apart, Seen, Shows-Seen}
use metrics_monitor.Alloc.Layout.Take.{take_cell}
use metrics_monitor.Alloc.Layout.Links.{SameLinks}
use metrics_monitor.Alloc.Malloc.Links.{take_block-SameLinks, extend-SameLinks}
use metrics_monitor.Alloc.Find.{find_block}
use metrics_monitor.Alloc.Choice.{IsPolicy, NoneChosen, Choice, Chosen, find_block-Chosen}
use metrics_monitor.Alloc.Invariant.{HeapInv, InSpace, fresh-BlocksApart}
use metrics_monitor.Alloc.Malloc.Data.{
  InUsed, OffHeader, InUsed-OffHeader, InUsed-free, InUsed-fresh, init_block-frame,
  take_block-frame,
}
use metrics_monitor.Alloc.Malloc.{
  Placement, reused, extended, refused, init_block-Linked, take-Inv, fresh_cell, extend-Inv,
}

abbrev mmap_answer : Os → Heap → ℕ → Option (ℕ × Mem)
mmap_answer os h s = os.mmap h.maps s h.mem

-- The heap behind a successful `extend_heap`.
abbrev pub extended_heap : Heap → ℕ → ℕ → ℕ → Mem → Heap
extended_heap h last s b m = record h {
  mem = init_block b last s m;
  maps = record { start = b; len = s } ∷ h.maps;
}

module _ (os : Os) (last s : ℕ) (h : Heap) where
  extend_heap-none : mmap_answer os h s ≡ none → extend_heap os last s h ≡ some (null, h)
  unfolding extend_heap
  extend_heap-none e = rw (e, extend_heap) refl

  pub extend_heap-some :
      (b : ℕ) (m : Mem)
      → mmap_answer os h s ≡ some (b, m)
      → extend_heap os last s h ≡ some (b, extended_heap h last s b m)
  unfolding extend_heap
  extend_heap-some b m e = rw (e, extend_heap) refl

-- The result of `place`.
pub record Placed (os : Os) (fuel s : ℕ) (h : Heap) (cs : List Cell) : Type 0 where
  pub block : ℕ
  pub heap : Heap
  pub cells : List Cell
  pub runs : place os fuel s h ≡ some (block, heap)
  pub placement : Placement h.method s cs block cells heap.mem
  pub inv : HeapInv heap cells
  pub method_eq : heap.method ≡ h.method
  pub kept : (y : ℕ) → InUsed cs y → heap.mem y ≡ h.mem y
  pub links : All (λ (c : Cell). SameLinks h.mem heap.mem c.addr) cs

All-same : (m : Mem) (cs : List Cell) → All (λ (c : Cell). SameLinks m m c.addr) cs
All-same m [] = tt
All-same m (c ∷ cs) = ((refl, refl), All-same m cs)

NoneChosen-nil : (method : Method) (s : ℕ) → NoneChosen method s []
NoneChosen-nil Method.first_fit s = tt
NoneChosen-nil Method.best_fit s = tt
NoneChosen-nil Method.worst_fit s = tt
NoneChosen-nil (Method.other _) s = tt

Answer-cases : (o : Option (ℕ × Mem)) → (o ≡ none) ⊎ ((b : ℕ) × (m : Mem) × (o ≡ some (b, m)))
Answer-cases none = inl refl
Answer-cases (some (b, m)) = inr (b, m, refl)

module _ (os : Os) (works : IsMmap os) (fuel s : ℕ) (h : Heap) (room : s + 40 ≤ round_page s) where
  place_empty : HeapInv h [] → Placed os fuel s h []
  unfolding place
  place_empty inv = elim (Answer-cases (mmap_answer os h s)) [
    | inl e ↦ record {
      block = null;
      heap = h;
      cells = [];
      runs = ground (arith, extend_heap-none os null s h e, inv.shows);
      placement = refused (NoneChosen-nil h.method s) refl refl;
      inv = inv;
      method_eq = refl;
      kept = λ y u. absurd u;
      links = tt;
    }
    | inr (b, m, e) ↦
        let g : MmapGives h.maps s h.mem b m = works h.maps s h.mem b m e in
        record {
          block = b;
          heap = record (extended_heap h null s b m) { base = b };
          cells = cell b s false ∷ [];
          runs = ground (arith, extend_heap-some os null s h b m e, inv.shows, g.ne_null);
          placement =
              extended (NoneChosen-nil h.method s) g.ne_null refl
                (init_block-Linked m b null s [] (inl refl) refl);
          inv = fresh_cell g room;
          method_eq = refl;
          kept = λ y u. absurd u;
          links = tt;
        }
  ]

  -- No block is eligible: the list is extended behind its last block `last`.
  place_end :
      (c : Cell) (cs : List Cell) (last : ℕ)
      → HeapInv h (c ∷ cs)
      → NoneChosen h.method s (c ∷ cs)
      → last ≡ last_of h.base (map addr_of (c ∷ cs))
      → find_block fuel h.method h.mem h.base h.base s ≡ some (null, last)
      → Placed os fuel s h (c ∷ cs)
  unfolding place
  place_end c cs last inv none_fit at found = elim (Answer-cases (mmap_answer os h s)) [
    | inl e ↦ record {
      block = null;
      heap = h;
      cells = c ∷ cs;
      runs = ground (arith, found, extend_heap-none os last s h e, inv.shows);
      placement = refused none_fit refl refl;
      inv = inv;
      method_eq = refl;
      kept = λ y u. refl;
      links = All-same h.mem (c ∷ cs);
    }
    | inr (b, m, e) ↦
        let g : MmapGives h.maps s h.mem b m = works h.maps s h.mem b m e in
        let end : Snoc c cs = Snoc-of c cs in
        let inv' : HeapInv h (end.front ++ (end.final ∷ [])) = rw end.splits at inv in
        let last_eq : last ≡ end.final.addr = at ∙ end.ends h.base in
        let cover = All-right _ end.front (end.final ∷ []) inv'.covered in
        let fresh = fresh-BlocksApart g room end.final cover.0 in
        let away : Apart b last = rw last_eq (ground (arith, fresh)) in
        record {
          block = b;
          heap = extended_heap h last s b m;
          cells = (end.front ++ (end.final ∷ [])) ++ (cell b s false ∷ []);
          runs = ground (arith, found, extend_heap-some os last s h b m e, inv.shows, g.ne_null);
          placement =
              extended none_fit g.ne_null (ap (λ t. t ++ (cell b s false ∷ [])) (sym end.splits))
                (init_block-Linked m b last s (c ∷ cs) (inr away) (last_eq ∙ sym (end.ends null)));
          inv = rw last_eq (extend-Inv g room h.base end.front end.final inv');
          method_eq = refl;
          kept = λ y u.
              let off = InUsed-OffHeader y (c ∷ cs) inv.apart u in
              let final_off =
                All-right (OffHeader y) end.front (end.final ∷ [])
                  (subst (λ t. All (OffHeader y) t) end.splits off) in
              let away = InUsed-fresh b (round_page s) y h.maps (c ∷ cs) g.fresh inv.covered u in
              init_block-frame m b last s (round_page s) y (omega (arith, room))
                (inr (omega (arith, last_eq, final_off.0))) away
              ∙ g.kept y away;
          links =
              subst (λ k. All (λ (d : Cell). SameLinks h.mem (init_block b k s m) d.addr) (c ∷ cs))
                (sym last_eq)
                (subst
                  (All (λ (d : Cell). SameLinks h.mem (init_block b end.final.addr s m) d.addr))
                  (sym end.splits) (extend-SameLinks g room h.base end.front end.final inv'));
        }
  ]

  place_chosen :
      (cs : List Cell) (b last : ℕ)
      → HeapInv h cs
      → h.base ≢ null
      → Choice h.method s cs b
      → find_block fuel h.method h.mem h.base h.base s ≡ some (b, last)
      → Placed os fuel s h cs
  unfolding place
  place_chosen cs b last inv nonempty ch found =
      let c : Cell = ch.chosen in
      let inv' : HeapInv h (ch.front ++ (c ∷ ch.back)) = rw ch.splits at inv in
      let seen : Seen h.mem c = Shows-Seen h.mem h.base ch.front ch.back c inv'.shows in
      let ne : b ≢ null = λ e. seen.ne_null (sym ch.address ∙ e) in
      let fit : s ≤ c.size = ground (arith, ch.suited) in
      record {
        block = b;
        heap = record h { mem = take_block b s h.mem };
        cells = ch.front ++ (take_cell s c ++ ch.back);
        runs = ground (arith, found, ne, nonempty);
        placement = reused ch refl ne;
        inv = rw ch.address (take-Inv h.mem h.base s h.maps ch.front ch.back c fit inv');
        method_eq = refl;
        kept = λ y u. rw ch.address (
            take_block-frame h.mem s y c seen.size_eq fit
              (All-right _ ch.front (c ∷ ch.back) inv'.in_space).0
              (InUsed-free y ch.front ch.back c (ground (arith, ch.suited)) inv'.apart
                (subst (λ t. InUsed t y) ch.splits u)));
        links = rw ch.address (
            subst (All (λ (d : Cell). SameLinks h.mem (take_block c.addr s h.mem) d.addr))
              (sym ch.splits)
              (take_block-SameLinks h.mem s ch.front ch.back c seen.size_eq fit
                (All-right _ ch.front (c ∷ ch.back) inv'.in_space).0 inv'.apart));
      }

pub sizes_of :
    (cs : List Cell) → All InSpace cs → All (λ (c : Cell). c.size < 18446744073709551616) cs
sizes_of [] a = tt
sizes_of (c ∷ cs) a = (omega (arith, a.0), sizes_of cs a.1)

-- `place` ends with one of the three outcomes, and keeps the invariant.
pub place-Placed :
    (os : Os) (fuel s : ℕ) (h : Heap) (cs : List Cell)
    → IsMmap os
    → IsPolicy h.method
    → length cs < fuel
    → s < 18446744073709551616
    → s + 40 ≤ round_page s
    → HeapInv h cs
    → Placed os fuel s h cs
place-Placed os fuel s h [] works pol enough small room inv = place_empty os works fuel s h room inv
place-Placed os fuel s h (c ∷ cs) works pol enough small room inv =
    let nonempty : h.base ≢ null = λ e. inv.shows.1 (sym inv.shows.0 ∙ e) in
    let found =
      find_block-Chosen h.mem s fuel h.base h.base (c ∷ cs) inv.shows enough small
        (sizes_of (c ∷ cs) inv.in_space) h.method pol in
    go found.0.0 found.0.1 nonempty found.1 found.2
  where
    go :
        (r last : ℕ)
        → h.base ≢ null
        → find_block fuel h.method h.mem h.base h.base s ≡ some (r, last)
        → Chosen h.method s h.base (c ∷ cs) r last
        → Placed os fuel s h (c ∷ cs)
    go r last ne e (inl (z, none_fit, at)) =
        place_end os works fuel s h room c cs last inv none_fit at (rw z at e)
    go r last ne e (inr ch) = place_chosen os works fuel s h room (c ∷ cs) r last inv ne ch e

-- The log entry leaves the memory, the list head and the regions alone.
log_malloc-fields :
    (os : Os) (b n : ℕ) (h : Heap)
    → ((log_malloc os b n h).mem ≡ h.mem)
      × ((log_malloc os b n h).base ≡ h.base)
      × ((log_malloc os b n h).maps ≡ h.maps)
      × ((log_malloc os b n h).method ≡ h.method)
      × ((log_malloc os b n h).malloc_call ≡ 0)
unfolding log_malloc log_handler
log_malloc-fields os b n h = ground arith

-- The result of `my_malloc`.
pub record Malloced (os : Os) (fuel n : ℕ) (h : Heap) (cs : List Cell) : Type 0 where
  pub block : ℕ
  pub heap : Heap
  pub cells : List Cell
  pub runs : my_malloc os fuel n h ≡ some (if block == null then null else data_of block, heap)
  pub placement : Placement h.method (align n) cs block cells heap.mem
  pub inv : HeapInv heap cells
  pub method_eq : heap.method ≡ h.method
  pub kept : (y : ℕ) → InUsed cs y → heap.mem y ≡ h.mem y
  pub links : All (λ (c : Cell). SameLinks h.mem heap.mem c.addr) cs

finish :
    (os : Os) (fuel n : ℕ) (h : Heap) (cs : List Cell) (r : Placed os fuel (align n) h cs)
    → Malloced os fuel n h cs
unfolding my_malloc
finish os fuel n h cs r = elim (Bool-cases (r.block == null)) [
  | inl refused_it ↦ record {
    block = r.block;
    heap = r.heap;
    cells = r.cells;
    runs = ground (arith, r.runs, refused_it);
    placement = r.placement;
    inv = r.inv;
    method_eq = r.method_eq;
    kept = r.kept;
    links = r.links;
  }
  | inr got ↦
      let f = log_malloc-fields os r.block n r.heap in
      record {
        block = r.block;
        heap = log_malloc os r.block n r.heap;
        cells = r.cells;
        runs = ground (arith, r.runs, got);
        placement = subst (Placement h.method (align n) cs r.block r.cells) (sym f.0) r.placement;
        inv = rw (f.0, f.1, f.2) r.inv;
        method_eq = f.3 ∙ r.method_eq;
        kept = λ y u. ap (λ (k : Mem). k y) f.0 ∙ r.kept y u;
        links =
            subst (λ (k : Mem). All (λ (d : Cell). SameLinks h.mem k d.addr) cs) (sym f.0) r.links;
      }
]

-- `my_malloc` of 1 to 2^64 - 8 bytes, when the aligned request and a header fit in the whole pages
-- of the request, under one of the three policies, on a heap with the invariant, with an `mmap` as
-- documented and fuel beyond the length of the list: it ends; it takes the block that the policy
-- chooses, or makes a new one at the end of the list, or returns NULL and changes nothing of the
-- list; no other block of the list changes, the blocks that were there keep their fields `prev` and
-- `ptr`, and the invariant holds again.
pub my_malloc-Malloced :
    (os : Os) (fuel n : ℕ) (h : Heap) (cs : List Cell)
    → IsMmap os
    → IsPolicy h.method
    → length cs < fuel
    → 0 < n
    → n + 8 ≤ 18446744073709551616
    → align n + 40 ≤ round_page (align n)
    → HeapInv h cs
    → Malloced os fuel n h cs
my_malloc-Malloced os fuel n h cs works pol enough pos bound room inv =
    finish os fuel n h cs
      (place-Placed os fuel (align n) h cs works pol enough (align_bounds n pos bound).3 room inv)
