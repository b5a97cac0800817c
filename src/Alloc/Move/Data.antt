-- ===== src/Alloc/Move/Data.antt =====
-- The copy and the release in the moving branch of `my_realloc` of lib/memory/src/memory.c, on a heap
-- whose last block is the new one.
use metrics_monitor.Base.{
  ℕ, ◌+◌, ◌*◌, ◌%◌, ◌-◌, ◌≤◌, ◌<◌, ◌≡◌, ◌⊎◌, sym, ap, ◌∙◌, inr, true, false, some, List, [], ◌∷◌,
  ◌++◌, arith, ==-refl, length, length-append, All,
}
use mathlib.Core.Path.{subst}
use mathlib.Core.List.{append_assoc}
use metrics_monitor.Memory.{Mem, load_int, load_int-frame}
use metrics_monitor.Pairwise.{Pairwise, around, All-append, All-right, All-map}
use metrics_monitor.Alloc.Block.{ptr, data_of}
use metrics_monitor.Alloc.State.{Os, Heap}
use metrics_monitor.Alloc.Ops.{valid_addr, copy_block}
use metrics_monitor.Alloc.Api.{my_free}
use metrics_monitor.Alloc.Layout.{
  Cell, cell, Shows, Seen, SameHeader, HeadersApart, BlocksApart, BlocksApart-sym, Shows-Seen,
  Shows-frame,
}
use metrics_monitor.Alloc.Layout.Mark.{marked}
use metrics_monitor.Alloc.Layout.Take.{Pairwise-HeadersApart}
use metrics_monitor.Alloc.Layout.Fuse.{fuse_cells, total_size, Clear}
use metrics_monitor.Alloc.Copy.{Copied, copy_loop-Copied, copy_block-loop}
use metrics_monitor.Alloc.Free.{Inner, free-Inner}
use metrics_monitor.Alloc.Invariant.{HeapInv}
use metrics_monitor.Alloc.Valid.{valid_addr-block}
use metrics_monitor.Alloc.Move.{Clear-away}

-- The release where the block is not the last one.
release_before :
    (os : Os) (fuel : ℕ) (h : Heap) (c : Cell)
    (valid : valid_addr fuel (data_of c.addr) h ≡ some true) (small : c.addr < 18446744073709551616)
    (xs ys : List Cell) (d : Cell)
    → length (xs ++ (c ∷ (ys ++ (d ∷ [])))) < fuel
    → total_size (c ∷ (ys ++ (d ∷ []))) < 18446744073709551616
    → Pairwise HeadersApart (xs ++ (c ∷ (ys ++ (d ∷ []))))
    → Shows h.mem h.base (xs ++ (c ∷ (ys ++ (d ∷ []))))
    → Inner os fuel h c valid small xs (ys ++ (d ∷ []))
release_before os fuel h c valid small xs [] d enough total apart sh =
    free-Inner os fuel h c valid small xs [] d (omega (arith, length-append xs (c ∷ d ∷ []))) total
      apart sh
release_before os fuel h c valid small xs (y ∷ ys) d enough total apart sh =
    free-Inner os fuel h c valid small xs (ys ++ (d ∷ [])) y
      (omega (arith, length-append xs (c ∷ y ∷ (ys ++ (d ∷ []))))) total apart sh

-- The copy of the data of `c` into the block at `b`, and the release of `c` behind it.
pub record Replaced (os : Os) (fuel : ℕ) (g : Heap) (xs ys : List Cell) (c : Cell) (b s : ℕ)
    : Type 0 where
  pub copy : Mem
  pub copy_runs : copy_block fuel c.addr b g.mem ≡ some copy
  pub heap : Heap
  pub free_runs : my_free os fuel (data_of c.addr) (record g { mem = copy }) ≡ some (tt, heap)
  pub shows : Shows heap.mem heap.base (xs ++ fuse_cells (marked 1 c) (ys ++ (cell b s false ∷ [])))
  pub moved :
      (j : ℕ)
      → j * 4 < c.size
      → load_int heap.mem (data_of b + j * 4) ≡ load_int g.mem (data_of c.addr + j * 4)

module _ (os : Os) (fuel : ℕ) (g : Heap) (xs ys : List Cell) (c : Cell) (b s : ℕ)
    (inv : HeapInv g (xs ++ (c ∷ (ys ++ (cell b s false ∷ [])))))
    (link : ptr g.mem c.addr ≡ data_of c.addr) (new_link : ptr g.mem b ≡ data_of b)
    (fits : c.size ≤ s) (at : c.addr % 8 ≡ 0) (new_at : b % 8 ≡ 0) (whole : c.size % 8 ≡ 0)
    (turns : c.size < fuel * 4) (enough : length (xs ++ (c ∷ ys)) + 1 < fuel)
    (total : total_size (c ∷ (ys ++ (cell b s false ∷ []))) < 18446744073709551616) where
  abbrev new : Cell
  new = cell b s false

  -- The blocks lie apart from the old one, and from the new one.
  old_apart : All (BlocksApart c) xs × All (BlocksApart c) (ys ++ (new ∷ []))
  old_apart = around BlocksApart BlocksApart-sym xs (ys ++ (new ∷ [])) c inv.apart

  new_apart : All (BlocksApart new) (xs ++ (c ∷ ys))
  new_apart =
      (around BlocksApart BlocksApart-sym (xs ++ (c ∷ ys)) [] new
        (subst (Pairwise BlocksApart) (sym (append_assoc xs (c ∷ ys) (new ∷ []))) inv.apart)).0

  apart : (c.addr + 40 + c.size ≤ b) ⊎ (b + 40 + c.size ≤ c.addr)
  apart = let k = (All-right (BlocksApart c) ys (new ∷ []) old_apart.1).0 in ground (arith, k)

  old-Seen : Seen g.mem c
  old-Seen = Shows-Seen g.mem g.base xs (ys ++ (new ∷ [])) c inv.shows

  new-Seen : Seen g.mem new
  new-Seen =
      Shows-Seen g.mem g.base (xs ++ (c ∷ ys)) [] new
        (subst (Shows g.mem g.base) (sym (append_assoc xs (c ∷ ys) (new ∷ []))) inv.shows)

  copied : Copied c.addr b c.size apart at new_at whole fuel 0 g.mem
  copied =
      copy_loop-Copied c.addr b c.size apart at new_at whole fuel 0 g.mem (omega arith)
        (omega arith)
        (record {
          src_size = old-Seen.size_eq;
          dst_size = rw new-Seen.size_eq fits;
          src_ptr = link;
          dst_ptr = new_link;
        })

  abbrev after_copy : Heap
  after_copy = record g { mem = copied.mem }

  copy-runs : copy_block fuel c.addr b g.mem ≡ some copied.mem
  copy-runs = copy_block-loop fuel c.addr b g.mem copied.mem link new_link copied.runs

  -- The copy leaves the headers alone.
  same_header : (d : Cell) → BlocksApart new d → SameHeader g.mem copied.mem d.addr
  same_header d k = (
    copied.kept d.addr (ground (arith, k)),
    copied.kept (d.addr + 8) (ground (arith, k)),
    copied.kept (d.addr + 24) (ground (arith, k)),
  )

  copied-Shows : Shows copied.mem g.base (xs ++ (c ∷ (ys ++ (new ∷ []))))
  copied-Shows =
      Shows-frame g.mem copied.mem g.base (xs ++ (c ∷ (ys ++ (new ∷ []))))
        (subst (All (λ (d : Cell). SameHeader g.mem copied.mem d.addr))
          (append_assoc xs (c ∷ ys) (new ∷ []))
          (All-append (λ (d : Cell). SameHeader g.mem copied.mem d.addr) (xs ++ (c ∷ ys)) (new ∷ [])
            (All-map (xs ++ (c ∷ ys)) same_header new_apart)
            (
              (
                copied.kept b (omega arith),
                copied.kept (b + 8) (omega arith),
                copied.kept (b + 24) (omega arith),
              ),
              tt,
            )))
        inv.shows

  copied_link : ptr copied.mem c.addr ≡ data_of c.addr
  copied_link = copied.kept (c.addr + 32) (ground (arith, apart)) ∙ link

  small : c.addr < 18446744073709551616
  small = omega (arith, (All-right _ xs (c ∷ (ys ++ (new ∷ []))) inv.in_space).0)

  heads : Pairwise HeadersApart (xs ++ (c ∷ (ys ++ (new ∷ []))))
  heads = Pairwise-HeadersApart (xs ++ (c ∷ (ys ++ (new ∷ [])))) inv.apart

  still_enough : length (xs ++ (c ∷ (ys ++ (new ∷ [])))) < fuel
  still_enough = omega (
    arith,
    length-append xs (c ∷ ys),
    length-append xs (c ∷ (ys ++ (new ∷ []))),
    length-append ys (new ∷ []),
  )

  valid : valid_addr fuel (data_of c.addr) after_copy ≡ some true
  valid =
      valid_addr-block fuel after_copy xs (ys ++ (new ∷ [])) c still_enough small heads copied-Shows
      ∙ ap some (rw copied_link (==-refl (data_of c.addr)))

  -- The old block becomes free, and swallows the free blocks behind it.
  freed : Inner os fuel after_copy c valid small xs (ys ++ (new ∷ []))
  freed =
      release_before os fuel after_copy c valid small xs ys new still_enough total heads
        copied-Shows

  -- The data of the new block are clear of every other header.
  data-Clear : (y : ℕ) → b + 32 ≤ y → y < b + 40 + c.size → All (Clear y) (c ∷ (ys ++ (new ∷ [])))
  data-Clear y lo hi =
      All-append (Clear y) (c ∷ ys) (new ∷ [])
        (All-map (c ∷ ys) (λ d k. Clear-away y new d lo (omega arith) k)
          (All-right (BlocksApart new) xs (c ∷ ys) new_apart))
        (inr lo, tt)

  -- Each `int` of the old data stands in the new block in the end.
  moved :
      (j : ℕ)
      → j * 4 < c.size
      → load_int freed.heap.mem (data_of b + j * 4) ≡ load_int g.mem (data_of c.addr + j * 4)
  moved j lt =
      load_int-frame copied.mem freed.heap.mem (data_of b + j * 4)
        (freed.frame (data_of b + j * 4)
          (data-Clear (data_of b + j * 4) (omega arith) (omega arith)))
        (freed.frame (data_of b + j * 4 - 4)
          (data-Clear (data_of b + j * 4 - 4) (omega arith) (omega arith)))
      ∙ copied.copied j (omega arith) lt

  pub copy_block-my_free : Replaced os fuel g xs ys c b s
  copy_block-my_free = record {
    copy = copied.mem;
    copy_runs = copy-runs;
    heap = freed.heap;
    free_runs = freed.runs;
    shows = rw freed.base_eq freed.shows;
    moved = moved;
  }
