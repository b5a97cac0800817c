-- ===== src/Alloc/Session/Safe.antt =====
-- The allocations that are alive behind a sequence of calls of the functions of
-- lib/memory/src/memory.c.
use metrics_monitor.Base.{
  ℕ, suc, ◌≤◌, ◌<◌, ◌≡◌, ◌≢◌, ◌⊎◌, refl, sym, ap, ◌∙◌, inl, inr, true, false, some, List, [], ◌∷◌,
  ◌++◌, arith, ◌==◌, ==-false, if◌then◌else◌, length, length-append,
}
use mathlib.Core.Path.{subst}
use metrics_monitor.Memory.{null}
use metrics_monitor.Pairwise.{Pairwise, All-map}
use metrics_monitor.Alloc.Words.{align}
use metrics_monitor.Alloc.Words.Bounds.{align_bounds}
use metrics_monitor.Alloc.Block.{data_of}
use metrics_monitor.Alloc.State.{Os, IsMmap, Heap, set_method}
use metrics_monitor.Alloc.Api.{my_malloc}
use metrics_monitor.Alloc.Layout.{cell}
use metrics_monitor.Alloc.Layout.Take.{take_cell}
use metrics_monitor.Alloc.Choice.{IsPolicy, Choice}
use metrics_monitor.Alloc.Invariant.{HeapInv}
use metrics_monitor.Alloc.Malloc.{reused, extended, refused}
use metrics_monitor.Alloc.Malloc.Run.{Malloced, my_malloc-Malloced}
use metrics_monitor.Alloc.Session.{
  Live, live, LiveApart, Proper, Reach, start, given, released, resized, grown, written, choose,
  Written, HeldIn,
}
use metrics_monitor.Alloc.Malloc.Data.{InUsed}
use metrics_monitor.Alloc.Session.Freed.{released-Held}
use metrics_monitor.Alloc.Session.Owner.{Without-All}
use metrics_monitor.Alloc.Session.Resized.{resized-Held}
use metrics_monitor.Alloc.Session.Grown.{grown-Held}
use metrics_monitor.Alloc.Session.Held.{
  HeldIn-InUsed, store-HeapInv, Held, HeldIn-beside, HeldIn-right, joined, Taken, Taken-take_cell,
}

module _ (os : Os) (works : IsMmap os) (fuel k n : ℕ) (h : Heap) (ls : List Live) (small : k < fuel)
    (proper : Proper n) (H : Held k h ls) where
  pub call : Malloced os fuel n h H.cells
  call =
      my_malloc-Malloced os fuel n h H.cells works H.policy (omega (arith, H.count)) proper.0
        proper.1 proper.2 H.inv

  IsPolicy-kept : IsPolicy call.heap.method
  IsPolicy-kept = subst IsPolicy (sym call.method_eq) H.policy

  after_reused :
      (p : ℕ) (ch : Choice h.method (align n) H.cells call.block)
      → call.cells ≡ ch.front ++ (take_cell (align n) ch.chosen ++ ch.back)
      → data_of call.block ≡ p
      → Held (suc k) call.heap (live p n ∷ ls)
  after_reused p ch cells_eq at =
      let fit : align n ≤ ch.chosen.size = ground (arith, ch.suited) in
      let free : ch.chosen.is_free ≡ true = ground (arith, ch.suited) in
      let t = Taken-take_cell (align n) ch.chosen fit in
      let inv : HeapInv call.heap (ch.front ++ (t.head ∷ (t.surplus ++ ch.back))) =
        rw (cells_eq, t.splits) at call.inv in
      let old : length H.cells ≡ length (ch.front ++ (ch.chosen ∷ ch.back)) = ap length ch.splits in
      joined (suc k) n p call.heap ls ch.front (t.surplus ++ ch.back) t.head
        (omega (
          arith,
          H.count,
          old,
          t.few,
          length-append ch.front (ch.chosen ∷ ch.back),
          length-append ch.front (t.head ∷ (t.surplus ++ ch.back)),
          length-append t.surplus ch.back,
        ))
        inv IsPolicy-kept
        (
          ap data_of (t.at ∙ sym ch.address) ∙ at,
          t.used,
          omega (arith, t.fit, (align_bounds n proper.0 proper.1).1),
        )
        (All-map ls (beside t free) H.held) proper.0 H.some_size H.live_apart
    where
      beside :
          (t : Taken (align n) ch.chosen)
          → ch.chosen.is_free ≡ true
          → (l : Live) → HeldIn H.cells l
          → HeldIn ch.front l ⊎ HeldIn (t.surplus ++ ch.back) l
      beside t free l held =
          elim (HeldIn-beside ch.front ch.back ch.chosen l (λ hd. absurd (let used = hd.1 in cc))
            (subst (λ cs. HeldIn cs l) ch.splits held)) [
              | inl left ↦ inl left
              | inr right ↦ inr (HeldIn-right t.surplus ch.back l right)
            ]

  after_extended :
      (p : ℕ)
      → call.cells ≡ H.cells ++ (cell call.block (align n) false ∷ [])
      → data_of call.block ≡ p
      → Held (suc k) call.heap (live p n ∷ ls)
  after_extended p cells_eq at =
      joined (suc k) n p call.heap ls H.cells [] (cell call.block (align n) false)
        (omega (arith, H.count, length-append H.cells (cell call.block (align n) false ∷ [])))
        (rw cells_eq at call.inv) IsPolicy-kept (at, refl, (align_bounds n proper.0 proper.1).1)
        (All-map ls (λ l held. inl held) H.held) proper.0 H.some_size H.live_apart

  module _ (h' : Heap) (p : ℕ) (runs : my_malloc os fuel n h ≡ some (p, h')) where
    pub same_heap : call.heap ≡ h'
    same_heap = let same = sym call.runs ∙ runs in cc

    same_address : (if call.block == null then null else data_of call.block) ≡ p
    same_address = let same = sym call.runs ∙ runs in cc

    pub given-Held : p ≢ null → Held (suc k) h' (live p n ∷ ls)
    given-Held got = elim call.placement [
      | reused ch cells_eq ne ↦
          subst (λ g. Held (suc k) g (live p n ∷ ls)) same_heap
            (after_reused p ch cells_eq (rw (==-false call.block 0 ne) at same_address))
      | extended no_one ne cells_eq linked ↦
          subst (λ g. Held (suc k) g (live p n ∷ ls)) same_heap
            (after_extended p cells_eq (rw (==-false call.block 0 ne) at same_address))
      | refused no_one z cells_eq ↦ absurd (got (sym same_address ∙ rw z refl))
    ]

    refused-Held : p ≡ null → Held (suc k) h' ls
    refused-Held nothing = elim call.placement [
      | reused ch cells_eq ne ↦
          absurd (omega (arith, nothing, rw (==-false call.block 0 ne) at same_address))
      | extended no_one ne cells_eq linked ↦
          absurd (omega (arith, nothing, rw (==-false call.block 0 ne) at same_address))
      | refused no_one z cells_eq ↦
          subst (λ g. Held (suc k) g ls) same_heap
            (record {
              cells = H.cells;
              count = omega (arith, H.count);
              inv = rw cells_eq at call.inv;
              policy = IsPolicy-kept;
              held = H.held;
              some_size = H.some_size;
              live_apart = H.live_apart;
            })
    ]

pub Reach-Held :
    (os : Os) (fuel : ℕ) (h0 : Heap)
    → IsMmap os
    → IsPolicy h0.method
    → h0.base ≡ null
    → (k : ℕ) (h : Heap) (ls : List Live) (w : Written) → k < fuel
    → Reach os fuel h0 k h ls w
    → Held k h ls
unfolding set_method
Reach-Held os fuel h0 works policy empty _ _ _ _ small start = record {
  cells = [];
  count = omega arith;
  inv = record { shows = empty; apart = tt; covered = tt; in_space = tt };
  policy = policy;
  held = tt;
  some_size = tt;
  live_apart = tt;
}
Reach-Held os fuel h0 works policy empty _ _ _ _ small
      (given {k} {h} {h'} {ls} {w} n p r proper runs got) =
    let H = Reach-Held os fuel h0 works policy empty k h ls w (omega arith) r in
    given-Held os works fuel k n h ls (omega arith) proper H h' p runs got
Reach-Held os fuel h0 works policy empty _ _ _ _ small
      (Reach.refused {k} {h} {h'} {ls} {w} n r proper runs) =
    let H = Reach-Held os fuel h0 works policy empty k h ls w (omega arith) r in
    refused-Held os works fuel k n h ls (omega arith) proper H h' null runs refl
Reach-Held os fuel h0 works policy empty _ _ _ _ small
      (released {k} {h} {h'} {ls} {ms} {w} l xs ys c r without shows at ok runs) =
    let H = Reach-Held os fuel h0 works policy empty k h ls w small r in
    released-Held os fuel k h h' ls ms l xs ys c small H without shows at runs ok
Reach-Held os fuel h0 works policy empty _ _ _ _ small
      (resized {k} {h} {h'} {ls} {ms} {w} l n xs ys c r without ok shows at link fit runs) =
    let H = Reach-Held os fuel h0 works policy empty k h ls w (omega arith) r in
    resized-Held os fuel k n h h' ls ms l xs ys c (omega arith) H without ok.0 ok.1 shows at link
      fit runs
Reach-Held os fuel h0 works policy empty _ _ _ _ small
      (grown {k} {h} {h'} {ls} {ms} {w} l n s xs ys zs c r without ok shows at link short grows side
        total head fit runs) =
    let H = Reach-Held os fuel h0 works policy empty k h ls w (omega arith) r in
    grown-Held os fuel k n s h h' ls ms l xs ys zs c (omega arith) H without ok.0 ok.1 shows at link
      short grows side total head fit runs
Reach-Held os fuel h0 works policy empty _ _ _ _ small
      (written {k} {h} {ls} {ms} {w} l a v r without inside) =
    let H = Reach-Held os fuel h0 works policy empty k h ls w small r in
    let u : InUsed H.cells a =
      HeldIn-InUsed H.cells l a (Without-All (HeldIn H.cells) without H.held).0 inside in
    record {
      cells = H.cells;
      count = H.count;
      inv = store-HeapInv h H.cells a v u H.inv;
      policy = H.policy;
      held = H.held;
      some_size = H.some_size;
      live_apart = H.live_apart;
    }
Reach-Held os fuel h0 works policy empty _ _ _ _ small (choose {k} {h} {ls} {w} method r ok) =
    let H = Reach-Held os fuel h0 works policy empty k h ls w small r in
    record {
      cells = H.cells;
      count = H.count;
      inv = H.inv;
      policy = ok;
      held = H.held;
      some_size = H.some_size;
      live_apart = H.live_apart;
    }

-- With an `mmap` as documented, from an empty heap on, under one of the three policies, behind any
-- sequence of steps of which fewer than the fuel are calls of `my_malloc` or `my_realloc`: no two
-- allocations share a byte, and a further call of `my_malloc`, with a request that does not
-- overflow, ends too. The steps are such calls of `my_malloc`, calls of `my_realloc` that stay in
-- place since the block is large enough, at once or with the free blocks that it swallows, calls of
-- `set_method` with one of the policies, writes of the caller to whole words of its allocations,
-- and calls of `my_free` of an allocation whose block has a wrong field `ptr`, or right links. The
-- free blocks that a step swallows stand side by side behind the block, and the sizes from it on
-- sum to less than 2^64.
pub Reach-LiveApart :
    (os : Os) (fuel k n : ℕ) (h0 h : Heap) (ls : List Live) (w : Written)
    → IsMmap os
    → IsPolicy h0.method
    → h0.base ≡ null
    → k < fuel
    → Proper n
    → Reach os fuel h0 k h ls w
    → Pairwise LiveApart ls × ((r : ℕ × Heap) × (my_malloc os fuel n h ≡ some r))
Reach-LiveApart os fuel k n h0 h ls w works policy empty small proper r =
    let H = Reach-Held os fuel h0 works policy empty k h ls w (omega arith) r in
    let c = call os works fuel k n h ls small proper H in
    (H.live_apart, ((if c.block == null then null else data_of c.block, c.heap), c.runs))
