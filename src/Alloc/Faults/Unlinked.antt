-- ===== src/Alloc/Faults/Unlinked.antt =====
-- The blocks that `split_block` of lib/memory/src/memory.c makes, handed out by `my_malloc` and then
-- freed.
use metrics_monitor.Base.{
  ℕ, ◌+◌, ◌-◌, ◌≤◌, ◌<◌, ◌≡◌, ◌≢◌, ◌==◌, refl, sym, ap, ◌∙◌, true, false, some, List, [], ◌∷◌, ◌++◌,
  arith, leb, if◌then◌else◌, length, length-append,
}
use mathlib.Core.Path.{subst}
use mathlib.Core.Option.{some-injective}
use mathlib.Core.List.{append_assoc}
use metrics_monitor.Memory.{Mem, null}
use metrics_monitor.Pairwise.{Pairwise, around, All-append, All-left, All-right}
use metrics_monitor.Alloc.Words.{align}
use metrics_monitor.Alloc.Block.{ptr, data_of}
use metrics_monitor.Alloc.State.{Os, IsMmap, Heap, round_page}
use metrics_monitor.Alloc.Ops.{split_block}
use metrics_monitor.Alloc.Api.{my_malloc, my_free}
use metrics_monitor.Alloc.Layout.{Cell, cell, BlocksApart, BlocksApart-sym}
use metrics_monitor.Alloc.Layout.Split.{split_cell, split_block-Shows, split-Pairwise}
use metrics_monitor.Alloc.Layout.Take.{take_cell, Pairwise-HeadersApart}
use metrics_monitor.Alloc.Choice.{IsPolicy, Choice}
use metrics_monitor.Alloc.Invariant.{Inv, HeapInv, Covered, Covered-part, InSpace}
use metrics_monitor.Alloc.Malloc.{reused, extended, refused}
use metrics_monitor.Alloc.Malloc.Run.{Malloced, my_malloc-Malloced}
use metrics_monitor.Alloc.Session.Held.{Taken, Taken-take_cell}
use metrics_monitor.Alloc.Faults.{my_free-unlinked, split_block-ptr}

-- `split_block` of a block with room for a header behind `s` bytes keeps the invariant.
split-Inv :
    (m : Mem) (p s : ℕ) (maps : List _) (xs ys : List Cell) (c : Cell)
    → s + 40 < c.size
    → Inv m p maps (xs ++ (c ∷ ys))
    → Inv
        (split_block c.addr s m)
        p
        maps
        (xs ++ (cell c.addr s c.is_free ∷ cell (c.addr + 40 + s) (c.size - s - 40) true ∷ ys))
unfolding split_cell
split-Inv m p s maps xs ys c room inv =
    let e : leb c.size (s + 40) ≡ false = ground arith in
    let a : Cell = cell c.addr s c.is_free in
    let n : Cell = cell (c.addr + 40 + s) (c.size - s - 40) true in
    let space = All-right InSpace xs (c ∷ ys) inv.in_space in
    let cover = All-right (Covered maps) xs (c ∷ ys) inv.covered in
    record {
      shows = rw e at (
          split_block-Shows m p s xs ys c (omega (arith, space.0)) (omega (arith, space.0))
            inv.apart inv.shows);
      apart = rw e at (split-Pairwise s xs ys c inv.apart);
      covered = All-append (Covered maps) xs (a ∷ n ∷ ys) (All-left _ xs (c ∷ ys) inv.covered) (
        Covered-part maps c a (omega arith) (omega arith) cover.0,
        (Covered-part maps c n (omega arith) (omega arith) cover.0, cover.1),
      );
      in_space =
          All-append InSpace xs (a ∷ n ∷ ys) (All-left _ xs (c ∷ ys) inv.in_space)
            (omega (arith, space.0), (omega (arith, space.0), space.1));
    }

-- The block at `b` is the one that `my_malloc` chose among those of the list.
pub record Reused (os : Os) (fuel k : ℕ) (h : Heap) (cs : List Cell) (r : Malloced os fuel k h cs)
    (b : ℕ) : Type 0 where
  pub choice : Choice h.method (align k) cs r.block
  pub cells_eq : r.cells ≡ choice.front ++ (take_cell (align k) choice.chosen ++ choice.back)
  pub at : r.block ≡ b

-- A block of the list that `my_malloc` gives is not a new one.
pub handed_out-Reused :
    (os : Os) (fuel k : ℕ) (h : Heap) (cs xs ys : List Cell) (n : Cell)
    (r : Malloced os fuel k h cs)
    → cs ≡ xs ++ (n ∷ ys)
    → r.block ≡ n.addr
    → n.addr ≢ null
    → Reused os fuel k h cs r n.addr
handed_out-Reused os fuel k h cs xs ys n r there at ne = elim r.placement [
  | reused ch splits ok ↦ record { choice = ch; cells_eq = splits; at = at }
  | extended none_fit ok cells' linked ↦
      let new : Cell = cell r.block (align k) false in
      let apart : Pairwise BlocksApart ((xs ++ (n ∷ ys)) ++ (new ∷ [])) =
        subst (Pairwise BlocksApart) (cells' ∙ ap (λ (z : List Cell). z ++ (new ∷ [])) there)
          r.inv.apart in
      let near = around BlocksApart BlocksApart-sym (xs ++ (n ∷ ys)) [] new apart in
      absurd (ground (arith, at, (All-right _ xs (n ∷ ys) near.0).0))
  | refused none_fit is_null cells ↦ absurd (ne (sym at ∙ is_null))
]

-- When `my_malloc` hands out a block that stands in the list already, `n` with a wrong field `ptr`,
-- `my_free` of what it returned does nothing.
module _ (os : Os) (fuel k : ℕ) (h : Heap) (xs ys : List Cell) (n : Cell)
    (r : Malloced os fuel k h (xs ++ (n ∷ ys))) (wrong : ptr h.mem n.addr ≢ data_of n.addr)
    (enough : length (xs ++ (n ∷ ys)) + 1 < fuel) (small : n.addr < 18446744073709551616)
    (at : r.block ≡ n.addr) (ne : n.addr ≢ null) where
  still_wrong : ptr r.heap.mem n.addr ≢ data_of n.addr
  still_wrong q = wrong (sym (All-right _ xs (n ∷ ys) r.links).0.1 ∙ q)

  pub my_free-handed_out : my_free os fuel (data_of n.addr) r.heap ≡ some (tt, r.heap)
  my_free-handed_out =
      let u = handed_out-Reused os fuel k h (xs ++ (n ∷ ys)) xs ys n r refl at ne in
      let ch = u.choice in
      let t : Taken (align k) ch.chosen =
        Taken-take_cell (align k) ch.chosen (ground (arith, ch.suited)) in
      let here : t.head.addr ≡ n.addr = t.at ∙ sym ch.address ∙ at in
      let cells : r.cells ≡ ch.front ++ (t.head ∷ (t.surplus ++ ch.back)) =
        u.cells_eq ∙ ap (λ (z : List Cell). ch.front ++ (z ++ ch.back)) t.splits in
      let inv : HeapInv r.heap (ch.front ++ (t.head ∷ (t.surplus ++ ch.back))) =
        subst (HeapInv r.heap) cells r.inv in
      subst (λ a. my_free os fuel (data_of a) r.heap ≡ some (tt, r.heap)) here
        (my_free-unlinked os fuel r.heap ch.front (t.surplus ++ ch.back) t.head
          (omega (
            arith,
            enough,
            t.few,
            ap (λ (z : List Cell). length z) ch.splits,
            length-append ch.front (ch.chosen ∷ ch.back),
            length-append ch.front (t.head ∷ (t.surplus ++ ch.back)),
            length-append t.surplus ch.back,
          ))
          (omega (arith, here, small))
          (subst (λ a. ptr r.heap.mem a ≢ data_of a) (sym here) still_wrong)
          (Pairwise-HeadersApart _ inv.apart) inv.shows)

-- The header that `split_block` makes in a block `c` lies at `c.addr + 40 + s`. Unless the memory
-- happens to hold the right address in its field `ptr` before, which a fresh region does not, the
-- block cannot be given back: when `my_malloc` hands it out, `my_free` of the address that
-- `my_malloc` returned for it changes nothing. The fuel exceeds the length of the list by three or
-- more, and the request, the policy, the heap and the system are as for `my_malloc`.
pub my_free-split_block :
    (os : Os) (fuel s k : ℕ) (h h2 : Heap) (xs ys : List Cell) (c : Cell)
    → IsMmap os
    → IsPolicy h.method
    → length (xs ++ (c ∷ ys)) + 2 < fuel
    → 0 < k
    → k + 8 ≤ 18446744073709551616
    → align k + 40 ≤ round_page (align k)
    → s + 40 < c.size
    → HeapInv h (xs ++ (c ∷ ys))
    → ptr h.mem (c.addr + 40 + s) ≢ data_of (c.addr + 40 + s)
    → my_malloc os fuel k (record h { mem = split_block c.addr s h.mem })
      ≡ some (data_of (c.addr + 40 + s), h2)
    → my_free os fuel (data_of (c.addr + 40 + s)) h2 ≡ some (tt, h2)
my_free-split_block os fuel s k h h2 xs ys c works pol enough pos bound page room inv wrong got =
    let a : Cell = cell c.addr s c.is_free in
    let n : Cell = cell (c.addr + 40 + s) (c.size - s - 40) true in
    let h' : Heap = record h { mem = split_block c.addr s h.mem } in
    let inv' : HeapInv h' ((xs ++ (a ∷ [])) ++ (n ∷ ys)) =
      rw append_assoc (split-Inv h.mem h.base s h.maps xs ys c room inv) in
    let longer : length ((xs ++ (a ∷ [])) ++ (n ∷ ys)) ≡ length (xs ++ (c ∷ ys)) + 1 = omega (
      arith,
      length-append xs (c ∷ ys),
      length-append xs (a ∷ []),
      length-append (xs ++ (a ∷ [])) (n ∷ ys),
    ) in
    let r : Malloced os fuel k h' ((xs ++ (a ∷ [])) ++ (n ∷ ys)) =
      my_malloc-Malloced os fuel k h' ((xs ++ (a ∷ [])) ++ (n ∷ ys)) works pol
        (omega (arith, longer)) pos bound page inv' in
    let same : (if r.block == null then null else data_of r.block, r.heap)
        ≡ (data_of (c.addr + 40 + s), h2) =
      some-injective _ _ (sym r.runs ∙ got) in
    let at : r.block ≡ n.addr = ground (arith, ap (λ (z : ℕ × Heap). z.0) same) in
    let space = (All-right InSpace xs (c ∷ ys) inv.in_space).0 in
    subst (λ (g : Heap). my_free os fuel (data_of n.addr) g ≡ some (tt, g))
      (ap (λ (z : ℕ × Heap). z.1) same)
      (my_free-handed_out os fuel k h' (xs ++ (a ∷ [])) ys n r
        (λ q. wrong (sym (split_block-ptr h.mem c.addr s) ∙ q)) (omega (arith, longer))
        (omega (arith, space)) at (omega arith))
