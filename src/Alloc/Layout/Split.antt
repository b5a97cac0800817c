-- ===== src/Alloc/Layout/Split.antt =====
-- `split_block` and the taking of a free block, seen on the block list.
use metrics_monitor.Base.{
  ℕ, ◌+◌, ◌-◌, ◌<◌, ◌≡◌, refl, inl, inr, true, List, [], ◌∷◌, ◌++◌, arith, leb, if◌then◌else◌, All,
  Bool-cases,
}
use metrics_monitor.Memory.{Mem, store}
use metrics_monitor.Pairwise.{Pairwise, around, replace, All-map}
use metrics_monitor.Alloc.Words.{add64, sub64}
use metrics_monitor.Alloc.Block.{size, next, is_free}
use metrics_monitor.Alloc.Ops.{split_at, split_block}
use metrics_monitor.Alloc.Layout.{
  Cell, cell, Shows, Apart, BlocksApart, SameHeader, Shows-split, Shows-frame, Shows-Seen, Seen,
  BlocksApart-sym,
}

-- `split_block` on the view of one block.
unfoldable pub split_cell : ℕ → Cell → List Cell
split_cell s c =
    if leb c.size (s + 40)
    then c ∷ []
    else cell c.addr s c.is_free ∷ cell (c.addr + 40 + s) (c.size - s - 40) true ∷ []

module _ (m : Mem) (b s n : ℕ) (ap : Apart b n) where
  split_at_other : (x : ℕ) → Apart x b → Apart x n → SameHeader m (split_at b s n m) x
  unfolding split_at store
  split_at_other x h k = ground arith

  split_at-size : split_at b s n m b ≡ s
  unfolding split_at store
  split_at-size = ground arith

  split_at-next : next (split_at b s n m) b ≡ n
  unfolding split_at store
  split_at-next = ground arith

  split_at-free : split_at b s n m (b + 24) ≡ m (b + 24)
  unfolding split_at store
  split_at-free = ground arith

  split_at-new_size : split_at b s n m n ≡ sub64 (sub64 (size m b) s) 40
  unfolding split_at store
  split_at-new_size = ground arith

  split_at-new_next : next (split_at b s n m) n ≡ next m b
  unfolding split_at store
  split_at-new_next = ground arith

  split_at-new_free : is_free (split_at b s n m) n ≡ true
  unfolding split_at store
  split_at-new_free = ground arith

-- `split_block` does to the list what `split_cell` does to the block, and touches no other block:
-- `s + 40` and the size of the block are below 2^64 and the blocks do not overlap.
pub split_block-Shows :
    (m : Mem) (p s : ℕ) (xs ys : List Cell) (c : Cell)
    → s + 40 < 18446744073709551616
    → c.size < 18446744073709551616
    → Pairwise BlocksApart (xs ++ (c ∷ ys))
    → Shows m p (xs ++ (c ∷ ys))
    → Shows (split_block c.addr s m) p (xs ++ (split_cell s c ++ ys))
unfolding split_block split_cell
split_block-Shows m p s xs ys c hs hc apart sh = elim (Bool-cases (leb c.size (s + 40))) [
  | inl small ↦ rw (seen.size_eq, sum, small) sh
  | inr large ↦
      let ap : Apart c.addr (c.addr + 40 + s) = omega arith in
      let frame = λ (d : Cell) (h : BlocksApart c d).
        split_at_other m c.addr s (c.addr + 40 + s) ap d.addr (ground arith) (ground arith) in
      let m' : Mem = split_at c.addr s (c.addr + 40 + s) m in
      rw (seen.size_eq, sum, large)
        (Shows-split m m' p xs ys (cell (c.addr + 40 + s) (c.size - s - 40) true ∷ ys) c
          (cell c.addr s c.is_free) refl
          (record {
            ne_null = seen.ne_null;
            size_eq = split_at-size m c.addr s (c.addr + 40 + s) ap;
            free_eq = rw (split_at-free m c.addr s (c.addr + 40 + s) ap) seen.free_eq;
          })
          (λ q e r. (
            split_at-next m c.addr s (c.addr + 40 + s) ap,
            omega (arith, seen.ne_null),
            rw (split_at-new_size m c.addr s (c.addr + 40 + s) ap, seen.size_eq) (ground arith),
            split_at-new_free m c.addr s (c.addr + 40 + s) ap,
            rw (split_at-new_next m c.addr s (c.addr + 40 + s) ap, ← e)
                (Shows-frame m m' q ys (All-map ys frame near.1) r),
          ))
          (All-map xs frame near.0) sh)
]
  where
    seen : Seen m c
    seen = Shows-Seen m p xs ys c sh

    sum : add64 s 40 ≡ s + 40
    sum = omega arith

    near : All (BlocksApart c) xs × All (BlocksApart c) ys
    near = around BlocksApart BlocksApart-sym xs ys c apart

-- The parts of a split block lie inside it.
split_cell-within : (s : ℕ) (c d : Cell) → BlocksApart c d → All (BlocksApart d) (split_cell s c)
unfolding split_cell
split_cell-within s c d h = ground arith

split_cell-Pairwise : (s : ℕ) (c : Cell) → Pairwise BlocksApart (split_cell s c)
unfolding split_cell
split_cell-Pairwise s c = ground arith

pub split-Pairwise :
    (s : ℕ) (xs ys : List Cell) (c : Cell)
    → Pairwise BlocksApart (xs ++ (c ∷ ys))
    → Pairwise BlocksApart (xs ++ (split_cell s c ++ ys))
split-Pairwise s xs ys c =
    replace BlocksApart BlocksApart-sym xs ys (split_cell s c) c (split_cell-within s c)
      (split_cell-Pairwise s c)
