-- ===== src/Alloc/Layout/Take.antt =====
-- The taking of a free block by `my_malloc`, seen on the block list.
use metrics_monitor.Base.{
  ℕ, ◌+◌, ◌-◌, ◌≤◌, ◌<◌, ◌≡◌, inl, inr, true, false, List, [], ◌∷◌, ◌++◌, arith, leb, if◌then◌else◌,
  Bool-cases, All,
}
use metrics_monitor.Memory.{Mem}
use metrics_monitor.Pairwise.{Pairwise, replace, All-map}
use metrics_monitor.Alloc.Words.Bounds.{sub64-eq}
use metrics_monitor.Alloc.Ops.{split_block, trim_block, take_block}
use metrics_monitor.Alloc.Layout.{
  Cell, cell, Shows, Seen, BlocksApart, HeadersApart, BlocksApart-HeadersApart, BlocksApart-sym,
  Shows-Seen,
}
use metrics_monitor.Alloc.Layout.Split.{split_cell, split_block-Shows, split-Pairwise}
use metrics_monitor.Alloc.Layout.Mark.{set_free-Shows}

-- A block taken for `s` bytes: its surplus becomes a free block if it has room for a header and
-- four bytes.
unfoldable pub take_cell : ℕ → Cell → List Cell
take_cell s c =
    if leb 44 (c.size - s)
    then cell c.addr s false ∷ cell (c.addr + 40 + s) (c.size - s - 40) true ∷ []
    else cell c.addr c.size false ∷ []

pub Pairwise-HeadersApart : (cs : List Cell) → Pairwise BlocksApart cs → Pairwise HeadersApart cs
Pairwise-HeadersApart [] p = tt
Pairwise-HeadersApart (c ∷ cs) p =
    (All-map cs (BlocksApart-HeadersApart c) p.0, Pairwise-HeadersApart cs p.1)

take_cell-Pairwise : (s : ℕ) (c : Cell) → s ≤ c.size → Pairwise BlocksApart (take_cell s c)
unfolding take_cell
take_cell-Pairwise s c h = ground arith

take_cell-within :
    (s : ℕ) (c d : Cell) → s ≤ c.size → BlocksApart c d → All (BlocksApart d) (take_cell s c)
unfolding take_cell
take_cell-within s c d k h = ground arith

module _ (s : ℕ) (xs ys : List Cell) (c : Cell) (fit : s ≤ c.size)
    (apart : Pairwise BlocksApart (xs ++ (c ∷ ys))) where
  pub take-Pairwise : Pairwise BlocksApart (xs ++ (take_cell s c ++ ys))
  take-Pairwise =
      replace BlocksApart BlocksApart-sym xs ys (take_cell s c) c (λ d. take_cell-within s c d fit)
        (take_cell-Pairwise s c fit) apart

  -- Taking a block that fits marks it used and makes its surplus a free block behind it; nothing
  -- else of the list changes.
  pub take_block-Shows :
      (m : Mem) (p : ℕ)
      → s + 40 < 18446744073709551616
      → c.size < 18446744073709551616
      → Shows m p (xs ++ (c ∷ ys))
      → Shows (take_block c.addr s m) p (xs ++ (take_cell s c ++ ys))
  unfolding take_block trim_block take_cell split_cell
  take_block-Shows m p hs hc sh = elim (Bool-cases (leb 44 (c.size - s))) [
    | inl large ↦
        let split : Shows (split_block c.addr s m) p
            (xs ++ (cell c.addr s c.is_free ∷ cell (c.addr + 40 + s) (c.size - s - 40) true ∷ ys)) =
          let e : leb c.size (s + 40) ≡ false = ground arith in
          rw e at (split_block-Shows m p s xs ys c hs hc apart sh) in
        let parts : Pairwise BlocksApart
            (xs ++ (cell c.addr s c.is_free ∷ cell (c.addr + 40 + s) (c.size - s - 40) true ∷ ys)) =
          let e : leb c.size (s + 40) ≡ false = ground arith in
          rw e at (split-Pairwise s xs ys c apart) in
        rw (seen.size_eq, sub64-eq c.size s fit hc, large)
          (set_free-Shows (split_block c.addr s m) p 0 xs _ (cell c.addr s c.is_free) (omega arith)
            (Pairwise-HeadersApart _ parts) split)
    | inr small ↦
        rw (seen.size_eq, sub64-eq c.size s fit hc, small)
          (set_free-Shows m p 0 xs ys c (omega arith) (Pairwise-HeadersApart _ apart) sh)
  ]
    where
      seen : Seen m c
      seen = Shows-Seen m p xs ys c sh
