-- ===== src/Alloc/Free/Keep.antt =====
-- `my_free` of lib/memory/src/memory.c and the invariant of the block list.
use metrics_monitor.Base.{
  ℕ, ◌+◌, ◌≤◌, ◌<◌, ◌≡◌, refl, inl, inr, List, [], ◌∷◌, ◌++◌, arith, if◌then◌else◌, leb, Bool-cases,
  All, length, length-append,
}
use mathlib.Core.Path.{subst}
use metrics_monitor.Pairwise.{
  Pairwise, All-replace, All-merge, Pairwise-replace, Pairwise-merge, All-left, All-right,
}
use metrics_monitor.Alloc.State.{Os, Heap, Mapping}
use metrics_monitor.Alloc.Layout.{Cell, BlocksApart, BlocksApart-sym}
use metrics_monitor.Alloc.Layout.Mark.{marked}
use metrics_monitor.Alloc.Layout.Take.{Pairwise-HeadersApart}
use metrics_monitor.Alloc.Layout.Fuse.{fuse_cells, total_size}
use metrics_monitor.Alloc.Invariant.{HeapInv, Covered, InSpace}
use metrics_monitor.Alloc.Release.{Linked}
use metrics_monitor.Alloc.Free.{free_cells, Freed, my_free-Freed}

-- The free blocks that `fusion` swallows stand side by side in memory, the first at `a`.
abbrev pub SideBySide : ℕ → List Cell → Type 0
SideBySide a [] = Unit {0}
SideBySide a (d ∷ []) = Unit {0}
SideBySide a (d ∷ e ∷ r) =
    if d.is_free then (d.addr ≡ a) × SideBySide (d.addr + 40 + d.size) (e ∷ r) else Unit {0}

-- Two blocks side by side, with the header between them.
abbrev merged : Cell → Cell → Cell
merged c d = record c { size = c.size + 40 + d.size }

merged-BlocksApart :
    (c d z : Cell)
    → d.addr ≡ c.addr + 40 + c.size
    → BlocksApart c z
    → BlocksApart d z
    → BlocksApart (merged c d) z
merged-BlocksApart c d z e a b = ground (arith, a, b)

-- The part of the invariant that is about the list alone.
pub record Room (maps : List Mapping) (cs : List Cell) : Type 0 where
  pub apart : Pairwise BlocksApart cs
  pub covered : All (Covered maps) cs
  pub in_space : All InSpace cs

merged-Covered :
    (maps : List Mapping) (c d : Cell)
    → d.addr ≡ c.addr + 40 + c.size
    → Covered maps c
    → Covered maps d
    → Covered maps (merged c d)
merged-Covered maps c d e a b = λ x lo hi. elim (Bool-cases (leb d.addr x)) [
  | inl behind ↦ b x (ground arith) (omega arith)
  | inr before ↦ a x lo (ground arith)
]

-- The room of two blocks side by side.
merged-Room :
    (maps : List Mapping) (xs ys : List Cell) (c d : Cell)
    → d.addr ≡ c.addr + 40 + c.size
    → Room maps (xs ++ (c ∷ d ∷ ys))
    → Room maps (xs ++ (merged c d ∷ ys))
merged-Room maps xs ys c d e r = record {
  apart =
      Pairwise-merge BlocksApart xs ys c d (merged c d) (λ z a b. merged-BlocksApart c d z e a b)
        (λ z a b.
          BlocksApart-sym (merged c d) z
            (merged-BlocksApart c d z e (BlocksApart-sym z c a) (BlocksApart-sym z d b)))
        r.apart;
  covered = All-merge (Covered maps) xs ys c d (merged c d) (merged-Covered maps c d e) r.covered;
  in_space = All-merge InSpace xs ys c d (merged c d) (λ a b. omega (arith, a, b)) r.in_space;
}

shrink-Room :
    (maps : List Mapping) (xs ys : List Cell) (c w : Cell)
    → c.addr ≡ w.addr
    → c.size ≤ w.size
    → Room maps (xs ++ (w ∷ ys))
    → Room maps (xs ++ (c ∷ ys))
shrink-Room maps xs ys c w at le r = record {
  apart =
      Pairwise-replace BlocksApart xs ys c w (λ z a. ground (arith, a)) (λ z a. ground (arith, a))
        r.apart;
  covered =
      All-replace (Covered maps) xs ys c w (λ a x lo hi. a x (omega arith) (omega arith)) r.covered;
  in_space = All-replace InSpace xs ys c w (λ a. omega (arith, a)) r.in_space;
}

-- Fusing blocks that stand side by side keeps to their room. What the list has at `c` may be
-- smaller than the room `w` at that place, since swallowed headers are not counted.
pub fuse_cells-Room :
    (maps : List Mapping) (xs ys : List Cell) (c w : Cell)
    → c.addr ≡ w.addr
    → c.size ≤ w.size
    → SideBySide (w.addr + 40 + w.size) ys
    → Room maps (xs ++ (w ∷ ys))
    → Room maps (xs ++ fuse_cells c ys)
unfolding fuse_cells
fuse_cells-Room maps xs [] c w at le side r = shrink-Room maps xs [] c w at le r
fuse_cells-Room maps xs (d ∷ []) c w at le side r = shrink-Room maps xs (d ∷ []) c w at le r
fuse_cells-Room maps xs (d ∷ e ∷ rest) c w at le side r = elim (Bool-cases d.is_free) [
  | inl free ↦
      let next_to = rw free at side in
      rw free (
        fuse_cells-Room maps xs (e ∷ rest) (record c { size = c.size + d.size }) (merged w d) at
          (omega arith) (subst (λ a. SideBySide a (e ∷ rest)) (omega (arith, next_to.0)) next_to.1)
          (merged-Room maps xs (e ∷ rest) w d next_to.0 r))
  | inr used ↦ simp used (shrink-Room maps xs (d ∷ e ∷ rest) c w at le r)
]

-- The blocks of a list before a place.
front-Room : (maps : List Mapping) (xs ys : List Cell) → Room maps (xs ++ ys) → Room maps xs
front-Room maps [] ys r = record { apart = tt; covered = tt; in_space = tt }
front-Room maps (x ∷ xs) ys r =
    let rest =
      front-Room maps xs ys
        (record { apart = r.apart.1; covered = r.covered.1; in_space = r.in_space.1 }) in
    record {
      apart = (All-left _ xs ys r.apart.0, rest.apart);
      covered = (r.covered.0, rest.covered);
      in_space = (r.in_space.0, rest.in_space);
    }

free_cells-Room :
    (maps : List Mapping) (xs ys : List Cell) (c : Cell)
    → SideBySide (c.addr + 40 + c.size) ys
    → Room maps (xs ++ (c ∷ ys))
    → Room maps (free_cells xs c ys)
unfolding free_cells
free_cells-Room maps xs [] c side r = front-Room maps xs (c ∷ []) r
free_cells-Room maps xs (d ∷ ys) c side r =
    fuse_cells-Room maps xs (d ∷ ys) (marked 1 c) c refl (omega arith) side r

-- `my_free` of a block whose links are right keeps the invariant, when the free blocks behind it
-- that `fusion` swallows stand side by side behind it in memory. The fuel exceeds the length of the
-- list and the sizes sum to less than 2^64.
pub my_free-Inv :
    (os : Os) (fuel : ℕ) (h : Heap) (xs : List Cell) (c : Cell) (ys : List Cell)
    → length (xs ++ (c ∷ ys)) < fuel
    → total_size (c ∷ ys) < 18446744073709551616
    → Linked h.mem xs c
    → SideBySide (c.addr + 40 + c.size) ys
    → HeapInv h (xs ++ (c ∷ ys))
    → (f : Freed os fuel h xs c ys) × HeapInv f.heap (free_cells xs c ys)
my_free-Inv os fuel h xs c ys enough total linked side inv =
    let space : InSpace c = (All-right InSpace xs (c ∷ ys) inv.in_space).0 in
    let f =
      my_free-Freed os fuel h xs c ys enough (omega (arith, space)) total linked
        (Pairwise-HeadersApart (xs ++ (c ∷ ys)) inv.apart) inv.shows in
    let r =
      free_cells-Room h.maps xs ys c side
        (record { apart = inv.apart; covered = inv.covered; in_space = inv.in_space }) in
    (
      f,
      record {
        shows = f.shows;
        apart = r.apart;
        covered = rw f.maps_eq r.covered;
        in_space = r.in_space;
      },
    )

pub length-fuse_cells : (c : Cell) (ys : List Cell) → length (fuse_cells c ys) ≤ 1 + length ys
unfolding fuse_cells
length-fuse_cells c [] = omega arith
length-fuse_cells c (d ∷ []) = omega arith
length-fuse_cells c (d ∷ e ∷ r) =
    let rest = length-fuse_cells (record c { size = c.size + d.size }) (e ∷ r) in ground arith

pub length-free_cells :
    (xs ys : List Cell) (c : Cell) → length (free_cells xs c ys) ≤ length (xs ++ (c ∷ ys))
unfolding free_cells
length-free_cells xs [] c = omega (arith, length-append xs (c ∷ []))
length-free_cells xs (d ∷ ys) c = omega (
  arith,
  length-append xs (c ∷ d ∷ ys),
  length-append xs (fuse_cells (marked 1 c) (d ∷ ys)),
  length-fuse_cells (marked 1 c) (d ∷ ys),
)
