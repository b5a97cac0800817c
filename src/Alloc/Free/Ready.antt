-- ===== src/Alloc/Free/Ready.antt =====
-- What a call of `my_free` of lib/memory/src/memory.c needs of the block list, for the next call too.
use metrics_monitor.Base.{
  ℕ, ◌+◌, ◌≤◌, ◌<◌, ◌≡◌, inl, inr, List, [], ◌∷◌, ◌++◌, map, arith, Bool-cases, length, All,
}
use metrics_monitor.Memory.{Mem, null}
use metrics_monitor.Pairwise.{Pairwise, All-append, All-left, All-right}
use metrics_monitor.Alloc.State.{Os, Heap}
use metrics_monitor.Alloc.Chain.{last_of}
use metrics_monitor.Alloc.Places.{addr_of}
use metrics_monitor.Alloc.Layout.{Cell, Shows, HeadersApart}
use metrics_monitor.Alloc.Layout.Mark.{marked}
use metrics_monitor.Alloc.Layout.Links.{Links}
use metrics_monitor.Alloc.Layout.Fuse.{fuse_cells, total_size, total_size-fuse_cells}
use metrics_monitor.Alloc.Release.{Linked}
use metrics_monitor.Alloc.Free.{free_cells, Freed, my_free-Freed}
use metrics_monitor.Alloc.Free.Keep.{length-free_cells}

-- What a call of `my_free` needs of the list and keeps.
pub record Ready (fuel : ℕ) (h : Heap) (cs : List Cell) : Type 0 where
  pub shows : Shows h.mem h.base cs
  pub apart : Pairwise HeadersApart cs
  pub links : Links h.mem null cs
  pub in_space : All (λ (c : Cell). c.addr < 18446744073709551616) cs
  pub total : total_size cs < 18446744073709551616
  pub enough : length cs < fuel

Links-at :
    (m : Mem) (q : ℕ) (xs ys : List Cell) (c : Cell)
    → Links m q (xs ++ (c ∷ ys))
    → Links m (last_of q (map addr_of xs)) (c ∷ ys)
Links-at m q [] ys c l = l
Links-at m q (x ∷ xs) ys c (p, v, l) = Links-at m x.addr xs ys c l

Links-Linked :
    (m : Mem) (xs ys : List Cell) (c : Cell) → Links m null (xs ++ (c ∷ ys)) → Linked m xs c
Links-Linked m xs ys c l =
    let here = Links-at m null xs ys c l in record { data_link = here.0; back_link = here.1 }

total_size-append : (xs ys : List Cell) → total_size (xs ++ ys) ≡ total_size xs + total_size ys
unfolding total_size
total_size-append [] ys = omega arith
total_size-append (x ∷ xs) ys = omega (arith, total_size-append xs ys)

total_size-free_cells :
    (xs ys : List Cell) (c : Cell) → total_size (free_cells xs c ys) ≤ total_size (xs ++ (c ∷ ys))
unfolding free_cells total_size
total_size-free_cells xs [] c = omega (arith, total_size-append xs (c ∷ []))
total_size-free_cells xs (d ∷ ys) c = omega (
  arith,
  total_size-append xs (c ∷ d ∷ ys),
  total_size-append xs (fuse_cells (marked 1 c) (d ∷ ys)),
  total_size-fuse_cells (marked 1 c) (d ∷ ys),
)

module _ (P : ℕ → Type 0) where
  fuse_cells-All :
      (c : Cell) (ys : List Cell)
      → All (λ (x : Cell). P x.addr) (c ∷ ys)
      → All (λ (x : Cell). P x.addr) (fuse_cells c ys)
  unfolding fuse_cells
  fuse_cells-All c [] a = a
  fuse_cells-All c (d ∷ []) a = a
  fuse_cells-All c (d ∷ e ∷ r) a = elim (Bool-cases d.is_free) [
    | inl free ↦
        simp free (fuse_cells-All (record c { size = c.size + d.size }) (e ∷ r) (a.0, a.1.1))
    | inr used ↦ simp used a
  ]

  free_cells-All :
      (xs ys : List Cell) (c : Cell)
      → All (λ (x : Cell). P x.addr) (xs ++ (c ∷ ys))
      → All (λ (x : Cell). P x.addr) (free_cells xs c ys)
  unfolding free_cells
  free_cells-All xs [] c a = All-left _ xs (c ∷ []) a
  free_cells-All xs (d ∷ ys) c a =
      All-append _ xs _ (All-left _ xs (c ∷ d ∷ ys) a)
        (fuse_cells-All (marked 1 c) (d ∷ ys) (All-right _ xs (c ∷ d ∷ ys) a))

-- `my_free` of a block in the list.
pub my_free-Ready :
    (os : Os) (fuel : ℕ) (h : Heap) (xs ys : List Cell) (c : Cell)
    → Ready fuel h (xs ++ (c ∷ ys))
    → (f : Freed os fuel h xs c ys) × Ready fuel f.heap (free_cells xs c ys)
my_free-Ready os fuel h xs ys c r =
    let small : total_size (c ∷ ys) < 18446744073709551616 =
      omega (arith, r.total, total_size-append xs (c ∷ ys)) in
    let f =
      my_free-Freed os fuel h xs c ys r.enough (All-right _ xs (c ∷ ys) r.in_space).0 small
        (Links-Linked h.mem xs ys c r.links) r.apart r.shows in
    (
      f,
      record {
        shows = f.shows;
        apart = f.apart;
        links = f.links r.links;
        in_space = free_cells-All (λ a. a < 18446744073709551616) xs ys c r.in_space;
        total = omega (arith, r.total, total_size-free_cells xs ys c);
        enough = omega (arith, r.enough, length-free_cells xs ys c);
      },
    )
