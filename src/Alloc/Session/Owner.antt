-- ===== src/Alloc/Session/Owner.antt =====
-- The block of a live allocation in the list that the memory of lib/memory/src/memory.c shows.
use metrics_monitor.Base.{
  ℕ, ◌≤◌, ◌<◌, ◌≡◌, ◌⊎◌, refl, sym, ◌∙◌, inl, inr, List, [], ◌∷◌, ◌++◌, arith, length, All,
}
use mathlib.Core.Path.{subst}
use metrics_monitor.Memory.{Mem}
use metrics_monitor.Pairwise.{Pairwise, All-right}
use metrics_monitor.Alloc.Block.{next, data_of}
use metrics_monitor.Alloc.State.{Heap}
use metrics_monitor.Alloc.Layout.{Cell, Shows, BlocksApart}
use metrics_monitor.Alloc.Invariant.{HeapInv}
use metrics_monitor.Alloc.Session.{Live, LiveApart, Without, first, later, Holds, HeldIn}
use metrics_monitor.Alloc.Session.Held.{Held, HeldIn-beside}

Cell-eq : (c d : Cell) → c.addr ≡ d.addr → c.size ≡ d.size → c.is_free ≡ d.is_free → c ≡ d
Cell-eq c d a s f = λ i. record { addr = a i; size = s i; is_free = f i }

-- The memory shows one list.
Shows-unique : (m : Mem) (p : ℕ) (cs ds : List Cell) → Shows m p cs → Shows m p ds → cs ≡ ds
Shows-unique m p [] [] s t = refl
Shows-unique m p [] (d ∷ ds) s t = absurd (t.1 (sym t.0 ∙ s))
Shows-unique m p (c ∷ cs) [] s t = absurd (s.1 (sym s.0 ∙ t))
Shows-unique m p (c ∷ cs) (d ∷ ds) (c0, c1, c2, c3, c4) (d0, d1, d2, d3, d4) =
    let at : c.addr ≡ d.addr = sym c0 ∙ d0 in
    let same : c ≡ d = Cell-eq c d at (sym c2 ∙ (rw at d2)) (sym c3 ∙ (rw at d3)) in
    let rest : cs ≡ ds =
      Shows-unique m (next m c.addr) cs ds c4 (subst (λ a. Shows m (next m a) ds) (sym at) d4) in
    cc

module _ (P : Live → Type 0) where
  pub Without-All : {l : Live} {ls ms : List Live} → Without l ls ms → All P ls → P l × All P ms
  Without-All first a = a
  Without-All (later w) a = let rest = Without-All w a.1 in (rest.0, (a.0, rest.1))

LiveApart-sym : (a b : Live) → LiveApart a b → LiveApart b a
LiveApart-sym a b (inl h) = inr h
LiveApart-sym a b (inr h) = inl h

pub Without-Pairwise :
    {l : Live} {ls ms : List Live}
    → Without l ls ms
    → Pairwise LiveApart ls
    → All (LiveApart l) ms × Pairwise LiveApart ms
Without-Pairwise first p = p
Without-Pairwise {l} (later {x} w) p =
    let rest = Without-Pairwise w p.1 in
    let here = Without-All (LiveApart x) w p.0 in
    ((LiveApart-sym x l here.0, rest.0), (here.1, rest.1))

-- The block at the address of an allocation holds it.
HeldIn-at :
    (xs ys : List Cell) (c : Cell) (l : Live)
    → data_of c.addr ≡ l.addr
    → Pairwise BlocksApart (xs ++ (c ∷ ys))
    → HeldIn (xs ++ (c ∷ ys)) l
    → Holds c l
HeldIn-at [] ys c l at p (inl h) = h
HeldIn-at [] ys c l at p (inr h) = absurd (elsewhere ys p.0 h)
  where
    elsewhere : (ds : List Cell) → All (BlocksApart c) ds → HeldIn ds l → ⊥
    elsewhere [] a k = k
    elsewhere (d ∷ ds) a (inl k) = omega (arith, k.0, at, a.0)
    elsewhere (d ∷ ds) a (inr k) = elsewhere ds a.1 k
HeldIn-at (x ∷ xs) ys c l at p (inl h) =
    absurd (omega (arith, h.0, at, (All-right _ xs (c ∷ ys) p.0).0))
HeldIn-at (x ∷ xs) ys c l at p (inr h) = HeldIn-at xs ys c l at p.1 h

-- The allocation `l` at the data of the block `c` between `xs` and `ys`.
module _ (k : ℕ) (h : Heap) (ls ms : List Live) (l : Live) (xs ys : List Cell) (c : Cell)
    (H : Held k h ls) (without : Without l ls ms) (shows : Shows h.mem h.base (xs ++ (c ∷ ys)))
    (at : data_of c.addr ≡ l.addr) where
  pub cells_eq : H.cells ≡ xs ++ (c ∷ ys)
  cells_eq = Shows-unique h.mem h.base H.cells (xs ++ (c ∷ ys)) H.inv.shows shows

  pub inv : HeapInv h (xs ++ (c ∷ ys))
  inv = subst (λ cs. HeapInv h cs) cells_eq H.inv

  pub enough : length (xs ++ (c ∷ ys)) ≤ k
  enough = subst (λ cs. length cs ≤ k) cells_eq H.count

  -- The other allocations are in other blocks.
  pub others : All (λ (x : Live). HeldIn xs x ⊎ HeldIn ys x) ms
  others =
      away ms (Without-All (HeldIn H.cells) without H.held).1
        (Without-Pairwise without H.live_apart).0
        (Without-All (λ (x : Live). 0 < x.size) without H.some_size).1
    where
      pos : 0 < l.size
      pos = (Without-All (λ (x : Live). 0 < x.size) without H.some_size).0

      not_here : (x : Live) → LiveApart l x → 0 < x.size → Holds c x → ⊥
      not_here x (inl a) some_size hd = omega (arith, hd.0, at, a, pos)
      not_here x (inr a) some_size hd = omega (arith, hd.0, at, a, some_size)

      away :
          (xs' : List Live)
          → All (HeldIn H.cells) xs'
          → All (LiveApart l) xs'
          → All (λ (x : Live). 0 < x.size) xs'
          → All (λ (x : Live). HeldIn xs x ⊎ HeldIn ys x) xs'
      away [] a b s = tt
      away (x ∷ rest) a b s = (
        HeldIn-beside xs ys c x (not_here x b.0 s.0) (subst (λ cs. HeldIn cs x) cells_eq a.0),
        away rest a.1 b.1 s.1,
      )

  pub holds : Holds c l
  holds =
      HeldIn-at xs ys c l at inv.apart
        (subst (λ cs. HeldIn cs l) cells_eq (Without-All (HeldIn H.cells) without H.held).0)
