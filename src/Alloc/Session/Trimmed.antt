-- ===== src/Alloc/Session/Trimmed.antt =====
-- An allocation of lib/memory/src/memory.c whose block is trimmed to a new size.
use metrics_monitor.Base.{
  ℕ, suc, ◌+◌, ◌≤◌, ◌<◌, ◌≡◌, ◌⊎◌, sym, ap, ◌∙◌, inl, inr, false, List, ◌∷◌, ◌++◌, arith, length,
  length-append, All,
}
use mathlib.Core.Path.{subst}
use metrics_monitor.Memory.{Mem}
use metrics_monitor.Pairwise.{around, All-map, All-right}
use metrics_monitor.Alloc.Words.{align}
use metrics_monitor.Alloc.Words.Bounds.{align_bounds}
use metrics_monitor.Alloc.Block.{data_of}
use metrics_monitor.Alloc.State.{Heap, Mapping}
use metrics_monitor.Alloc.Ops.{trim_block}
use metrics_monitor.Alloc.Layout.{Cell, Shows, Seen, Shows-Seen, BlocksApart, BlocksApart-sym}
use metrics_monitor.Alloc.Layout.Take.{take_cell}
use metrics_monitor.Alloc.Choice.{IsPolicy}
use metrics_monitor.Alloc.Invariant.{HeapInv, Inv, InSpace}
use metrics_monitor.Alloc.Malloc.{take-Inv}
use metrics_monitor.Alloc.Malloc.Data.{Outside, InUsed-Outside, trim_block-frame, trim_block-inside}
use metrics_monitor.Alloc.Realloc.{trim_block-Shows}
use metrics_monitor.Alloc.Session.{Live, live, Without, Inside, HeldIn}
use metrics_monitor.Alloc.Session.Held.{
  Held, HeldIn-right, HeldIn-InUsed, joined, Taken, Taken-take_cell,
}
use metrics_monitor.Alloc.Session.Owner.{Without-All, Without-Pairwise, inv, enough, others, holds}

trim-Inv :
    (m : Mem) (p s : ℕ) (maps : List Mapping) (xs ys : List Cell) (c : Cell)
    → c.is_free ≡ false
    → s ≤ c.size
    → Inv m p maps (xs ++ (c ∷ ys))
    → Inv (trim_block c.addr s m) p maps (xs ++ (take_cell s c ++ ys))
trim-Inv m p s maps xs ys c used fit inv =
    let space = (All-right InSpace xs (c ∷ ys) inv.in_space).0 in
    let t = take-Inv m p s maps xs ys c fit inv in
    record {
      shows =
          trim_block-Shows m p s xs ys c used fit (omega (arith, space)) (omega (arith, space))
            inv.apart inv.shows;
      apart = t.apart;
      covered = t.covered;
      in_space = t.in_space;
    }

-- The block `c` of the allocation `l` is trimmed to `n` bytes.
module _ (k n : ℕ) (g h' : Heap) (ls ms : List Live) (l : Live) (xs ys : List Cell) (c : Cell)
    (H : Held k g ls) (without : Without l ls ms) (pos : 0 < n)
    (bound : n + 8 ≤ 18446744073709551616) (shows : Shows g.mem g.base (xs ++ (c ∷ ys)))
    (at : data_of c.addr ≡ l.addr) (fit : align n ≤ c.size)
    (mem_eq : h'.mem ≡ trim_block c.addr (align n) g.mem) (base_eq : h'.base ≡ g.base)
    (maps_eq : h'.maps ≡ g.maps) (method_eq : h'.method ≡ g.method) where
  old : HeapInv g (xs ++ (c ∷ ys))
  old = inv k g ls ms l xs ys c H without shows at

  few : length (xs ++ (c ∷ ys)) ≤ k
  few = enough k g ls ms l xs ys c H without shows at

  space : InSpace c
  space = (All-right InSpace xs (c ∷ ys) old.in_space).0

  trimmed : (y : ℕ) → h'.mem y ≡ trim_block c.addr (align n) g.mem y
  trimmed y = ap (λ (m : Mem). m y) mem_eq

  pub trimmed-Held : Held (suc k) h' (live l.addr n ∷ ms)
  trimmed-Held =
      let t : Taken (align n) c = Taken-take_cell (align n) c fit in
      let inv' : HeapInv h' (xs ++ (take_cell (align n) c ++ ys)) =
        rw (mem_eq, base_eq, maps_eq)
          (trim-Inv g.mem g.base (align n) g.maps xs ys c
            (holds k g ls ms l xs ys c H without shows at).1 fit old) in
      (joined (suc k) n l.addr h' ms xs (t.surplus ++ ys) t.head
        (omega (
          arith,
          few,
          t.few,
          length-append xs (c ∷ ys),
          length-append xs (t.head ∷ (t.surplus ++ ys)),
          length-append t.surplus ys,
        ))
        (rw t.splits at inv') (subst IsPolicy (sym method_eq) H.policy)
        (ap data_of t.at ∙ at, t.used, omega (arith, t.fit, (align_bounds n pos bound).1))
        (All-map ms (beside t) (others k g ls ms l xs ys c H without shows at)) pos
        (Without-All (λ (x : Live). 0 < x.size) without H.some_size).1
        (Without-Pairwise without H.live_apart).1)
    where
      beside :
          (t : Taken (align n) c) (x : Live)
          → HeldIn xs x ⊎ HeldIn ys x
          → HeldIn xs x ⊎ HeldIn (t.surplus ++ ys) x
      beside t x (inl left) = inl left
      beside t x (inr right) = inr (HeldIn-right t.surplus ys x right)

  -- The data of the other allocations stay, and those that the block keeps.
  pub trimmed-others : All (λ (x : Live). (y : ℕ) → Inside x y → h'.mem y ≡ g.mem y) ms
  trimmed-others = All-map ms stays (others k g ls ms l xs ys c H without shows at)
    where
      near : All (BlocksApart c) xs × All (BlocksApart c) ys
      near = around BlocksApart BlocksApart-sym xs ys c old.apart

      seen : Seen g.mem c
      seen = Shows-Seen g.mem g.base xs ys c shows

      outside : (x : Live) (y : ℕ) → HeldIn xs x ⊎ HeldIn ys x → Inside x y → Outside y c
      outside x y (inl held) i = InUsed-Outside y c xs near.0 (HeldIn-InUsed xs x y held i)
      outside x y (inr held) i = InUsed-Outside y c ys near.1 (HeldIn-InUsed ys x y held i)

      stays : (x : Live) → HeldIn xs x ⊎ HeldIn ys x → (y : ℕ) → Inside x y → h'.mem y ≡ g.mem y
      stays x held y i =
          trimmed y
          ∙ trim_block-frame g.mem (align n) y c seen.size_eq fit space (outside x y held i)

  pub trimmed-here : (y : ℕ) → Inside (live l.addr n) y → h'.mem y ≡ g.mem y
  trimmed-here y i =
      let seen : Seen g.mem c = Shows-Seen g.mem g.base xs ys c shows in
      trimmed y
      ∙ trim_block-inside g.mem (align n) y c seen.size_eq fit space (omega (arith, at, i))
          (omega (arith, at, i, (align_bounds n pos bound).1))
