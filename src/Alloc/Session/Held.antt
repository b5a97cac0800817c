-- ===== src/Alloc/Session/Held.antt =====
-- Where the live allocations stand in the block list, before and after a call of `my_malloc` of
-- lib/memory/src/memory.c.
use metrics_monitor.Base.{
  ℕ, ◌+◌, ◌-◌, ◌≤◌, ◌<◌, ◌≡◌, ◌⊎◌, refl, inl, inr, true, false, List, [], ◌∷◌, ◌++◌, arith, leb,
  length, All, Bool-cases,
}
use mathlib.Core.Path.{subst}
use metrics_monitor.Pairwise.{Pairwise, around, All-map}
use metrics_monitor.Alloc.Block.{data_of}
use metrics_monitor.Alloc.State.{Heap}
use metrics_monitor.Alloc.Layout.{Cell, cell, BlocksApart, BlocksApart-sym, SameHeader, Shows-frame}
use metrics_monitor.Alloc.Layout.Take.{take_cell}
use metrics_monitor.Alloc.Choice.{IsPolicy}
use metrics_monitor.Alloc.Invariant.{HeapInv}
use metrics_monitor.Alloc.Malloc.Data.{InUsed, OffHeader, InUsed-OffHeader}
use metrics_monitor.Memory.{store}
use metrics_monitor.Alloc.Session.{Live, live, LiveApart, Holds, HeldIn, Inside}

pub HeldIn-left : (xs ys : List Cell) (l : Live) → HeldIn xs l → HeldIn (xs ++ ys) l
HeldIn-left [] ys l h = absurd h
HeldIn-left (x ∷ xs) ys l (inl h) = inl h
HeldIn-left (x ∷ xs) ys l (inr h) = inr (HeldIn-left xs ys l h)

pub HeldIn-right : (xs ys : List Cell) (l : Live) → HeldIn ys l → HeldIn (xs ++ ys) l
HeldIn-right [] ys l h = h
HeldIn-right (x ∷ xs) ys l h = inr (HeldIn-right xs ys l h)

-- An allocation that is not in one of the blocks is before or behind it.
pub HeldIn-beside :
    (xs ys : List Cell) (c : Cell) (l : Live)
    → (Holds c l → ⊥)
    → HeldIn (xs ++ (c ∷ ys)) l
    → HeldIn xs l ⊎ HeldIn ys l
HeldIn-beside [] ys c l other (inl h) = absurd (other h)
HeldIn-beside [] ys c l other (inr h) = inr h
HeldIn-beside (x ∷ xs) ys c l other (inl h) = inl (inl h)
HeldIn-beside (x ∷ xs) ys c l other (inr h) = elim (HeldIn-beside xs ys c l other h) [
  | inl left ↦ inl (inr left)
  | inr right ↦ inr right
]

-- An allocation in one of the blocks is apart from the data of a block apart from them all.
HeldIn-LiveApart :
    (c : Cell) (n : ℕ) (ds : List Cell) (l : Live)
    → n ≤ c.size
    → All (BlocksApart c) ds
    → HeldIn ds l
    → LiveApart (live (data_of c.addr) n) l
HeldIn-LiveApart c n [] l fit a h = absurd h
HeldIn-LiveApart c n (d ∷ ds) l fit a (inl (at, used, k)) = ground (arith, a.0)
HeldIn-LiveApart c n (d ∷ ds) l fit a (inr h) = HeldIn-LiveApart c n ds l fit a.1 h

-- What is known behind `k` calls: a list with the invariant, of no more blocks than calls, that
-- holds every allocation, and the allocations apart.
pub record Held (k : ℕ) (h : Heap) (ls : List Live) : Type 0 where
  pub cells : List Cell
  pub count : length cells ≤ k
  pub inv : HeapInv h cells
  pub policy : IsPolicy h.method
  pub held : All (HeldIn cells) ls
  pub some_size : All (λ (l : Live). 0 < l.size) ls
  pub live_apart : Pairwise LiveApart ls

-- The allocation `live p n` joins the others, in the used block `c` of the list.
pub joined :
    (k n p : ℕ) (h : Heap) (ls : List Live) (xs ys : List Cell) (c : Cell)
    → length (xs ++ (c ∷ ys)) ≤ k
    → HeapInv h (xs ++ (c ∷ ys))
    → IsPolicy h.method
    → Holds c (live p n)
    → All (λ (l : Live). HeldIn xs l ⊎ HeldIn ys l) ls
    → 0 < n
    → All (λ (l : Live). 0 < l.size) ls
    → Pairwise LiveApart ls
    → Held k h (live p n ∷ ls)
joined k n p h ls xs ys c count inv policy (at, used, fit) beside pos sizes apart = record {
  cells = xs ++ (c ∷ ys);
  count = count;
  inv = inv;
  policy = policy;
  held = (HeldIn-right xs (c ∷ ys) (live p n) (inl (at, used, fit)), All-map ls still beside);
  some_size = (pos, sizes);
  live_apart = (All-map ls away beside, apart);
}
  where
    near : All (BlocksApart c) xs × All (BlocksApart c) ys
    near = around BlocksApart BlocksApart-sym xs ys c inv.apart

    still : (l : Live) → HeldIn xs l ⊎ HeldIn ys l → HeldIn (xs ++ (c ∷ ys)) l
    still l (inl h) = HeldIn-left xs (c ∷ ys) l h
    still l (inr h) = HeldIn-right xs (c ∷ ys) l (inr h)

    away : (l : Live) → HeldIn xs l ⊎ HeldIn ys l → LiveApart (live p n) l
    away l (inl h) = subst (λ q. LiveApart (live q n) l) at (HeldIn-LiveApart c n xs l fit near.0 h)
    away l (inr h) = subst (λ q. LiveApart (live q n) l) at (HeldIn-LiveApart c n ys l fit near.1 h)

-- The block of a chosen block's data, and the free surplus behind it.
pub record Taken (s : ℕ) (c : Cell) : Type 0 where
  pub head : Cell
  pub surplus : List Cell
  pub splits : take_cell s c ≡ head ∷ surplus
  pub at : head.addr ≡ c.addr
  pub used : head.is_free ≡ false
  pub fit : s ≤ head.size
  pub few : length surplus ≤ 1

pub Taken-take_cell : (s : ℕ) (c : Cell) → s ≤ c.size → Taken s c
unfolding take_cell
Taken-take_cell s c h = elim (Bool-cases (leb 44 (c.size - s))) [
  | inl large ↦ record {
    head = cell c.addr s false;
    surplus = cell (c.addr + 40 + s) (c.size - s - 40) true ∷ [];
    splits = rw large refl;
    at = refl;
    used = refl;
    fit = omega arith;
    few = omega arith;
  }
  | inr small ↦ record {
    head = cell c.addr c.size false;
    surplus = [];
    splits = rw small refl;
    at = refl;
    used = refl;
    fit = h;
    few = omega arith;
  }
]

-- A word of an allocation is data of a used block.
pub HeldIn-InUsed : (cs : List Cell) (l : Live) (y : ℕ) → HeldIn cs l → Inside l y → InUsed cs y
HeldIn-InUsed [] l y h i = absurd h
HeldIn-InUsed (c ∷ cs) l y (inl (at, used, fit)) (lo, hi, whole) =
    inl (used, omega arith, omega arith)
HeldIn-InUsed (c ∷ cs) l y (inr h) i = inr (HeldIn-InUsed cs l y h i)

-- A write to such a word leaves the list alone.
pub store-HeapInv :
    (h : Heap) (cs : List Cell) (a v : ℕ)
    → InUsed cs a
    → HeapInv h cs
    → HeapInv (record h { mem = store h.mem a v }) cs
unfolding store
store-HeapInv h cs a v u inv = record {
  shows =
      Shows-frame h.mem (store h.mem a v) h.base cs
        (All-map cs same (InUsed-OffHeader a cs inv.apart u)) inv.shows;
  apart = inv.apart;
  covered = inv.covered;
  in_space = inv.in_space;
}
  where
    same : (c : Cell) → OffHeader a c → SameHeader h.mem (store h.mem a v) c.addr
    same c off = ground arith
