-- ===== src/Alloc/Malloc/Data.antt =====
-- What `my_malloc` of lib/memory/src/memory.c writes, seen from the data of the blocks in use.
use metrics_monitor.Base.{
  ℕ, ◌+◌, ◌-◌, ◌≤◌, ◌<◌, ◌≡◌, ◌≢◌, ◌⊎◌, inl, inr, true, false, List, [], ◌∷◌, ◌++◌, arith, leb, ltb,
  All, Bool-cases,
}
use metrics_monitor.Memory.{Mem, null, store}
use metrics_monitor.Pairwise.{Pairwise, around}
use metrics_monitor.Alloc.Block.{size}
use metrics_monitor.Alloc.State.{Mapping, Disjoint, round_page}
use metrics_monitor.Alloc.Ops.{init_block, split_at, split_block, trim_block, take_block}
use metrics_monitor.Alloc.Layout.{Cell, BlocksApart, BlocksApart-sym}
use metrics_monitor.Alloc.Invariant.{InRegion, InRegion-fresh, Covered}

-- The byte `y` is in the data of a used block.
abbrev pub InUsed : List Cell → ℕ → Type 0
InUsed [] y = ⊥
InUsed (c ∷ cs) y =
    ((c.is_free ≡ false) × (c.addr + 40 ≤ y) × (y < c.addr + 40 + c.size)) ⊎ InUsed cs y

-- The byte `y` is outside the block, or outside its header.
abbrev pub Outside : ℕ → Cell → Type 0
Outside y c = (y < c.addr) ⊎ (c.addr + 40 + c.size ≤ y)

abbrev pub OffHeader : ℕ → Cell → Type 0
OffHeader y c = (y < c.addr) ⊎ (c.addr + 40 ≤ y)

pub InUsed-Outside :
    (y : ℕ) (c : Cell) (cs : List Cell) → All (BlocksApart c) cs → InUsed cs y → Outside y c
InUsed-Outside y c [] a h = absurd h
InUsed-Outside y c (d ∷ cs) a (inl (used, lo, hi)) = ground (arith, a.0)
InUsed-Outside y c (d ∷ cs) a (inr h) = InUsed-Outside y c cs a.1 h

-- Data is no part of a header.
pub InUsed-OffHeader :
    (y : ℕ) (cs : List Cell) → Pairwise BlocksApart cs → InUsed cs y → All (OffHeader y) cs
InUsed-OffHeader y [] p h = tt
InUsed-OffHeader y (c ∷ cs) p (inl (used, lo, hi)) = (inr lo, others cs p.0)
  where
    others : (ds : List Cell) → All (BlocksApart c) ds → All (OffHeader y) ds
    others [] a = tt
    others (d ∷ ds) a = (ground (arith, a.0), others ds a.1)
InUsed-OffHeader y (c ∷ cs) p (inr h) =
    (ground (arith, InUsed-Outside y c cs p.0 h), InUsed-OffHeader y cs p.1 h)

InUsed-beside :
    (y : ℕ) (xs ys : List Cell) (c : Cell)
    → c.is_free ≡ true
    → InUsed (xs ++ (c ∷ ys)) y
    → InUsed xs y ⊎ InUsed ys y
InUsed-beside y [] ys c free (inl (used, lo, hi)) = absurd (cc)
InUsed-beside y [] ys c free (inr h) = inr h
InUsed-beside y (x ∷ xs) ys c free (inl h) = inl (inl h)
InUsed-beside y (x ∷ xs) ys c free (inr h) = elim (InUsed-beside y xs ys c free h) [
  | inl left ↦ inl (inr left)
  | inr right ↦ inr right
]

-- The data of used blocks is outside every free block.
pub InUsed-free :
    (y : ℕ) (xs ys : List Cell) (c : Cell)
    → c.is_free ≡ true
    → Pairwise BlocksApart (xs ++ (c ∷ ys))
    → InUsed (xs ++ (c ∷ ys)) y
    → Outside y c
InUsed-free y xs ys c free p h =
    let near = around BlocksApart BlocksApart-sym xs ys c p in
    elim (InUsed-beside y xs ys c free h) [
      | inl left ↦ InUsed-Outside y c xs near.0 left
      | inr right ↦ InUsed-Outside y c ys near.1 right
    ]

InUsed-InRegion :
    (maps : List Mapping) (y : ℕ) (cs : List Cell)
    → All (Covered maps) cs
    → InUsed cs y
    → InRegion maps y
InUsed-InRegion maps y [] a h = absurd h
InUsed-InRegion maps y (c ∷ cs) a (inl (used, lo, hi)) = a.0 y (omega arith) hi
InUsed-InRegion maps y (c ∷ cs) a (inr h) = InUsed-InRegion maps y cs a.1 h

-- The data of used blocks is outside a fresh region.
pub InUsed-fresh :
    (b n y : ℕ) (maps : List Mapping) (cs : List Cell)
    → All (λ (r : Mapping). Disjoint b n r.start (round_page r.len)) maps
    → All (Covered maps) cs
    → InUsed cs y
    → Disjoint y 1 b n
InUsed-fresh b n y maps cs f a h = elim (Bool-cases (leb b y)) [
  | inr before ↦ inl (ground arith)
  | inl from ↦ elim (Bool-cases (ltb y (b + n))) [
    | inr behind ↦ inr (ground arith)
    | inl inside ↦
        absurd (
          InRegion-fresh b n y maps f (ground arith) (ground arith) (InUsed-InRegion maps y cs a h))
  ]
]

-- `init_block` writes the new header and the link of the last block.
pub init_block-frame :
    (m : Mem) (b last s page y : ℕ)
    → 40 ≤ page
    → (last ≡ null) ⊎ (y < last) ⊎ (last + 32 ≤ y)
    → Disjoint y 1 b page
    → init_block b last s m y ≡ m y
unfolding init_block store
init_block-frame m b last s page y room clear away = ground arith

split_at-frame :
    (m : Mem) (b s n y : ℕ)
    → (y < b) ⊎ (b + 40 ≤ y)
    → (y < n) ⊎ (n + 40 ≤ y)
    → split_at b s n m y ≡ m y
unfolding split_at store
split_at-frame m b s n y k l = ground arith

pub trim_block-frame :
    (m : Mem) (s y : ℕ) (c : Cell)
    → size m c.addr ≡ c.size
    → s ≤ c.size
    → c.addr + 40 + c.size < 18446744073709551616
    → Outside y c
    → trim_block c.addr s m y ≡ m y
unfolding trim_block split_block
trim_block-frame m s y c e fit space out = elim (Bool-cases (leb 44 (c.size - s))) [
  | inl large ↦
      let stays : split_at c.addr s (c.addr + 40 + s) m y ≡ m y =
        split_at-frame m c.addr s (c.addr + 40 + s) y (ground arith) (ground arith) in
      ground (arith, stays)
  | inr small ↦ ground arith
]

-- `trim_block` leaves the data that stay in the block.
pub trim_block-inside :
    (m : Mem) (s y : ℕ) (c : Cell)
    → size m c.addr ≡ c.size
    → s ≤ c.size
    → c.addr + 40 + c.size < 18446744073709551616
    → c.addr + 40 ≤ y
    → y < c.addr + 40 + s
    → trim_block c.addr s m y ≡ m y
unfolding trim_block split_block
trim_block-inside m s y c e fit space lo hi =
    let stays : split_at c.addr s (c.addr + 40 + s) m y ≡ m y =
      split_at-frame m c.addr s (c.addr + 40 + s) y (omega arith) (omega arith) in
    ground (arith, stays)

-- `take_block` writes inside the block.
pub take_block-frame :
    (m : Mem) (s y : ℕ) (c : Cell)
    → size m c.addr ≡ c.size
    → s ≤ c.size
    → c.addr + 40 + c.size < 18446744073709551616
    → Outside y c
    → take_block c.addr s m y ≡ m y
unfolding take_block store
take_block-frame m s y c e fit space out =
    let trimmed : trim_block c.addr s m y ≡ m y = trim_block-frame m s y c e fit space out in
    let mark : y ≢ c.addr + 24 = λ q. omega arith in ground (arith, trimmed, mark)
