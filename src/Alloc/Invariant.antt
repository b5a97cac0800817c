-- ===== src/Alloc/Invariant.antt =====
-- The invariant of the block list under `my_malloc`, and how a fresh region extends it.
use metrics_monitor.Base.{
  ℕ, ◌+◌, ◌≤◌, ◌<◌, ◌⊎◌, inl, inr, leb, Bool-cases, List, [], ◌∷◌, arith, All, false,
}
use metrics_monitor.Memory.{Mem}
use metrics_monitor.Pairwise.{Pairwise}
use metrics_monitor.Alloc.State.{Heap, Mapping, MmapGives, Disjoint, round_page}
use metrics_monitor.Alloc.Layout.{Cell, cell, Shows, BlocksApart, SameHeader}

-- The address lies in a region that `mmap` handed out.
abbrev pub InRegion : List Mapping → ℕ → Type 0
InRegion [] x = ⊥
InRegion (r ∷ rs) x = ((r.start ≤ x) × (x < r.start + round_page r.len)) ⊎ InRegion rs x

-- The header and the data of the block lie in such regions.
abbrev pub Covered : List Mapping → Cell → Type 0
Covered maps c = (x : ℕ) → c.addr ≤ x → x < c.addr + 40 + c.size → InRegion maps x

abbrev pub InSpace : Cell → Type 0
InSpace c = c.addr + 40 + c.size < 18446744073709551616

-- The memory holds the blocks `cs`, which overlap nowhere and lie in the regions of `maps`.
pub record Inv (m : Mem) (p : ℕ) (maps : List Mapping) (cs : List Cell) : Type 0 where
  pub shows : Shows m p cs
  pub apart : Pairwise BlocksApart cs
  pub covered : All (Covered maps) cs
  pub in_space : All InSpace cs

abbrev pub HeapInv : Heap → List Cell → Type 0
HeapInv h cs = Inv h.mem h.base h.maps cs

pub InRegion-fresh :
    (b n x : ℕ) (maps : List Mapping)
    → All (λ (r : Mapping). Disjoint b n r.start (round_page r.len)) maps
    → b ≤ x
    → x < b + n
    → InRegion maps x
    → ⊥
InRegion-fresh b n x [] f lo hi h = h
InRegion-fresh b n x (r ∷ rs) f lo hi (inl (lo', hi')) = omega (arith, f.0)
InRegion-fresh b n x (r ∷ rs) f lo hi (inr h) = InRegion-fresh b n x rs f.1 lo hi h

-- A block inside regions handed out before shares no byte with a fresh region.
pub Covered-fresh :
    (b n : ℕ) (maps : List Mapping) (c : Cell)
    → 0 < n
    → All (λ (r : Mapping). Disjoint b n r.start (round_page r.len)) maps
    → Covered maps c
    → (b + n ≤ c.addr) ⊎ (c.addr + 40 + c.size ≤ b)
Covered-fresh b n maps c pos f h = elim (Bool-cases (leb (b + n) c.addr)) [
  | inl before ↦ inl (ground arith)
  | inr not_before ↦ elim (Bool-cases (leb (c.addr + 40 + c.size) b)) [
    | inl behind ↦ inr (ground arith)
    | inr not_behind ↦ elim (Bool-cases (leb b c.addr)) [
      | inl low ↦ absurd (
          InRegion-fresh b n c.addr maps f (ground arith) (ground arith)
            (h c.addr (omega arith) (omega arith)))
      | inr high ↦ absurd (
          InRegion-fresh b n b maps f (omega arith) (omega arith)
            (h b (ground arith) (ground arith)))
    ]
  ]
]

pub round_page_pos : (s : ℕ) → 0 < s → 0 < round_page s
round_page_pos s h = omega arith

module _ {maps : List Mapping} {s b : ℕ} {m m' : Mem} (g : MmapGives maps s m b m') where
  -- A fresh region leaves the headers of the blocks alone.
  mmap-SameHeader : (c : Cell) → Covered maps c → SameHeader m m' c.addr
  mmap-SameHeader c h =
      let away = Covered-fresh b (round_page s) maps c (round_page_pos s g.some_len) g.fresh h in
      (
        g.kept c.addr (ground arith),
        g.kept (c.addr + 8) (ground arith),
        g.kept (c.addr + 24) (ground arith),
      )

  pub mmap-SameHeaders :
      (cs : List Cell) → All (Covered maps) cs → All (λ (c : Cell). SameHeader m m' c.addr) cs
  mmap-SameHeaders [] a = tt
  mmap-SameHeaders (c ∷ cs) a = (mmap-SameHeader c a.0, mmap-SameHeaders cs a.1)

  -- A block at the start of the region, if its data fit in, overlaps no block of the list.
  pub fresh-BlocksApart :
      s + 40 ≤ round_page s → (c : Cell) → Covered maps c → BlocksApart c (cell b s false)
  fresh-BlocksApart room c h =
      let away = Covered-fresh b (round_page s) maps c (round_page_pos s g.some_len) g.fresh h in
      ground arith

pub Covered-cons :
    (r : Mapping) (maps : List Mapping) (cs : List Cell)
    → All (Covered maps) cs
    → All (Covered (r ∷ maps)) cs
Covered-cons r maps [] a = tt
Covered-cons r maps (c ∷ cs) a = (λ x lo hi. inr (a.0 x lo hi), Covered-cons r maps cs a.1)

-- A part of a covered block is covered.
pub Covered-part :
    (maps : List Mapping) (c d : Cell)
    → c.addr ≤ d.addr
    → d.addr + d.size ≤ c.addr + c.size
    → Covered maps c
    → Covered maps d
Covered-part maps c d h k a = λ x lo hi. a x (omega arith) (omega arith)
