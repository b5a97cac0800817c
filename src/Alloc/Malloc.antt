-- ===== src/Alloc/Malloc.antt =====
-- `my_malloc` of lib/memory/src/memory.c: what it returns and what it makes of the block list.
pub mod Data
pub mod Run
pub mod Undo
pub mod Fresh
pub mod Links
use metrics_monitor.Base.{
  ℕ, ◌+◌, ◌-◌, ◌^◌, ◌%◌, ◌≤◌, ◌<◌, ◌≡◌, ◌≢◌, refl, sym, ap, ◌∙◌, ◌⊎◌, inl, inr, Bool, true, false,
  ◌&&◌, none, some, List, [], ◌∷◌, ◌++◌, map, arith, ◌==◌, ==-false, leb, if◌then◌else◌, length,
  All, Bool-cases,
}
use mathlib.Core.List.{append_assoc}
use metrics_monitor.Memory.{Mem, null, store}
use metrics_monitor.Pairwise.{Pairwise, All-append, All-left, All-right, All-map, replace}
use metrics_monitor.Alloc.Words.{align}
use metrics_monitor.Alloc.Words.Bounds.{align_bounds}
use metrics_monitor.Alloc.Block.{data_of}
use metrics_monitor.Alloc.State.{
  Os, IsMmap, Heap, Cmd, Method, Mapping, MmapGives, round_page, log_handler, ◌>>=◌, pure,
}
use metrics_monitor.Alloc.Chain.{last_of}
use metrics_monitor.Alloc.Places.{addr_of}
use metrics_monitor.Alloc.Ops.{extend_heap, init_block, take_block}
use metrics_monitor.Alloc.Api.{place, log_malloc, my_malloc}
use metrics_monitor.Alloc.Layout.{
  Cell, cell, Shows, Seen, Apart, BlocksApart, BlocksApart-sym, Shows-frame, Shows-Seen,
}
use metrics_monitor.Alloc.Layout.Take.{
  take_cell, take-Pairwise, take_block-Shows, Pairwise-HeadersApart,
}
use metrics_monitor.Alloc.Layout.Extend.{init_block-Shows, init_block-alone}
use metrics_monitor.Alloc.Choice.{IsPolicy, NoneChosen, Choice, Chosen, suits, find_block-Chosen}
use metrics_monitor.Alloc.Release.{Linked}
use metrics_monitor.Alloc.Invariant.{
  Inv, HeapInv, Covered, InSpace, Covered-cons, Covered-part, mmap-SameHeaders, fresh-BlocksApart,
}

-- How the list `cs` becomes `cs'` when the block at `b` is found or made for `s` bytes: a chosen
-- block is taken; or no block is eligible and a new block stands at the end, its links right; or the system refuses
-- and nothing changes.
pub data Placement (method : Method) (s : ℕ) (cs : List Cell) (b : ℕ) (cs' : List Cell) (m : Mem)
    : Type 0 where
  reused :
      (c : Choice method s cs b)
      → cs' ≡ c.front ++ (take_cell s c.chosen ++ c.back)
      → b ≢ null
      → Placement method s cs b cs' m
  extended :
      NoneChosen method s cs
      → b ≢ null
      → cs' ≡ cs ++ (cell b s false ∷ [])
      → Linked m cs (cell b s false)
      → Placement method s cs b cs' m
  refused : NoneChosen method s cs → b ≡ null → cs' ≡ cs → Placement method s cs b cs' m

take_cell-Covered :
    (s : ℕ) (maps : List Mapping) (c : Cell)
    → s ≤ c.size
    → Covered maps c
    → All (Covered maps) (take_cell s c)
unfolding take_cell
take_cell-Covered s maps c fit k = elim (Bool-cases (leb 44 (c.size - s))) [
  | inl large ↦ rw large (
    Covered-part maps c (cell c.addr s false) (omega arith) (omega arith) k,
    (
      Covered-part maps c (cell (c.addr + 40 + s) (c.size - s - 40) true) (omega arith)
          (ground arith) k,
      tt,
    ),
  )
  | inr small ↦
      rw small (Covered-part maps c (cell c.addr c.size false) (omega arith) (omega arith) k, tt)
]

take_cell-InSpace : (s : ℕ) (c : Cell) → s ≤ c.size → InSpace c → All InSpace (take_cell s c)
unfolding take_cell
take_cell-InSpace s c fit k = ground arith

pub take-Inv :
    (m : Mem) (p s : ℕ) (maps : List Mapping) (xs ys : List Cell) (c : Cell)
    → s ≤ c.size
    → Inv m p maps (xs ++ (c ∷ ys))
    → Inv (take_block c.addr s m) p maps (xs ++ (take_cell s c ++ ys))
take-Inv m p s maps xs ys c fit inv =
    let space = All-right _ xs (c ∷ ys) inv.in_space in
    let cover = All-right _ xs (c ∷ ys) inv.covered in
    record {
      shows =
          take_block-Shows s xs ys c fit inv.apart m p (omega (arith, space.0))
            (omega (arith, space.0)) inv.shows;
      apart = take-Pairwise s xs ys c fit inv.apart;
      covered =
          All-append _ xs _ (All-left _ xs (c ∷ ys) inv.covered)
            (All-append _ (take_cell s c) ys (take_cell-Covered s maps c fit cover.0) cover.1);
      in_space =
          All-append _ xs _ (All-left _ xs (c ∷ ys) inv.in_space)
            (All-append _ (take_cell s c) ys (take_cell-InSpace s c fit space.0) space.1);
    }

-- The links of a new block behind the block `last`.
pub init_block-Linked :
    (m : Mem) (b last s : ℕ) (cs : List Cell)
    → (last ≡ null) ⊎ Apart b last
    → last ≡ last_of null (map addr_of cs)
    → Linked (init_block b last s m) cs (cell b s false)
unfolding init_block store
init_block-Linked m b last s cs h e = record { data_link = ground arith; back_link = ground arith }

module _ {m m' : Mem} {s b : ℕ} {maps : List Mapping} (g : MmapGives maps s m b m')
    (room : s + 40 ≤ round_page s) where
  pub fresh_cell :
      Inv (init_block b null s m') b (record { start = b; len = s } ∷ maps) (cell b s false ∷ [])
  fresh_cell = record {
    shows = init_block-alone m' b s g.ne_null;
    apart = (tt, tt);
    covered = (λ x lo hi. inl (omega arith, omega arith), tt);
    in_space = (omega (arith, g.in_space), tt);
  }

  apart_of_fresh :
      (cs : List Cell)
      → All (Covered maps) cs
      → All (λ (d : Cell). BlocksApart d (cell b s false)) cs
  apart_of_fresh [] a = tt
  apart_of_fresh (c ∷ cs) a = (fresh-BlocksApart g room c a.0, apart_of_fresh cs a.1)

  Pairwise-snoc :
      (cs : List Cell)
      → Pairwise BlocksApart cs
      → All (λ (d : Cell). BlocksApart d (cell b s false)) cs
      → Pairwise BlocksApart (cs ++ (cell b s false ∷ []))
  Pairwise-snoc [] p a = (tt, tt)
  Pairwise-snoc (c ∷ cs) p a = (All-append _ cs _ p.0 (a.0, tt), Pairwise-snoc cs p.1 a.1)

  pub extend-Inv :
      (p : ℕ) (xs : List Cell) (c : Cell)
      → Inv m p maps (xs ++ (c ∷ []))
      → Inv
          (init_block b c.addr s m')
          p
          (record { start = b; len = s } ∷ maps)
          ((xs ++ (c ∷ [])) ++ (cell b s false ∷ []))
  extend-Inv p xs c inv =
      let cs : List Cell = xs ++ (c ∷ []) in
      let away = apart_of_fresh cs inv.covered in
      record {
        shows = rw append_assoc (
            init_block-Shows m' p b s xs c g.ne_null (Pairwise-HeadersApart cs inv.apart)
              (All-map cs (λ d h. ground arith) away)
              (Shows-frame m m' p cs (mmap-SameHeaders g cs inv.covered) inv.shows));
        apart = Pairwise-snoc cs inv.apart away;
        covered =
            All-append _ cs _ (Covered-cons _ maps cs inv.covered)
              (λ x lo hi. inl (omega arith, omega arith), tt);
        in_space = All-append _ cs _ inv.in_space (omega (arith, g.in_space), tt);
      }
