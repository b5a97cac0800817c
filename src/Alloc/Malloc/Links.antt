-- ===== src/Alloc/Malloc/Links.antt =====
-- The fields `prev` and `ptr` that are there already: `my_malloc` of lib/memory/src/memory.c does not
-- write them.
use metrics_monitor.Base.{
  ℕ, ◌+◌, ◌≤◌, ◌<◌, ◌≡◌, ◌⊎◌, refl, ◌∙◌, inl, inr, List, [], ◌∷◌, ◌++◌, arith, All,
}
use metrics_monitor.Memory.{Mem, null, store}
use metrics_monitor.Pairwise.{Pairwise, around, All-append, All-left, All-right, All-map, All-both}
use metrics_monitor.Alloc.Block.{size}
use metrics_monitor.Alloc.State.{Mapping, MmapGives, round_page}
use metrics_monitor.Alloc.Ops.{init_block, split_at, split_block, trim_block, take_block}
use metrics_monitor.Alloc.Layout.{Cell, Apart, BlocksApart, BlocksApart-sym}
use metrics_monitor.Alloc.Layout.Links.{SameLinks}
use metrics_monitor.Alloc.Invariant.{Inv, Covered, Covered-fresh, round_page_pos}
use metrics_monitor.Alloc.Malloc.Data.{Outside, take_block-frame}

split_at-SameLinks :
    (m : Mem) (b s n x : ℕ) → (x ≡ b) ⊎ Apart b x → Apart n x → SameLinks m (split_at b s n m) x
unfolding split_at store
split_at-SameLinks m b s n x h k = ground arith

-- The block that is taken keeps its own two fields.
take_block_self : (m : Mem) (s : ℕ) (c : Cell) → SameLinks m (take_block c.addr s m) c.addr
unfolding take_block trim_block split_block store
take_block_self m s c =
    let stays = split_at-SameLinks m c.addr s (c.addr + 40 + s) c.addr (inl refl) (omega arith) in
    ground (arith, stays)

pub take_block-SameLinks :
    (m : Mem) (s : ℕ) (xs ys : List Cell) (c : Cell)
    → size m c.addr ≡ c.size
    → s ≤ c.size
    → c.addr + 40 + c.size < 18446744073709551616
    → Pairwise BlocksApart (xs ++ (c ∷ ys))
    → All (λ (d : Cell). SameLinks m (take_block c.addr s m) d.addr) (xs ++ (c ∷ ys))
take_block-SameLinks m s xs ys c e fit space apart =
    let near = around BlocksApart BlocksApart-sym xs ys c apart in
    let frame = λ (y : ℕ) (out : Outside y c). take_block-frame m s y c e fit space out in
    let same : (d : Cell) → BlocksApart c d → SameLinks m (take_block c.addr s m) d.addr =
      λ d k. (frame (d.addr + 16) (ground (arith, k)), frame (d.addr + 32) (ground (arith, k))) in
    All-append _ xs (c ∷ ys) (All-map xs same near.0)
      (take_block_self m s c, All-map ys same near.1)

init_block-SameLinks :
    (m : Mem) (b last s x : ℕ)
    → Apart b x
    → (last ≡ null) ⊎ (x ≡ last) ⊎ Apart last x
    → SameLinks m (init_block b last s m) x
unfolding init_block store
init_block-SameLinks m b last s x h k = ground arith

module _ {maps : List Mapping} {s b : ℕ} {m m' : Mem} (g : MmapGives maps s m b m')
    (room : s + 40 ≤ round_page s) where
  extended-SameLinks :
      (c d : Cell)
      → Covered maps d
      → (d.addr ≡ c.addr) ⊎ BlocksApart c d
      → SameLinks m (init_block b c.addr s m') d.addr
  extended-SameLinks c d cover k =
      let away =
        Covered-fresh b (round_page s) maps d (round_page_pos s g.some_len) g.fresh cover in
      let new =
        init_block-SameLinks m' b c.addr s d.addr (ground (arith, away))
          (inr (ground (arith, k))) in
      (
        new.0 ∙ g.kept (d.addr + 16) (ground (arith, away)),
        new.1 ∙ g.kept (d.addr + 32) (ground (arith, away)),
      )

  -- A new block behind the last one.
  pub extend-SameLinks :
      (p : ℕ) (xs : List Cell) (c : Cell)
      → Inv m p maps (xs ++ (c ∷ []))
      → All (λ (d : Cell). SameLinks m (init_block b c.addr s m') d.addr) (xs ++ (c ∷ []))
  extend-SameLinks p xs c inv =
      let near = around BlocksApart BlocksApart-sym xs [] c inv.apart in
      All-append _ xs (c ∷ [])
        (All-both xs (λ d k cover. extended-SameLinks c d cover (inr k)) near.0
          (All-left _ xs (c ∷ []) inv.covered))
        (extended-SameLinks c c (All-right _ xs (c ∷ []) inv.covered).0 (inl refl), tt)
