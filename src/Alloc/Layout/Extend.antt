-- ===== src/Alloc/Layout/Extend.antt =====
-- The block that `extend_heap` makes, seen on the block list.
use metrics_monitor.Base.{ℕ, ◌+◌, ◌≡◌, ◌≢◌, refl, ◌∙◌, false, List, [], ◌∷◌, ◌++◌, arith, All}
use metrics_monitor.Memory.{Mem, null, store}
use metrics_monitor.Pairwise.{Pairwise, around, All-left, All-right}
use metrics_monitor.Alloc.Block.{size, next, prev, ptr, is_free, data_of}
use metrics_monitor.Alloc.Ops.{init_block}
use metrics_monitor.Alloc.Layout.{
  Cell, cell, Shows, Seen, Apart, HeadersApart, HeadersApart-sym, SameHeader, Shows-Seen,
  Shows-split,
}

module _ (m : Mem) (b last s : ℕ) (ap : Apart b last) (ne : last ≢ null) where
  init_block_other : (x : ℕ) → Apart b x → Apart last x → SameHeader m (init_block b last s m) x
  unfolding init_block store
  init_block_other x h k = ground arith

  init_block_last :
      (init_block b last s m last ≡ m last)
      × (next (init_block b last s m) last ≡ b)
      × (init_block b last s m (last + 24) ≡ m (last + 24))
  unfolding init_block store
  init_block_last = ground arith

  init_block-cell :
      (size (init_block b last s m) b ≡ s)
      × (next (init_block b last s m) b ≡ null)
      × (is_free (init_block b last s m) b ≡ false)
  unfolding init_block store
  init_block-cell = ground arith

-- The links of the new block: its predecessor and its own data.
pub init_block-links :
    (m : Mem) (b last s : ℕ)
    → Apart b last
    → (prev (init_block b last s m) b ≡ last) × (ptr (init_block b last s m) b ≡ data_of b)
unfolding init_block store
init_block-links m b last s h = ground arith

-- The first block of an empty list.
pub init_block-alone :
    (m : Mem) (b s : ℕ) → b ≢ null → Shows (init_block b null s m) b (cell b s false ∷ [])
unfolding init_block store
init_block-alone m b s h = ground arith

-- A block behind the last one of the list.
pub init_block-Shows :
    (m : Mem) (p b s : ℕ) (xs : List Cell) (c : Cell)
    → b ≢ null
    → Pairwise HeadersApart (xs ++ (c ∷ []))
    → All (λ (d : Cell). Apart b d.addr) (xs ++ (c ∷ []))
    → Shows m p (xs ++ (c ∷ []))
    → Shows (init_block b c.addr s m) p (xs ++ (c ∷ cell b s false ∷ []))
init_block-Shows m p b s xs c hb apart new sh =
    let seen : Seen m c = Shows-Seen m p xs [] c sh in
    let ap : Apart b c.addr = (All-right _ xs (c ∷ []) new).0 in
    let near = around HeadersApart HeadersApart-sym xs [] c apart in
    let at = init_block_last m b c.addr s ap seen.ne_null in
    let made = init_block-cell m b c.addr s ap seen.ne_null in
    let m' : Mem = init_block b c.addr s m in
    Shows-split m m' p xs [] (cell b s false ∷ []) c c refl
      (record {
        ne_null = seen.ne_null;
        size_eq = at.0 ∙ seen.size_eq;
        free_eq = rw at.2 seen.free_eq;
      })
      (λ q e r. (at.1, hb, made.0, made.2, made.1))
      (frame m' seen.ne_null ap xs (All-left _ xs (c ∷ []) new) near.0) sh
  where
    frame :
        (m' : Mem)
        → c.addr ≢ null
        → Apart b c.addr
        → (zs : List Cell) → All (λ (d : Cell). Apart b d.addr) zs
        → All (HeadersApart c) zs
        → All (λ (d : Cell). SameHeader m (init_block b c.addr s m) d.addr) zs
    frame m' ne ap [] x y = tt
    frame m' ne ap (z ∷ zs) x y =
        (init_block_other m b c.addr s ap ne z.addr x.0 y.0, frame m' ne ap zs x.1 y.1)
