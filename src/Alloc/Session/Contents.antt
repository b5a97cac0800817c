-- ===== src/Alloc/Session/Contents.antt =====
-- What the caller of lib/memory/src/memory.c reads from its allocations behind a sequence of calls.
use metrics_monitor.Base.{
  ℕ, ◌+◌, ◌≤◌, ◌<◌, ◌≡◌, ◌⊎◌, sym, ap, ◌∙◌, inl, inr, none, some, List, [], ◌∷◌, arith, leb, ◌==◌,
  All, Bool-cases,
}
use metrics_monitor.Memory.{null, store}
use metrics_monitor.Pairwise.{All-map}
use metrics_monitor.Alloc.State.{Os, IsMmap, Heap, set_method}
use metrics_monitor.Alloc.Choice.{IsPolicy}
use metrics_monitor.Alloc.Session.{
  Live, live, LiveApart, Written, note, forget, regrow, resized, grown, Inside, Without, Reach,
  start, given, released, written, choose, HeldIn,
}
use metrics_monitor.Alloc.Session.Held.{HeldIn-InUsed}
use metrics_monitor.Alloc.Session.Freed.{released-mem}
use metrics_monitor.Alloc.Session.Owner.{Without-All}
use metrics_monitor.Alloc.Session.Grown.{grown-Held, grown-here, grown-others}
use metrics_monitor.Alloc.Session.Resized.{resized-Held, resized-here, resized-others}
use metrics_monitor.Alloc.Session.Safe.{Reach-Held, call, same_heap, given-Held}

-- The heap has in the allocation what the caller wrote there last.
abbrev Reads : Written → Heap → Live → Type 0
Reads w h l = (y : ℕ) → Inside l y → (v : ℕ) → w y ≡ some v → h.mem y ≡ v

-- Allocations whose data stay read as before.
Reads-kept :
    (w : Written) (h h' : Heap) (ls : List Live)
    → All (λ (l : Live). (y : ℕ) → Inside l y → h'.mem y ≡ h.mem y) ls
    → All (Reads w h) ls
    → All (Reads w h') ls
Reads-kept w h h' [] k a = tt
Reads-kept w h h' (l ∷ ls) k a = (λ y i v e. k.0 y i ∙ a.0 y i v e, Reads-kept w h h' ls k.1 a.1)

forget_inside : (p n y : ℕ) (w : Written) → p ≤ y → y < p + n → forget p n w y ≡ none
unfolding forget
forget_inside p n y w lo hi = ground arith

forget_outside : (p n y : ℕ) (w : Written) → (y < p) ⊎ (p + n ≤ y) → forget p n w y ≡ w y
unfolding forget
forget_outside p n y w out = ground arith

regrow_whole : (l : Live) (n y : ℕ) (w : Written) → y + 8 ≤ l.addr + l.size → regrow l n w y ≡ w y
unfolding regrow
regrow_whole l n y w whole = ground arith

regrow_new :
    (l : Live) (n y : ℕ) (w : Written)
    → l.addr ≤ y
    → y < l.addr + n
    → l.addr + l.size < y + 8
    → regrow l n w y ≡ none
unfolding regrow
regrow_new l n y w lo hi new = ground arith

regrow_outside :
    (l : Live) (n y : ℕ) (w : Written) → (y < l.addr) ⊎ (l.addr + n ≤ y) → regrow l n w y ≡ w y
unfolding regrow
regrow_outside l n y w out = ground arith

-- What is noted elsewhere does not matter.
Reads-outside :
    (p n : ℕ) (w w' : Written) (h : Heap) (ls : List Live)
    → ((y : ℕ) → (y < p) ⊎ (p + n ≤ y) → w' y ≡ w y)
    → All (LiveApart (live p n)) ls
    → All (Reads w h) ls
    → All (Reads w' h) ls
Reads-outside p n w w' h [] same k a = tt
Reads-outside p n w w' h (l ∷ ls) same k a =
    (λ y i v e. a.0 y i v (sym (same y (away y i)) ∙ e), Reads-outside p n w w' h ls same k.1 a.1)
  where
    away : (y : ℕ) → Inside l y → (y < p) ⊎ (p + n ≤ y)
    away y i = ground (arith, k.0)

-- The allocation `l` in its new size.
Reads-regrow :
    (l : Live) (n : ℕ) (w : Written) (h h' : Heap)
    → ((y : ℕ) → Inside l y → Inside (live l.addr n) y → h'.mem y ≡ h.mem y)
    → Reads w h l
    → Reads (regrow l n w) h' (live l.addr n)
Reads-regrow l n w h h' same r y i v e = elim (Bool-cases (leb (y + 8) (l.addr + l.size))) [
  | inl whole ↦
      let k : y + 8 ≤ l.addr + l.size = ground arith in
      let o : Inside l y = (i.0, k, i.2) in same y o i ∙ r y o v (sym (regrow_whole l n y w k) ∙ e)
  | inr part ↦
      let new : regrow l n w y ≡ none = regrow_new l n y w i.0 (omega (arith, i)) (ground arith) in
      absurd (cc)
]

-- The allocations behind a call of `my_realloc` in place.
Reads-resized :
    (l : Live) (n : ℕ) (w : Written) (h h' : Heap) (ms : List Live)
    → ((y : ℕ) → Inside l y → Inside (live l.addr n) y → h'.mem y ≡ h.mem y)
    → All (λ (x : Live). (y : ℕ) → Inside x y → h'.mem y ≡ h.mem y) ms
    → All (LiveApart (live l.addr n)) ms
    → Reads w h l × All (Reads w h) ms
    → All (Reads (regrow l n w) h') (live l.addr n ∷ ms)
Reads-resized l n w h h' ms here others apart reads = (
  Reads-regrow l n w h h' here reads.0,
  Reads-outside l.addr n w (regrow l n w) h' ms (λ y out. regrow_outside l n y w out) apart
      (Reads-kept w h h' ms others reads.1),
)

Reads-note :
    (a v : ℕ) (w : Written) (h : Heap) (l : Live)
    → Reads w h l
    → Reads (note a v w) (record h { mem = store h.mem a v }) l
unfolding note store
Reads-note a v w h l r y i u e = elim (Bool-cases (y == a)) [
  | inl here ↦ let same : some v ≡ some u = rw here at e in rw here (ground (arith, same))
  | inr other ↦ let old : w y ≡ some u = rw other at e in rw other (r y i u old)
]

module _ (os : Os) (fuel : ℕ) (h0 : Heap) (works : IsMmap os) (policy : IsPolicy h0.method)
    (empty : h0.base ≡ null) where
  Reach-Reads :
      (k : ℕ) (h : Heap) (ls : List Live) (w : Written)
      → k < fuel
      → Reach os fuel h0 k h ls w
      → All (Reads w h) ls
  unfolding set_method
  Reach-Reads _ _ _ _ small start = tt
  Reach-Reads _ _ _ _ small (given {k} {h} {h'} {ls} {w} n p r proper runs got) =
      let H = Reach-Held os fuel h0 works policy empty k h ls w (omega arith) r in
      let c = call os works fuel k n h ls (omega arith) proper H in
      let same : c.heap ≡ h' = same_heap os works fuel k n h ls (omega arith) proper H h' p runs in
      let next = given-Held os works fuel k n h ls (omega arith) proper H h' p runs got in
      let stay = λ (l : Live) (held : HeldIn H.cells l) (y : ℕ) (i : Inside l y).
        ap (λ (g : Heap). g.mem y) (sym same) ∙ c.kept y (HeldIn-InUsed H.cells l y held i) in
      (
        λ y i v e. absurd (cc (forget_inside p n y w (omega (arith, i)) (omega (arith, i)))),
        Reads-outside p n w (forget p n w) h' ls (λ y out. forget_outside p n y w out)
            next.live_apart.0
            (Reads-kept w h h' ls (All-map ls stay H.held) (Reach-Reads k h ls w (omega arith) r)),
      )
  Reach-Reads _ _ _ _ small (Reach.refused {k} {h} {h'} {ls} {w} n r proper runs) =
      let H = Reach-Held os fuel h0 works policy empty k h ls w (omega arith) r in
      let c = call os works fuel k n h ls (omega arith) proper H in
      let same : c.heap ≡ h' =
        same_heap os works fuel k n h ls (omega arith) proper H h' null runs in
      let stay = λ (l : Live) (held : HeldIn H.cells l) (y : ℕ) (i : Inside l y).
        ap (λ (g : Heap). g.mem y) (sym same) ∙ c.kept y (HeldIn-InUsed H.cells l y held i) in
      Reads-kept w h h' ls (All-map ls stay H.held) (Reach-Reads k h ls w (omega arith) r)
  Reach-Reads _ _ _ _ small
        (released {k} {h} {h'} {ls} {ms} {w} l xs ys c r without shows at ok runs) =
      let H = Reach-Held os fuel h0 works policy empty k h ls w small r in
      let stay = λ (x : Live) (held : HeldIn H.cells x) (y : ℕ) (i : Inside x y).
        released-mem os fuel k h h' ls ms l xs ys c small H without shows at runs ok y
          (HeldIn-InUsed H.cells x y held i) in
      Reads-kept w h h' ms (All-map ms stay (Without-All (HeldIn H.cells) without H.held).1)
        (Without-All (Reads w h) without (Reach-Reads k h ls w small r)).1
  Reach-Reads _ _ _ _ small
        (resized {k} {h} {h'} {ls} {ms} {w} l n xs ys c r without ok shows at link fit runs) =
      let H = Reach-Held os fuel h0 works policy empty k h ls w (omega arith) r in
      let next =
        resized-Held os fuel k n h h' ls ms l xs ys c (omega arith) H without ok.0 ok.1 shows at
          link fit runs in
      let here =
        resized-here os fuel k n h h' ls ms l xs ys c (omega arith) H without ok.0 ok.1 shows at
          link fit runs in
      let others =
        resized-others os fuel k n h h' ls ms l xs ys c (omega arith) H without ok.0 ok.1 shows at
          link fit runs in
      let reads = Without-All (Reads w h) without (Reach-Reads k h ls w (omega arith) r) in
      Reads-resized l n w h h' ms (λ y o i. here y i) others next.live_apart.0 reads
  Reach-Reads _ _ _ _ small
        (grown {k} {h} {h'} {ls} {ms} {w} l n s xs ys zs c r without ok shows at link short grows
          side total head fit runs) =
      let H = Reach-Held os fuel h0 works policy empty k h ls w (omega arith) r in
      let next =
        grown-Held os fuel k n s h h' ls ms l xs ys zs c (omega arith) H without ok.0 ok.1 shows at
          link short grows side total head fit runs in
      let here =
        grown-here os fuel k n s h h' ls ms l xs ys zs c (omega arith) H without ok.0 ok.1 shows at
          link short grows side total head fit runs in
      let others =
        grown-others os fuel k n s h h' ls ms l xs ys zs c (omega arith) H without ok.0 ok.1 shows
          at link short grows side total head fit runs in
      let reads = Without-All (Reads w h) without (Reach-Reads k h ls w (omega arith) r) in
      Reads-resized l n w h h' ms here others next.live_apart.0 reads
  Reach-Reads _ _ _ _ small (written {k} {h} {ls} {ms} {w} l a v r without inside) =
      All-map ls (λ x reads. Reads-note a v w h x reads) (Reach-Reads k h ls w small r)
  Reach-Reads _ _ _ _ small (choose {k} {h} {ls} {w} method r ok) = Reach-Reads k h ls w small r

  -- With an `mmap` as documented, from an empty heap on, under one of the three policies, behind
  -- any sequence of steps of which fewer than the fuel are calls of `my_malloc` or `my_realloc`: a
  -- whole word of a live allocation that the caller wrote since it got the allocation holds what the
  -- caller wrote there last. The steps are calls of `my_malloc` with requests that do not overflow,
  -- calls of `my_realloc` that stay in place since the block is large enough, at once or with the
  -- free blocks that it swallows, calls of `set_method` with one of the policies, writes of the
  -- caller to whole words of its allocations, and calls of `my_free` of an allocation whose block
  -- has a wrong field `ptr`, or right links. The free blocks that a step swallows stand side by side
  -- behind the block, and the sizes from it on sum to less than 2^64.
  pub Reach-reads :
      (k : ℕ) (h : Heap) (ls ms : List Live) (w : Written) (l : Live) (y v : ℕ)
      → k < fuel
      → Reach os fuel h0 k h ls w
      → Without l ls ms
      → Inside l y
      → w y ≡ some v
      → h.mem y ≡ v
  Reach-reads k h ls ms w l y v small r without inside e =
      (Without-All (Reads w h) without (Reach-Reads k h ls w small r)).0 y inside v e
