-- ===== src/Alloc/Layout/Step.antt =====
-- One round of `fusion` seen on the block list.
use metrics_monitor.Base.{
  ℕ, ◌+◌, ◌≤◌, ◌<◌, ◌≡◌, ◌≢◌, refl, ◌∙◌, inl, inr, ◌⊎◌, List, [], ◌∷◌, ◌++◌, arith,
}
use metrics_monitor.Memory.{Mem, null, store}
use metrics_monitor.Pairwise.{All-both, Pairwise, around, All-append, All-left, All-right}
use mathlib.Core.List.{append_assoc}
use metrics_monitor.Alloc.Words.{add64}
use metrics_monitor.Alloc.Block.{next, prev, ptr}
use metrics_monitor.Alloc.Layout.Links.{Links, SameLinks, Links-frame, Links-suffix}
use metrics_monitor.Alloc.Ops.{fuse_step}
use metrics_monitor.Alloc.Layout.{
  Cell, Shows, Seen, Apart, HeadersApart, HeadersApart-sym, SameHeader, Shows-Seen, Shows-split,
  Shows-frame, Shows-tail,
}

module _ (m : Mem) (b d e : ℕ) (hd : next m b ≡ d) (he : next m d ≡ e) (ne : e ≢ null)
    (be : Apart b e) (bd : Apart b d) where
  fuse_step_other : (x : ℕ) → Apart b x → Apart e x → SameHeader m (fuse_step b m) x
  unfolding fuse_step store
  fuse_step_other x h k = ground arith

  fuse_step_end : SameHeader m (fuse_step b m) e
  unfolding fuse_step store
  fuse_step_end = ground arith

  fuse_step-size : fuse_step b m b ≡ add64 (m b) (m d)
  unfolding fuse_step store
  fuse_step-size = ground arith

  fuse_step-next : next (fuse_step b m) b ≡ e
  unfolding fuse_step store
  fuse_step-next = ground arith

  fuse_step-free : fuse_step b m (b + 24) ≡ m (b + 24)
  unfolding fuse_step store
  fuse_step-free = ground arith

  fuse_step-prev_end : prev (fuse_step b m) e ≡ b
  unfolding fuse_step store
  fuse_step-prev_end = ground arith

  fuse_step-SameLinks : (x : ℕ) → (x ≡ b) ⊎ Apart b x → Apart e x → SameLinks m (fuse_step b m) x
  unfolding fuse_step store
  fuse_step-SameLinks x h k = ground arith

  fuse_step-ptr_end : ptr (fuse_step b m) e ≡ ptr m e
  unfolding fuse_step store
  fuse_step-ptr_end = ground arith

  -- A round writes only the first four words of headers.
  pub fuse_step-frame :
      (y : ℕ) → (y < b) ⊎ (b + 32 ≤ y) → (y < e) ⊎ (e + 32 ≤ y) → fuse_step b m y ≡ m y
  unfolding fuse_step store
  fuse_step-frame y kb ke = ground arith

-- One round: `c` swallows the free block `d`, which is not the last one.
pub fuse_step-Shows :
    (m : Mem) (p : ℕ) (xs r : List Cell) (c d e : Cell)
    → c.size + d.size < 18446744073709551616
    → Pairwise HeadersApart (xs ++ (c ∷ d ∷ e ∷ r))
    → Shows m p (xs ++ (c ∷ d ∷ e ∷ r))
    → Shows (fuse_step c.addr m) p (xs ++ (record c { size = c.size + d.size } ∷ e ∷ r))
fuse_step-Shows m p xs r c d e bound apart sh =
    let hb = around HeadersApart HeadersApart-sym xs (d ∷ e ∷ r) c apart in
    let he =
      around HeadersApart HeadersApart-sym (xs ++ (c ∷ d ∷ [])) r e (rw append_assoc apart) in
    let tail : Shows m (next m c.addr) (d ∷ e ∷ r) = Shows-tail m p xs (d ∷ e ∷ r) c sh in
    let hd : next m c.addr ≡ d.addr = tail.0 in
    let hn : next m d.addr ≡ e.addr = tail.4.0 in
    let ne : e.addr ≢ null = tail.4.1 in
    let be : Apart c.addr e.addr = hb.1.1.0 in
    let bd : Apart c.addr d.addr = hb.1.0 in
    let m' : Mem = fuse_step c.addr m in
    let frame = λ (x : Cell) (h : HeadersApart c x) (k : HeadersApart e x).
      fuse_step_other m c.addr d.addr e.addr hd hn ne be bd x.addr h k in
    let seen : Seen m c = Shows-Seen m p xs (d ∷ e ∷ r) c sh in
    Shows-split m m' p xs (d ∷ e ∷ r) (e ∷ r) c (record c { size = c.size + d.size }) refl
      (record {
        ne_null = seen.ne_null;
        size_eq =
            fuse_step-size m c.addr d.addr e.addr hd hn ne be bd
            ∙ rw (seen.size_eq, tail.2) (omega arith);
        free_eq = rw (fuse_step-free m c.addr d.addr e.addr hd hn ne be bd) seen.free_eq;
      })
      (λ q eq s. rw (fuse_step-next m c.addr d.addr e.addr hd hn ne be bd) (
        Shows-frame m m' e.addr (e ∷ r)
          (fuse_step_end m c.addr d.addr e.addr hd hn ne be bd, All-both r frame hb.1.1.1 he.1)
          (rw hn at tail.4)))
      (All-both xs frame hb.0 (All-left _ xs _ he.0)) sh

-- The block behind is linked to `c`, and no other link changes.
pub fuse_step-Links :
    (m : Mem) (p q : ℕ) (xs r : List Cell) (c d e : Cell) (n : ℕ)
    → Pairwise HeadersApart (xs ++ (c ∷ d ∷ e ∷ r))
    → Shows m p (xs ++ (c ∷ d ∷ e ∷ r))
    → Links m q (xs ++ (c ∷ d ∷ e ∷ r))
    → Links (fuse_step c.addr m) q (xs ++ (record c { size = n } ∷ e ∷ r))
fuse_step-Links m p q xs r c d e n apart sh l =
    let hb = around HeadersApart HeadersApart-sym xs (d ∷ e ∷ r) c apart in
    let he =
      around HeadersApart HeadersApart-sym (xs ++ (c ∷ d ∷ [])) r e (rw append_assoc apart) in
    let tail : Shows m (next m c.addr) (d ∷ e ∷ r) = Shows-tail m p xs (d ∷ e ∷ r) c sh in
    let m' : Mem = fuse_step c.addr m in
    let ec : Apart e.addr c.addr = HeadersApart-sym c e hb.1.1.0 in
    let same = λ (x : ℕ) (h : (x ≡ c.addr) ⊎ Apart c.addr x) (k : Apart e.addr x).
      fuse_step-SameLinks m c.addr d.addr e.addr tail.0 tail.4.0 tail.4.1 hb.1.1.0 hb.1.0 x h k in
    let here = same c.addr (inl refl) ec in
    Links-suffix m m' q xs (c ∷ d ∷ e ∷ r) (record c { size = n } ∷ e ∷ r)
      (All-both xs (λ x h k. same x.addr (inr h) k) hb.0 (All-left _ xs _ he.0))
      (λ p' t. (
        here.1 ∙ t.0,
        here.0 ∙ t.1,
        (
          fuse_step-ptr_end m c.addr d.addr e.addr tail.0 tail.4.0 tail.4.1 hb.1.1.0 hb.1.0
              ∙ t.2.2.0,
          fuse_step-prev_end m c.addr d.addr e.addr tail.0 tail.4.0 tail.4.1 hb.1.1.0 hb.1.0,
          Links-frame m m' e.addr r (All-both r (λ x h k. same x.addr (inr h) k) hb.1.1.1 he.1)
              t.2.2.2,
        ),
      ))
      l

pub fuse_step-apart :
    (xs r : List Cell) (c d e : Cell) (n : ℕ)
    → Pairwise HeadersApart (xs ++ (c ∷ d ∷ e ∷ r))
    → Pairwise HeadersApart (xs ++ (record c { size = n } ∷ e ∷ r))
fuse_step-apart [] r c d e n h = (h.0.1, h.1.1)
fuse_step-apart (x ∷ xs) r c d e n h = (
  All-append _ xs _ (All-left _ xs _ h.0)
      (let k = All-right _ xs (c ∷ d ∷ e ∷ r) h.0 in (k.0, k.1.1)),
  fuse_step-apart xs r c d e n h.1,
)
