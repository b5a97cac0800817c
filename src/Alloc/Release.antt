-- ===== src/Alloc/Release.antt =====
-- The parts of `my_free` of lib/memory/src/memory.c: the mark, the fusion and the last block.
use metrics_monitor.Base.{
  ℕ, zero, suc, ◌+◌, ◌≤◌, ◌<◌, ◌≡◌, ◌⊎◌, inl, inr, ◌∙◌, All, ◌≢◌, refl, sym, some, List, [], ◌∷◌,
  ◌++◌, map, arith,
}
use mathlib.Core.Path.{subst}
use metrics_monitor.Memory.{Mem, null, store}
use metrics_monitor.Pairwise.{Pairwise, around, All-append, All-left, All-right, All-map}
use metrics_monitor.Alloc.Block.{next, prev, ptr, data_of, set_free, set_next}
use metrics_monitor.Alloc.State.{Os, Heap, log_handler}
use metrics_monitor.Alloc.Chain.{last_of}
use metrics_monitor.Alloc.Places.{addr_of, Snoc, Snoc-of}
use metrics_monitor.Alloc.Layout.Links.{Links, SameLinks, Links-frame}
use metrics_monitor.Alloc.Ops.{fusion, fusion_loop}
use metrics_monitor.Alloc.Api.{drop_last, free_entry, release}
use metrics_monitor.Alloc.Layout.{
  Apart, Cell, Shows, Seen, HeadersApart, HeadersApart-sym, SameHeader, Shows-Seen, Shows-split,
}
use metrics_monitor.Alloc.Layout.Mark.{marked}
use metrics_monitor.Alloc.Layout.Fuse.{Clear}

-- The links of the block `c`: its field `ptr` is its data address, and `prev` its predecessor.
pub record Linked (m : Mem) (xs : List Cell) (c : Cell) : Type 0 where
  pub data_link : ptr m c.addr ≡ data_of c.addr
  pub back_link : prev m c.addr ≡ last_of null (map addr_of xs)

-- The list ends at `x` once its link is NULL.
pub cut-Shows :
    (m : Mem) (p : ℕ) (xs zs : List Cell) (x : Cell)
    → Pairwise HeadersApart (xs ++ (x ∷ zs))
    → Shows m p (xs ++ (x ∷ zs))
    → Shows (set_next m x.addr null) p (xs ++ (x ∷ []))
unfolding store
cut-Shows m p xs zs x apart sh =
    let seen : Seen m x = Shows-Seen m p xs zs x sh in
    let near = around HeadersApart HeadersApart-sym xs zs x apart in
    let m' : Mem = set_next m x.addr null in
    Shows-split m m' p xs zs [] x x refl
      (record {
        ne_null = seen.ne_null;
        size_eq = ground (arith, seen.size_eq);
        free_eq = ground (arith, seen.free_eq);
      })
      (λ q e r. ground arith) (All-map xs (λ (d : Cell) (h : HeadersApart x d). others d h) near.0)
      sh
  where
    others : (d : Cell) → HeadersApart x d → SameHeader m (set_next m x.addr null) d.addr
    others d h = ground arith

pub release_lem :
    (os : Os) (fuel b p : ℕ) (h : Heap) (m : Mem)
    → fusion fuel b (set_free h.mem b 1) ≡ some m
    → release os fuel b p h
      ≡ some (tt, log_handler os (free_entry p) (drop_last b (record h { mem = m })))
unfolding release
release_lem os fuel b p h m e = ground arith

pub log_handler-fields :
    (os : Os) (p : ℕ) (h : Heap)
    → ((log_handler os (free_entry p) h).mem ≡ h.mem)
      × ((log_handler os (free_entry p) h).base ≡ h.base)
      × ((log_handler os (free_entry p) h).maps ≡ h.maps)
      × ((log_handler os (free_entry p) h).method ≡ h.method)
unfolding log_handler
log_handler-fields os p h = ground arith

pub fusion_loop-end :
    (fuel b : ℕ) (m : Mem) → 0 < fuel → next m b ≡ null → fusion_loop fuel b m ≡ some m
unfolding fusion_loop
fusion_loop-end zero b m h e = absurd (omega arith)
fusion_loop-end (suc fuel) b m h e = rw e refl

-- The marks do not matter for the place of the headers.
pub relabel :
    (c : Cell) (zs ws : List Cell)
    → Pairwise HeadersApart (zs ++ (c ∷ ws))
    → Pairwise HeadersApart (zs ++ (marked 1 c ∷ ws))
relabel c [] ws a = a
relabel c (z ∷ zs) ws a =
    (All-append _ zs _ (All-left _ zs _ a.0) (All-right _ zs (c ∷ ws) a.0), relabel c zs ws a.1)

pub Shows-eq :
    (m m' : Mem) (p p' : ℕ) (cs : List Cell) → m ≡ m' → p ≡ p' → Shows m' p' cs → Shows m p cs
Shows-eq m m' p p' cs e f s =
    subst (λ k. Shows k p cs) (sym e) (subst (λ q. Shows m' q cs) (sym f) s)

-- `drop_last` on the last block `b` with the predecessor `q`.
pub drop_last-none :
    (b : ℕ) (h : Heap)
    → next h.mem b ≡ null
    → prev h.mem b ≡ null
    → ((drop_last b h).mem ≡ h.mem) × ((drop_last b h).base ≡ null)
unfolding drop_last
drop_last-none b h e l = ground arith

pub drop_last-some :
    (b q : ℕ) (h : Heap)
    → q ≢ null
    → next h.mem b ≡ null
    → prev h.mem b ≡ q
    → ((drop_last b h).mem ≡ set_next h.mem q null) × ((drop_last b h).base ≡ h.base)
unfolding drop_last
drop_last-some b q h ne e l = ground arith

pub drop_last-fields :
    (b : ℕ) (h : Heap) → ((drop_last b h).maps ≡ h.maps) × ((drop_last b h).method ≡ h.method)
unfolding drop_last
drop_last-fields b h = ground arith

-- The last block of a list is clear of `y` if all are.
pub Clear-last :
    (y base : ℕ) (c : Cell) (cs : List Cell)
    → All (Clear y) (c ∷ cs)
    → (d : Cell) × (d.addr ≡ last_of base (map addr_of (c ∷ cs))) × Clear y d
Clear-last y base c [] a = (c, refl, a.0)
Clear-last y base c (d ∷ cs) a = Clear-last y c.addr d cs a.1

-- `drop_last` writes only the link of the predecessor.
pub drop_last-frame :
    (b y : ℕ) (h : Heap)
    → (prev h.mem b ≡ null) ⊎ (y < prev h.mem b) ⊎ (prev h.mem b + 32 ≤ y)
    → (drop_last b h).mem y ≡ h.mem y
unfolding drop_last store
drop_last-frame b y h clear = ground arith

drop_last-SameLinks :
    (b x : ℕ) (h : Heap)
    → (prev h.mem b ≡ null) ⊎ (x ≡ prev h.mem b) ⊎ Apart (prev h.mem b) x
    → SameLinks h.mem (drop_last b h).mem x
unfolding drop_last store
drop_last-SameLinks b x h k = ground arith

-- `drop_last` changes no `prev` and no `ptr` of the blocks before.
pub drop_last-Links :
    (b q : ℕ) (h : Heap) (xs : List Cell)
    → prev h.mem b ≡ last_of null (map addr_of xs)
    → Pairwise HeadersApart xs
    → Links h.mem q xs
    → Links (drop_last b h).mem q xs
drop_last-Links b q h [] e apart l = tt
drop_last-Links b q h (z ∷ zs) e apart l =
    let end : Snoc z zs = Snoc-of z zs in
    let x : Cell = end.final in
    let at : prev h.mem b ≡ x.addr = e ∙ end.ends null in
    let near =
      around HeadersApart HeadersApart-sym end.front [] x
        (subst (Pairwise HeadersApart) end.splits apart) in
    let same =
      λ (d : Cell) (k : HeadersApart x d). drop_last-SameLinks b d.addr h (inr (inr (rw at k))) in
    Links-frame h.mem (drop_last b h).mem q (z ∷ zs)
      (subst (All (λ (d : Cell). SameLinks h.mem (drop_last b h).mem d.addr)) (sym end.splits) (
        All-append _ end.front (x ∷ []) (All-map end.front same near.0)
          (drop_last-SameLinks b x.addr h (inr (inl (sym at))), tt)))
      l
