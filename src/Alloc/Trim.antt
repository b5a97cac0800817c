-- ===== src/Alloc/Trim.antt =====
-- `mem_trim` of lib/memory/src/memory.c: one round of its loop on the block list.
pub mod Round
pub mod Stage
pub mod Loop
use metrics_monitor.Base.{
  ℕ, ◌+◌, ◌≤◌, ◌<◌, ◌≡◌, ◌≢◌, ◌⊎◌, inl, inr, refl, sym, ap, ◌∙◌, Bool, true, false, Option, some,
  List, [], ◌∷◌, ◌++◌, arith, ◌==◌, ==-false, ==-refl, if◌then◌else◌, length, length-append, All,
  Bool-cases,
}
use mathlib.Core.Path.{subst}
use metrics_monitor.Memory.{Mem, null, store}
use metrics_monitor.Pairwise.{Pairwise, All-left, All-right, All-map}
use metrics_monitor.Alloc.Block.{next, prev, is_free, ptr, data_of}
use metrics_monitor.Alloc.State.{Os, Heap, log_handler}
use metrics_monitor.Alloc.Ops.{valid_addr, fusion}
use metrics_monitor.Alloc.Api.{drop_last, free_entry, my_free, trim_step}
use metrics_monitor.Alloc.Layout.{
  Cell, Shows, Seen, Apart, HeadersApart, HeadersApart-sym, Shows-Seen, Shows-tail,
}
use metrics_monitor.Alloc.Layout.Mark.{marked, set_free-next}
use metrics_monitor.Alloc.Layout.Fuse.{
  fuse_cells, total_size, total_size-fuse_cells, Fused, fusion_loop-Shows,
}
use metrics_monitor.Alloc.Release.{release_lem, log_handler-fields, fusion_loop-end}
use metrics_monitor.Alloc.Free.{free-Inner, Inner}
use metrics_monitor.Alloc.Valid.{valid_addr-block}

-- The field `ptr` of a header is its data address or NULL, as in the headers that `extend_heap` and
-- `split_block` make in fresh memory.
abbrev pub PtrOk : Mem → Cell → Type 0
PtrOk m c = (ptr m c.addr ≡ data_of c.addr) ⊎ (ptr m c.addr ≡ null)

-- What `fuse_cells` leaves: the first block, with a new size, and an end of the list behind it.
pub record Split (c : Cell) (ys : List Cell) : Type 0 where
  pub head : Cell
  pub gone : List Cell
  pub rest : List Cell
  pub cells_eq : fuse_cells c ys ≡ head ∷ rest
  pub addr_eq : head.addr ≡ c.addr
  pub splits : ys ≡ gone ++ rest
  pub more : ys ≢ [] → rest ≢ []

pub Split-fuse_cells : (c : Cell) (ys : List Cell) → Split c ys
unfolding fuse_cells
Split-fuse_cells c [] = record {
  head = c;
  gone = [];
  rest = [];
  cells_eq = refl;
  addr_eq = refl;
  splits = refl;
  more = λ h. h;
}
Split-fuse_cells c (d ∷ []) = record {
  head = c;
  gone = [];
  rest = d ∷ [];
  cells_eq = refl;
  addr_eq = refl;
  splits = refl;
  more = λ h. h;
}
Split-fuse_cells c (d ∷ e ∷ r) = elim (Bool-cases d.is_free) [
  | inl free ↦
      let ih = Split-fuse_cells (record c { size = c.size + d.size }) (e ∷ r) in
      record {
        head = ih.head;
        gone = d ∷ ih.gone;
        rest = ih.rest;
        cells_eq = rw free ih.cells_eq;
        addr_eq = ih.addr_eq;
        splits = ap (λ t. d ∷ t) ih.splits;
        more = λ h. ih.more (λ e. cc);
      }
  | inr used ↦ record {
    head = c;
    gone = [];
    rest = d ∷ e ∷ r;
    cells_eq = rw used refl;
    addr_eq = refl;
    splits = refl;
    more = λ h. h;
  }
]

-- The headers of a list that do not overlap, compared with one of them.
abbrev Near : List Cell → Cell → Type 0
Near cs z = All (λ (w : Cell). (z.addr ≡ w.addr) ⊎ Apart w.addr z.addr) cs

Near-self : (cs : List Cell) → Pairwise HeadersApart cs → All (Near cs) cs
Near-self [] p = tt
Near-self (x ∷ cs) p = (
  (inl refl, All-map cs (λ w h. inr (HeadersApart-sym x w h)) p.0),
  both cs p.0 (Near-self cs p.1),
)
  where
    both : (zs : List Cell) → All (HeadersApart x) zs → All (Near cs) zs → All (Near (x ∷ cs)) zs
    both [] a b = tt
    both (z ∷ zs) a b = ((inr a.0, b.0), both zs a.1 b.1)

-- The fields `ptr` of an end of the list survive what changes none of the list's.
PtrOk-rest :
    (m m' : Mem) (c : Cell) (ys gone rest : List Cell)
    → ys ≡ gone ++ rest
    → Pairwise HeadersApart (c ∷ ys)
    → ((x : ℕ) → All (λ (z : Cell). (x ≡ z.addr) ⊎ Apart z.addr x) (c ∷ ys) → ptr m' x ≡ ptr m x)
    → All (PtrOk m) ys
    → All (PtrOk m') rest
PtrOk-rest m m' c ys gone rest e apart keep ok =
    All-right (PtrOk m') gone rest
      (subst (All (PtrOk m')) e (both ys (Near-self (c ∷ ys) apart).1 ok))
  where
    both : (zs : List Cell) → All (Near (c ∷ ys)) zs → All (PtrOk m) zs → All (PtrOk m') zs
    both [] a b = tt
    both (z ∷ zs) a b = (one (keep z.addr a.0) b.0, both zs a.1 b.1)
      where
        one : ptr m' z.addr ≡ ptr m z.addr → PtrOk m z → PtrOk m' z
        one k (inl h) = inl (k ∙ h)
        one k (inr h) = inr (k ∙ h)
