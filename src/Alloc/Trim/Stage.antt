-- ===== src/Alloc/Trim/Stage.antt =====
-- A round of `mem_trim` on a block that is not the last: how far the list is fused.
use metrics_monitor.Base.{
  ℕ, ◌+◌, ◌≤◌, ◌<◌, ◌≡◌, ◌≢◌, inl, inr, refl, sym, ap, ◌∙◌, true, some, List, [], ◌∷◌, ◌++◌, arith,
  ==-false, ==-refl, length, length-append, All, Bool-cases,
}
use mathlib.Core.Path.{subst}
use mathlib.Core.List.{append_assoc}
use metrics_monitor.Memory.{Mem, null}
use metrics_monitor.Pairwise.{Pairwise}
use metrics_monitor.Alloc.Block.{is_free, data_of}
use metrics_monitor.Alloc.State.{Os, Heap}
use metrics_monitor.Alloc.Ops.{valid_addr, fusion}
use metrics_monitor.Alloc.Layout.{Cell, Shows, Seen, HeadersApart, Shows-Seen}
use metrics_monitor.Alloc.Layout.Mark.{marked}
use metrics_monitor.Alloc.Layout.Fuse.{
  Clear-ptr, total_size, total_size-fuse_cells, fusion_loop-Shows,
}
use metrics_monitor.Alloc.Free.{free-Inner}
use metrics_monitor.Alloc.Valid.{valid_addr-block}
use metrics_monitor.Alloc.Trim.{PtrOk, Split, Split-fuse_cells, PtrOk-rest}
use metrics_monitor.Alloc.Trim.Round.{
  free_if_used, free_if_used-free, free_if_used-null, free_if_used-used,
}

-- The heap within a round: the block has swallowed some of those behind it.
pub record Stage (h h1 : Heap) (xs : List Cell) (c : Cell) (ys : List Cell) : Type 0 where
  pub head : Cell
  pub gone : List Cell
  pub rest : List Cell
  pub addr_eq : head.addr ≡ c.addr
  pub splits : ys ≡ gone ++ rest
  pub more : ys ≢ [] → rest ≢ []
  pub shows : Shows h1.mem h.base (xs ++ (head ∷ rest))
  pub apart : Pairwise HeadersApart (xs ++ (head ∷ rest))
  pub base_eq : h1.base ≡ h.base
  pub maps_eq : h1.maps ≡ h.maps
  pub ptrs : All (PtrOk h1.mem) rest
  pub total_eq : total_size (head ∷ rest) ≡ total_size (c ∷ ys)

Pairwise-right : (xs ys : List Cell) → Pairwise HeadersApart (xs ++ ys) → Pairwise HeadersApart ys
Pairwise-right [] ys p = p
Pairwise-right (x ∷ xs) ys p = Pairwise-right xs ys p.1

-- `fusion` of the first block takes one stage to the next.
pub Stage-fusion :
    (fuel : ℕ) (h h1 : Heap) (xs : List Cell) (c : Cell) (ys : List Cell)
    → length ys < fuel
    → total_size (c ∷ ys) < 18446744073709551616
    → Stage h h1 xs c ys
    → (m : Mem) × (fusion fuel c.addr h1.mem ≡ some m) × Stage h (record h1 { mem = m }) xs c ys
unfolding fusion
Stage-fusion fuel h h1 xs c ys enough total s =
    let short : length s.rest ≤ length ys =
      omega (arith, ap length s.splits, length-append s.gone s.rest) in
    let f =
      fusion_loop-Shows fuel h1.mem h.base xs s.rest s.head (omega arith) (rw s.total_eq total)
        s.apart s.shows in
    let seen : Seen h1.mem s.head = Shows-Seen h1.mem h.base xs s.rest s.head s.shows in
    let sp : Split s.head s.rest = Split-fuse_cells s.head s.rest in
    (
      f.mem,
      rw (← s.addr_eq, ==-false s.head.addr 0 seen.ne_null) f.runs,
      record {
        head = sp.head;
        gone = s.gone ++ sp.gone;
        rest = sp.rest;
        addr_eq = sp.addr_eq ∙ s.addr_eq;
        splits =
            s.splits ∙ ap (λ t. s.gone ++ t) sp.splits ∙ sym (append_assoc s.gone sp.gone sp.rest);
        more = λ ne. sp.more (s.more ne);
        shows = subst (λ t. Shows f.mem h.base (xs ++ t)) sp.cells_eq f.shows;
        apart = subst (λ t. Pairwise HeadersApart (xs ++ t)) sp.cells_eq f.apart;
        base_eq = s.base_eq;
        maps_eq = s.maps_eq;
        ptrs =
            PtrOk-rest h1.mem f.mem s.head s.rest sp.gone sp.rest sp.splits
              (Pairwise-right xs (s.head ∷ s.rest) s.apart)
              (λ x k. f.frame (x + 32) (Clear-ptr x (s.head ∷ s.rest) k)) s.ptrs;
        total_eq =
            ap total_size (sym sp.cells_eq) ∙ total_size-fuse_cells s.head s.rest ∙ s.total_eq;
      },
    )

module _ (os : Os) (fuel : ℕ) (h : Heap) (xs ys : List Cell) (c d : Cell)
    (enough : length (xs ++ (c ∷ d ∷ ys)) < fuel) (small : c.addr < 18446744073709551616)
    (total : total_size (c ∷ d ∷ ys) < 18446744073709551616) (ok : All (PtrOk h.mem) (c ∷ d ∷ ys))
    (apart : Pairwise HeadersApart (xs ++ (c ∷ d ∷ ys)))
    (sh : Shows h.mem h.base (xs ++ (c ∷ d ∷ ys))) where
  Stage-start : Stage h h xs c (d ∷ ys)
  Stage-start = record {
    head = c;
    gone = [];
    rest = d ∷ ys;
    addr_eq = refl;
    splits = refl;
    more = λ ne. ne;
    shows = sh;
    apart = apart;
    base_eq = refl;
    maps_eq = refl;
    ptrs = ok.1;
    total_eq = refl;
  }

  ne : c.addr ≢ null
  ne = (Shows-Seen h.mem h.base xs (d ∷ ys) c sh).ne_null

  behind : length (d ∷ ys) < fuel
  behind = omega (arith, length-append xs (c ∷ d ∷ ys))

  -- The first command of the round.
  pub Stage-free :
      (h1 : Heap) × (free_if_used os fuel c.addr h ≡ some (tt, h1)) × Stage h h1 xs c (d ∷ ys)
  unfolding total_size
  Stage-free = elim ok.0 [
    | inr null_ptr ↦ (h, free_if_used-null os fuel h c ne (omega arith) null_ptr, Stage-start)
    | inl link ↦ elim (Bool-cases (is_free h.mem c.addr)) [
      | inl free ↦ (h, free_if_used-free os fuel h c ne (omega arith) free, Stage-start)
      | inr used ↦
          let valid : valid_addr fuel (data_of c.addr) h ≡ some true =
            valid_addr-block fuel h xs (d ∷ ys) c enough small apart sh
            ∙ ap some (rw link (==-refl (data_of c.addr))) in
          let i = free-Inner os fuel h c valid small xs ys d behind total apart sh in
          let sp : Split (marked 1 c) (d ∷ ys) = Split-fuse_cells (marked 1 c) (d ∷ ys) in
          (
            i.heap,
            free_if_used-used os fuel h c ne (omega arith) used link ∙ i.runs,
            record {
              head = sp.head;
              gone = sp.gone;
              rest = sp.rest;
              addr_eq = sp.addr_eq;
              splits = sp.splits;
              more = sp.more;
              shows = subst (λ t. Shows i.heap.mem h.base (xs ++ t)) sp.cells_eq i.shows;
              apart = subst (λ t. Pairwise HeadersApart (xs ++ t)) sp.cells_eq i.apart;
              base_eq = i.base_eq;
              maps_eq = i.maps_eq;
              ptrs =
                  PtrOk-rest h.mem i.heap.mem c (d ∷ ys) sp.gone sp.rest sp.splits
                    (Pairwise-right xs (c ∷ d ∷ ys) apart)
                    (λ x k. i.frame (x + 32) (Clear-ptr x (c ∷ d ∷ ys) k)) ok.1;
              total_eq =
                  ap total_size (sym sp.cells_eq) ∙ total_size-fuse_cells (marked 1 c) (d ∷ ys);
            },
          )
    ]
  ]
