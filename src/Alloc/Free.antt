-- ===== src/Alloc/Free.antt =====
-- `my_free` of lib/memory/src/memory.c on the block list.
pub mod Keep
pub mod Ready
use metrics_monitor.Base.{
  ℕ, All, ◌+◌, ◌≤◌, ◌<◌, ◌≡◌, ◌⊎◌, inl, inr, refl, sym, ap, ◌∙◌, true, false, some, List, [], ◌∷◌,
  ◌++◌, map, arith, ◌==◌, ==-false, ==-refl, length, length-append,
}
use mathlib.Core.Path.{subst}
use mathlib.Core.List.{append_assoc}
use metrics_monitor.Memory.{Mem, null}
use metrics_monitor.Pairwise.{Pairwise, All-append, All-left, All-right}
use metrics_monitor.Alloc.Block.{next, prev, data_of, set_free, set_next}
use metrics_monitor.Alloc.State.{Os, Heap, log_handler}
use metrics_monitor.Alloc.Chain.{last_of}
use metrics_monitor.Alloc.Places.{addr_of, Snoc, Snoc-of}
use metrics_monitor.Alloc.Ops.{valid_addr, fusion}
use metrics_monitor.Alloc.Api.{drop_last, free_entry, release, my_free}
use metrics_monitor.Alloc.Layout.{Cell, Shows, Seen, HeadersApart, Shows-Seen, Shows-tail}
use metrics_monitor.Alloc.Layout.Mark.{
  marked, set_free-Shows, set_free-next, set_free-prev, set_free-frame,
}
use metrics_monitor.Alloc.Layout.Links.{Links, Links-front, set_free-Links}
use metrics_monitor.Alloc.Layout.Fuse.{fuse_cells, total_size, Clear, fusion_loop-Shows}
use metrics_monitor.Alloc.Release.{
  Linked, cut-Shows, release_lem, log_handler-fields, fusion_loop-end, relabel, Shows-eq,
  drop_last-fields, drop_last-frame, drop_last-Links, Clear-last, drop_last-none, drop_last-some,
}
use metrics_monitor.Alloc.Valid.{get_block-data_of, valid_addr-block}

-- What `my_free` makes of the list around the block `c`: the last block leaves the list, any other
-- becomes free and swallows the free blocks behind it.
unfoldable pub free_cells : List Cell → Cell → List Cell → List Cell
free_cells xs c [] = xs
free_cells xs c (d ∷ ys) = xs ++ fuse_cells (marked 1 c) (d ∷ ys)

-- The result of `my_free` on the block `c` between `xs` and `ys`.
pub record Freed (os : Os) (fuel : ℕ) (h : Heap) (xs : List Cell) (c : Cell) (ys : List Cell)
    : Type 0 where
  pub heap : Heap
  pub runs : my_free os fuel (data_of c.addr) h ≡ some (tt, heap)
  pub shows : Shows heap.mem heap.base (free_cells xs c ys)
  pub apart : Pairwise HeadersApart (free_cells xs c ys)
  pub maps_eq : heap.maps ≡ h.maps
  pub method_eq : heap.method ≡ h.method
  pub frame : (y : ℕ) → All (Clear y) (xs ++ (c ∷ ys)) → heap.mem y ≡ h.mem y
  pub links : Links h.mem null (xs ++ (c ∷ ys)) → Links heap.mem null (free_cells xs c ys)

module _ (os : Os) (fuel : ℕ) (h : Heap) (c : Cell)
    (valid : valid_addr fuel (data_of c.addr) h ≡ some true)
    (small : c.addr < 18446744073709551616) where
  pub my_free-release :
      my_free os fuel (data_of c.addr) h ≡ release os fuel c.addr (data_of c.addr) h
  unfolding my_free
  my_free-release = rw (valid, my_free, get_block-data_of c.addr small) refl

  -- The block becomes free and swallows those behind it; it is not the last one.
  pub record Inner (xs : List Cell) (ys : List Cell) : Type 0 where
    pub heap : Heap
    pub runs : my_free os fuel (data_of c.addr) h ≡ some (tt, heap)
    pub shows : Shows heap.mem h.base (xs ++ fuse_cells (marked 1 c) ys)
    pub apart : Pairwise HeadersApart (xs ++ fuse_cells (marked 1 c) ys)
    pub base_eq : heap.base ≡ h.base
    pub maps_eq : heap.maps ≡ h.maps
    pub method_eq : heap.method ≡ h.method
    pub frame : (y : ℕ) → All (Clear y) (c ∷ ys) → heap.mem y ≡ h.mem y
    pub links :
        (q : ℕ)
        → Links h.mem q (xs ++ (c ∷ ys))
        → Links heap.mem q (xs ++ fuse_cells (marked 1 c) ys)

  pub free-Inner :
      (xs ys : List Cell) (d : Cell)
      → length (d ∷ ys) < fuel
      → total_size (c ∷ d ∷ ys) < 18446744073709551616
      → Pairwise HeadersApart (xs ++ (c ∷ d ∷ ys))
      → Shows h.mem h.base (xs ++ (c ∷ d ∷ ys))
      → Inner xs (d ∷ ys)
  unfolding drop_last fusion total_size
  free-Inner xs ys d enough total apart sh =
      let seen : Seen h.mem c = Shows-Seen h.mem h.base xs (d ∷ ys) c sh in
      let res =
        fusion_loop-Shows fuel (set_free h.mem c.addr 1) h.base xs (d ∷ ys) (marked 1 c) enough
          total (relabel c xs (d ∷ ys) apart)
          (set_free-Shows h.mem h.base 1 xs (d ∷ ys) c (omega arith) apart sh) in
      let h' : Heap = drop_last c.addr (record h { mem = res.mem }) in
      let stays : (next res.mem c.addr == null) ≡ false =
        ==-false (next res.mem c.addr) 0 (res.more (λ e. cc)) in
      let f = log_handler-fields os (data_of c.addr) h' in
      record {
        heap = log_handler os (free_entry (data_of c.addr)) h';
        runs =
            my_free-release
            ∙ release_lem os fuel c.addr (data_of c.addr) h res.mem
                (rw (==-false c.addr 0 seen.ne_null) res.runs);
        shows = rw (f.0, stays) res.shows;
        apart = res.apart;
        base_eq = rw (f.1, stays) refl;
        maps_eq = f.2 ∙ (drop_last-fields c.addr (record h { mem = res.mem })).0;
        method_eq = f.3 ∙ (drop_last-fields c.addr (record h { mem = res.mem })).1;
        frame =
            λ y k. rw (f.0, stays) (res.frame y (k.0, k.1) ∙ set_free-frame h.mem c.addr 1 y k.0);
        links = λ q l.
            rw (f.0, stays)
              (res.links q (set_free-Links h.mem q 1 xs (d ∷ ys) c (marked 1 c) refl apart l));
      }

  -- The last block leaves the list: its predecessor, which its field `prev` names, becomes the
  -- last one, or the list becomes empty.
  free-last :
      (xs : List Cell)
      → 0 < fuel
      → prev h.mem c.addr ≡ last_of null (map addr_of xs)
      → Pairwise HeadersApart (xs ++ (c ∷ []))
      → Shows h.mem h.base (xs ++ (c ∷ []))
      → Freed os fuel h xs c []
  unfolding free_cells fusion total_size
  free-last xs pos link apart sh =
      let seen : Seen h.mem c = Shows-Seen h.mem h.base xs [] c sh in
      let m1 : Mem = set_free h.mem c.addr 1 in
      let end : next m1 c.addr ≡ null =
        set_free-next h.mem c.addr 1 ∙ Shows-tail h.mem h.base xs [] c sh in
      let h' : Heap = drop_last c.addr (record h { mem = m1 }) in
      let f = log_handler-fields os (data_of c.addr) h' in
      record {
        heap = log_handler os (free_entry (data_of c.addr)) h';
        runs =
            my_free-release
            ∙ release_lem os fuel c.addr (data_of c.addr) h m1
                (rw (==-false c.addr 0 seen.ne_null) (fusion_loop-end fuel c.addr m1 pos end));
        shows =
            rw (f.0, f.1)
              (dropped xs m1 end (set_free-prev h.mem c.addr 1 ∙ link) apart
                (set_free-Shows h.mem h.base 1 xs [] c (omega arith) apart sh));
        apart = front xs apart;
        maps_eq = f.2 ∙ (drop_last-fields c.addr (record h { mem = m1 })).0;
        method_eq = f.3 ∙ (drop_last-fields c.addr (record h { mem = m1 })).1;
        frame = λ y k. rw (f.0) (
            drop_last-frame c.addr y (record h { mem = m1 })
              (link_clear y xs (set_free-prev h.mem c.addr 1 ∙ link) (All-left _ xs (c ∷ []) k))
            ∙ set_free-frame h.mem c.addr 1 y (All-right (Clear y) xs (c ∷ []) k).0);
        links = λ l. rw (f.0) (
            drop_last-Links c.addr null (record h { mem = m1 }) xs
              (set_free-prev h.mem c.addr 1 ∙ link) (front xs apart)
              (Links-front m1 null xs (c ∷ [])
                (set_free-Links h.mem null 1 xs [] c c refl apart l)));
      }
    where
      link_clear :
          (y : ℕ) (zs : List Cell)
          → prev (set_free h.mem c.addr 1) c.addr ≡ last_of null (map addr_of zs)
          → All (Clear y) zs
          → (prev (set_free h.mem c.addr 1) c.addr ≡ null)
            ⊎ (y < prev (set_free h.mem c.addr 1) c.addr)
            ⊎ (prev (set_free h.mem c.addr 1) c.addr + 32 ≤ y)
      link_clear y [] l k = inl l
      link_clear y (z ∷ zs) l k =
          let d = Clear-last y null z zs k in inr (omega (arith, d.1, d.2, l))

      front : (zs : List Cell) → Pairwise HeadersApart (zs ++ (c ∷ [])) → Pairwise HeadersApart zs
      front [] a = tt
      front (z ∷ zs) a = (All-left _ zs _ a.0, front zs a.1)

      front' :
          (zs : List Cell) (x : Cell)
          → Pairwise HeadersApart (zs ++ (x ∷ c ∷ []))
          → Pairwise HeadersApart (zs ++ (x ∷ marked 1 c ∷ []))
      front' [] x a = a
      front' (z ∷ zs) x a = (
        All-append _ zs _ (All-left _ zs _ a.0) (All-right _ zs (x ∷ c ∷ []) a.0),
        front' zs x a.1,
      )

      dropped :
          (zs : List Cell) (m1 : Mem)
          → next m1 c.addr ≡ null
          → prev m1 c.addr ≡ last_of null (map addr_of zs)
          → Pairwise HeadersApart (zs ++ (c ∷ []))
          → Shows m1 h.base (zs ++ (marked 1 c ∷ []))
          → Shows
              (drop_last c.addr (record h { mem = m1 })).mem
              (drop_last c.addr (record h { mem = m1 })).base
              zs
      dropped [] m1 e l a s = (drop_last-none c.addr (record h { mem = m1 }) e l).1
      dropped (z ∷ zs) m1 e l a s =
          let end : Snoc z zs = Snoc-of z zs in
          let x : Cell = end.final in
          let s' : Shows m1 h.base ((end.front ++ (x ∷ [])) ++ (marked 1 c ∷ [])) =
            subst (λ t. Shows m1 h.base (t ++ (marked 1 c ∷ []))) end.splits s in
          let a' : Pairwise HeadersApart ((end.front ++ (x ∷ [])) ++ (c ∷ [])) =
            subst (λ t. Pairwise HeadersApart (t ++ (c ∷ []))) end.splits a in
          let s'' : Shows m1 h.base (end.front ++ (x ∷ marked 1 c ∷ [])) = rw append_assoc at s' in
          let a'' : Pairwise HeadersApart (end.front ++ (x ∷ c ∷ [])) = rw append_assoc at a' in
          let x_seen : Seen m1 x = Shows-Seen m1 h.base end.front (marked 1 c ∷ []) x s'' in
          let d =
            drop_last-some c.addr x.addr (record h { mem = m1 }) x_seen.ne_null e
              (l ∙ end.ends null) in
          Shows-eq _ _ _ _ (z ∷ zs) d.0 d.1 (
            subst (λ t. Shows (set_next m1 x.addr null) h.base t) (sym end.splits)
              (cut-Shows m1 h.base end.front (marked 1 c ∷ []) x (front' end.front x a'') s''))

-- `my_free` of the data address of a block whose links are right, with fuel beyond the length of
-- the list, headers that do not overlap and a total size below 2^64: it ends, and leaves exactly
-- the list that `free_cells` describes, whose headers do not overlap.
pub my_free-Freed :
    (os : Os) (fuel : ℕ) (h : Heap) (xs : List Cell) (c : Cell) (ys : List Cell)
    → length (xs ++ (c ∷ ys)) < fuel
    → c.addr < 18446744073709551616
    → total_size (c ∷ ys) < 18446744073709551616
    → Linked h.mem xs c
    → Pairwise HeadersApart (xs ++ (c ∷ ys))
    → Shows h.mem h.base (xs ++ (c ∷ ys))
    → Freed os fuel h xs c ys
unfolding free_cells
my_free-Freed os fuel h xs c [] enough small total l apart sh =
    let valid : valid_addr fuel (data_of c.addr) h ≡ some true =
      valid_addr-block fuel h xs [] c enough small apart sh
      ∙ ap some (rw l.data_link (==-refl (data_of c.addr))) in
    free-last os fuel h c valid small xs (omega arith) l.back_link apart sh
my_free-Freed os fuel h xs c (d ∷ ys) enough small total l apart sh =
    let valid : valid_addr fuel (data_of c.addr) h ≡ some true =
      valid_addr-block fuel h xs (d ∷ ys) c enough small apart sh
      ∙ ap some (rw l.data_link (==-refl (data_of c.addr))) in
    let i =
      free-Inner os fuel h c valid small xs ys d (omega (arith, length-append xs (c ∷ d ∷ ys)))
        total apart sh in
    record {
      heap = i.heap;
      runs = i.runs;
      shows = rw i.base_eq i.shows;
      apart = i.apart;
      maps_eq = i.maps_eq;
      method_eq = i.method_eq;
      frame = λ y k. i.frame y (All-right (Clear y) xs (c ∷ d ∷ ys) k);
      links = λ l. i.links null l;
    }
