-- ===== src/Alloc/Layout/Fuse.antt =====
-- `fusion` seen on the block list.
use metrics_monitor.Base.{
  ℕ, zero, suc, ◌+◌, ◌≤◌, ◌<◌, ◌≡◌, ◌≢◌, refl, sym, ◌∙◌, inl, inr, ◌⊎◌, true, false, some, List, [],
  ◌∷◌, ◌++◌, arith, ==-false, if◌then◌else◌, Bool-cases, All, length,
}
use metrics_monitor.Memory.{Mem, null}
use metrics_monitor.Pairwise.{Pairwise, around}
use metrics_monitor.Alloc.Block.{next}
use metrics_monitor.Alloc.Layout.Links.{Links}
use metrics_monitor.Alloc.Ops.{fuse_step, fuses, fusion_loop, fusion}
use metrics_monitor.Alloc.Layout.{
  Cell, Shows, Seen, Apart, HeadersApart, HeadersApart-sym, Shows-Seen, Shows-tail,
}
use metrics_monitor.Alloc.Layout.Step.{
  fuse_step-Shows, fuse_step-Links, fuse_step-apart, fuse_step-frame,
}

-- The block `c` swallows the free blocks behind it, but never the last one of the list. The
-- 40 bytes of a swallowed header are not counted.
unfoldable pub fuse_cells : Cell → List Cell → List Cell
fuse_cells c [] = c ∷ []
fuse_cells c (d ∷ []) = c ∷ d ∷ []
fuse_cells c (d ∷ e ∷ r) =
    if d.is_free then fuse_cells (record c { size = c.size + d.size }) (e ∷ r) else c ∷ d ∷ e ∷ r

unfoldable pub total_size : List Cell → ℕ
total_size [] = 0
total_size (c ∷ cs) = c.size + total_size cs

-- The address `y` is outside the first four words of the header.
abbrev pub Clear : ℕ → Cell → Type 0
Clear y z = (y < z.addr) ⊎ (z.addr + 32 ≤ y)

-- What keeps the words outside these keeps the fields `ptr` of headers.
pub Clear-ptr :
    (x : ℕ) (cs : List Cell)
    → All (λ (z : Cell). (x ≡ z.addr) ⊎ Apart z.addr x) cs
    → All (Clear (x + 32)) cs
Clear-ptr x [] a = tt
Clear-ptr x (z ∷ cs) a = (ground (arith, a.0), Clear-ptr x cs a.1)

pub record Fused (fuel : ℕ) (m : Mem) (p : ℕ) (xs : List Cell) (c : Cell) (ys : List Cell)
    : Type 0 where
  pub mem : Mem
  pub runs : fusion_loop fuel c.addr m ≡ some mem
  pub shows : Shows mem p (xs ++ fuse_cells c ys)
  pub apart : Pairwise HeadersApart (xs ++ fuse_cells c ys)
  pub more : ys ≢ [] → next mem c.addr ≢ null
  pub frame : (y : ℕ) → All (Clear y) (c ∷ ys) → mem y ≡ m y
  pub links : (q : ℕ) → Links m q (xs ++ (c ∷ ys)) → Links mem q (xs ++ fuse_cells c ys)

pub fusion_loop-Shows :
    (fuel : ℕ) (m : Mem) (p : ℕ) (xs ys : List Cell) (c : Cell)
    → length ys < fuel
    → total_size (c ∷ ys) < 18446744073709551616
    → Pairwise HeadersApart (xs ++ (c ∷ ys))
    → Shows m p (xs ++ (c ∷ ys))
    → Fused fuel m p xs c ys
unfolding fusion_loop fuse_cells total_size
fusion_loop-Shows zero m p xs ys c h b apart sh = absurd (omega arith)
fusion_loop-Shows (suc fuel) m p xs [] c h b apart sh =
    let t = Shows-tail m p xs [] c sh in
    record {
      mem = m;
      runs = rw t refl;
      shows = sh;
      apart = apart;
      more = λ ne. absurd (ne refl);
      frame = λ y k. refl;
      links = λ q l. l;
    }
fusion_loop-Shows (suc fuel) m p xs (d ∷ []) c h b apart sh =
    let t = Shows-tail m p xs (d ∷ []) c sh in
    record {
      mem = m;
      runs = ground (arith, t);
      shows = sh;
      apart = apart;
      more = λ ne e. t.1 (sym t.0 ∙ e);
      frame = λ y k. refl;
      links = λ q l. l;
    }
fusion_loop-Shows (suc fuel) m p xs (d ∷ e ∷ r) c h b apart sh =
    let t = Shows-tail m p xs (d ∷ e ∷ r) c sh in
    elim (Bool-cases d.is_free) [
      | inl free ↦
          let ih =
            fusion_loop-Shows fuel (fuse_step c.addr m) p xs (e ∷ r)
              (record c { size = c.size + d.size }) (omega arith) (omega arith)
              (fuse_step-apart xs r c d e _ apart)
              (fuse_step-Shows m p xs r c d e (omega arith) apart sh) in
          let near = around HeadersApart HeadersApart-sym xs (d ∷ e ∷ r) c apart in
          let go : fuses c.addr m ≡ true = ground (arith, t) in
          record {
            mem = ih.mem;
            runs = rw go ih.runs;
            shows = simp free ih.shows;
            apart = simp free ih.apart;
            more = λ _. ih.more (λ e. cc);
            frame = λ y k.
                ih.frame y (k.0, k.1.1)
                ∙ fuse_step-frame m c.addr d.addr e.addr t.0 t.4.0 t.4.1 near.1.1.0 near.1.0 y k.0
                    k.1.1.0;
            links = λ q l. simp free (ih.links q (fuse_step-Links m p q xs r c d e _ apart sh l));
          }
      | inr used ↦
          let stop : fuses c.addr m ≡ false = ground (arith, t) in
          record {
            mem = m;
            runs = rw stop refl;
            shows = simp used sh;
            apart = simp used apart;
            more = λ ne e. t.1 (sym t.0 ∙ e);
            frame = λ y k. refl;
            links = λ q l. simp used l;
          }
    ]

-- `fusion` ends, given fuel beyond the number of blocks behind `c`, headers that do not overlap
-- and a total size below 2^64; the list becomes the one that `fuse_cells` describes, and its
-- headers do not overlap.
pub fusion-fuse_cells :
    (fuel : ℕ) (m : Mem) (p : ℕ) (xs ys : List Cell) (c : Cell)
    → length ys < fuel
    → total_size (c ∷ ys) < 18446744073709551616
    → Pairwise HeadersApart (xs ++ (c ∷ ys))
    → Shows m p (xs ++ (c ∷ ys))
    → (m' : Mem) × (fusion fuel c.addr m ≡ some m')
      × Shows m' p (xs ++ fuse_cells c ys)
      × Pairwise HeadersApart (xs ++ fuse_cells c ys)
unfolding fusion
fusion-fuse_cells fuel m p xs ys c h b apart sh =
    let r = fusion_loop-Shows fuel m p xs ys c h b apart sh in
    let seen : Seen m c = Shows-Seen m p xs ys c sh in
    (r.mem, rw (==-false c.addr 0 seen.ne_null) r.runs, r.shows, r.apart)

-- Fusing neither loses nor makes up bytes of data.
pub total_size-fuse_cells :
    (c : Cell) (ys : List Cell) → total_size (fuse_cells c ys) ≡ total_size (c ∷ ys)
unfolding fuse_cells total_size
total_size-fuse_cells c [] = refl
total_size-fuse_cells c (d ∷ []) = refl
total_size-fuse_cells c (d ∷ e ∷ r) =
    ground (arith, total_size-fuse_cells (record c { size = c.size + d.size }) (e ∷ r))
