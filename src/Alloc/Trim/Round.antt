-- ===== src/Alloc/Trim/Round.antt =====
-- One round of the loop of `mem_trim`, on the last block of the list and on any other.
use metrics_monitor.Base.{
  ℕ, ◌<◌, ◌≡◌, ◌≢◌, inl, inr, refl, ap, ◌∙◌, true, false, Option, some, List, [], ◌∷◌, ◌++◌, arith,
  ◌==◌, ==-false, ==-refl, if◌then◌else◌, length, Bool-cases,
}
use metrics_monitor.Memory.{Mem, null, store}
use metrics_monitor.Pairwise.{Pairwise}
use metrics_monitor.Alloc.Block.{next, is_free, ptr, data_of, set_free}
use metrics_monitor.Alloc.State.{Os, Heap, log_handler}
use metrics_monitor.Alloc.Ops.{valid_addr, fusion}
use metrics_monitor.Alloc.Api.{drop_last, free_entry, my_free, trim_step}
use metrics_monitor.Alloc.Layout.{Cell, Shows, HeadersApart, Shows-tail}
use metrics_monitor.Alloc.Layout.Mark.{set_free-next}
use metrics_monitor.Alloc.Release.{release_lem, log_handler-fields, fusion_loop-end}
use metrics_monitor.Alloc.Free.{my_free-release}
use metrics_monitor.Alloc.Valid.{valid_addr-block}
use metrics_monitor.Alloc.Trim.{PtrOk}

-- The first command of a round.
abbrev pub free_if_used : Os → ℕ → ℕ → Heap → Option (Unit {0} × Heap)
free_if_used os fuel b h = if is_free h.mem b then some (tt, h) else my_free os fuel (ptr h.mem b) h

-- The end of a round.
abbrev pub ended : ℕ → Heap → Heap
ended b h = if next h.mem b == null then record h { base = null } else h

pub trim_step_lem :
    (os : Os) (fuel b : ℕ) (h h1 : Heap) (m : Mem)
    → free_if_used os fuel b h ≡ some (tt, h1)
    → fusion fuel b h1.mem ≡ some m
    → trim_step os fuel b h ≡ some (next m b, ended b (record h1 { mem = m }))
unfolding trim_step
trim_step_lem os fuel b h h1 m e f = elim (Bool-cases (is_free h.mem b)) [
  | inl free ↦ ground (arith, e, f, free)
  | inr used ↦ ground (arith, e, f, used)
]

my_free-null : (os : Os) (fuel : ℕ) (h : Heap) → my_free os fuel null h ≡ some (tt, h)
unfolding my_free valid_addr
my_free-null os fuel h = refl

drop_last-next :
    (b : ℕ) (h : Heap)
    → next h.mem b ≡ null
    → (next (drop_last b h).mem b ≡ null) × ((drop_last b h).maps ≡ h.maps)
unfolding drop_last store
drop_last-next b h e = ground arith

log-next :
    (os : Os) (p b : ℕ) (h : Heap)
    → (next (log_handler os (free_entry p) h).mem b ≡ next h.mem b)
      × ((log_handler os (free_entry p) h).maps ≡ h.maps)
log-next os p b h = let f = log_handler-fields os p h in (ap (λ (m : Mem). next m b) f.0, f.2)

-- The last block: it is freed if it is used, the list has ended, and `base` becomes NULL.
pub record Last (os : Os) (fuel : ℕ) (h : Heap) (c : Cell) : Type 0 where
  pub heap : Heap
  pub runs : trim_step os fuel c.addr h ≡ some (null, heap)
  pub base_eq : heap.base ≡ null
  pub maps_eq : heap.maps ≡ h.maps

module _ (os : Os) (fuel : ℕ) (h : Heap) (c : Cell) (ne : c.addr ≢ null) (pos : 0 < fuel) where
  -- After the first command of the round, if the list still ends at the block.
  Last-of :
      (h1 : Heap)
      → free_if_used os fuel c.addr h ≡ some (tt, h1)
      → next h1.mem c.addr ≡ null
      → h1.maps ≡ h.maps
      → Last os fuel h c
  unfolding fusion
  Last-of h1 e end maps =
      let f : fusion fuel c.addr h1.mem ≡ some h1.mem =
        rw (==-false c.addr 0 ne) (fusion_loop-end fuel c.addr h1.mem pos end) in
      record {
        heap = record h1 { base = null };
        runs = trim_step_lem os fuel c.addr h h1 h1.mem e f ∙ rw end refl;
        base_eq = refl;
        maps_eq = maps;
      }

  pub free_if_used-free : is_free h.mem c.addr ≡ true → free_if_used os fuel c.addr h ≡ some (tt, h)
  free_if_used-free free = rw free refl

  pub free_if_used-null : ptr h.mem c.addr ≡ null → free_if_used os fuel c.addr h ≡ some (tt, h)
  free_if_used-null e = elim (Bool-cases (is_free h.mem c.addr)) [
    | inl free ↦ rw free refl
    | inr used ↦ rw (used, e) (my_free-null os fuel h)
  ]

  pub free_if_used-used :
      is_free h.mem c.addr ≡ false
      → ptr h.mem c.addr ≡ data_of c.addr
      → free_if_used os fuel c.addr h ≡ my_free os fuel (data_of c.addr) h
  free_if_used-used used e = rw (used, e) refl

  pub trim_step-Last :
      (xs : List Cell)
      → length (xs ++ (c ∷ [])) < fuel
      → c.addr < 18446744073709551616
      → PtrOk h.mem c
      → Pairwise HeadersApart (xs ++ (c ∷ []))
      → Shows h.mem h.base (xs ++ (c ∷ []))
      → Last os fuel h c
  unfolding fusion
  trim_step-Last xs enough small ok apart sh =
      let end : next h.mem c.addr ≡ null = Shows-tail h.mem h.base xs [] c sh in
      elim ok [
        | inr null_ptr ↦ Last-of h (free_if_used-null null_ptr) end refl
        | inl link ↦ elim (Bool-cases (is_free h.mem c.addr)) [
          | inl free ↦ Last-of h (free_if_used-free free) end refl
          | inr used ↦
              let valid : valid_addr fuel (data_of c.addr) h ≡ some true =
                valid_addr-block fuel h xs [] c enough small apart sh
                ∙ ap some (rw link (==-refl (data_of c.addr))) in
              let m1 : Mem = set_free h.mem c.addr 1 in
              let end1 : next m1 c.addr ≡ null = set_free-next h.mem c.addr 1 ∙ end in
              let d = drop_last-next c.addr (record h { mem = m1 }) end1 in
              let l =
                log-next os (data_of c.addr) c.addr (drop_last c.addr (record h { mem = m1 })) in
              Last-of
                (log_handler os (free_entry (data_of c.addr))
                  (drop_last c.addr (record h { mem = m1 })))
                (free_if_used-used used link
                  ∙ my_free-release os fuel h c valid small
                  ∙ release_lem os fuel c.addr (data_of c.addr) h m1
                      (rw (==-false c.addr 0 ne) (fusion_loop-end fuel c.addr m1 pos end1)))
                (l.0 ∙ d.0) (l.1 ∙ d.1)
        ]
      ]
