-- ===== src/Alloc/Malloc/Undo.antt =====
-- `my_malloc` and then `my_free` of what it returned, in lib/memory/src/memory.c.
use metrics_monitor.Base.{
  ℕ, ◌+◌, ◌≤◌, ◌<◌, ◌≡◌, ◌≢◌, refl, sym, ◌∙◌, false, some, List, [], ◌∷◌, ◌++◌, arith, ◌==◌,
  ==-false, if◌then◌else◌, length, length-append,
}
use mathlib.Core.Path.{subst}
use metrics_monitor.Memory.{null}
use metrics_monitor.Pairwise.{All-right}
use metrics_monitor.Alloc.Words.{align}
use metrics_monitor.Alloc.Block.{data_of}
use metrics_monitor.Alloc.State.{Os, IsMmap, Heap, Method, round_page}
use metrics_monitor.Alloc.Api.{my_malloc, my_free}
use metrics_monitor.Alloc.Layout.{Cell, cell, Shows}
use metrics_monitor.Alloc.Layout.Take.{Pairwise-HeadersApart}
use metrics_monitor.Alloc.Layout.Fuse.{total_size}
use metrics_monitor.Alloc.Choice.{IsPolicy, NoneChosen, Choice}
use metrics_monitor.Alloc.Invariant.{HeapInv, InSpace}
use metrics_monitor.Alloc.Release.{Linked}
use metrics_monitor.Alloc.Free.{free_cells, my_free-Freed}
use metrics_monitor.Alloc.Malloc.{reused, extended, refused}
use metrics_monitor.Alloc.Malloc.Run.{my_malloc-Malloced}

-- A policy does not choose a block where none is eligible.
pub not-Choice :
    (method : Method) (s b : ℕ) (cs : List Cell) → NoneChosen method s cs → Choice method s cs b → ⊥
not-Choice Method.first_fit s b cs n ch =
    let a =
      All-right _ ch.front (ch.chosen ∷ ch.back)
        (subst (NoneChosen Method.first_fit s) ch.splits n) in
    ground (arith, a.0, ch.suited)
not-Choice Method.best_fit s b cs n ch =
    let a =
      All-right _ ch.front (ch.chosen ∷ ch.back)
        (subst (NoneChosen Method.best_fit s) ch.splits n) in
    omega (arith, a.0 ch.suited, ch.optimal.0)
not-Choice Method.worst_fit s b cs n ch =
    let a =
      All-right _ ch.front (ch.chosen ∷ ch.back)
        (subst (NoneChosen Method.worst_fit s) ch.splits n) in
    ground (arith, a.0, ch.suited)
not-Choice (Method.other _) s b cs n ch = ch.optimal

-- The new block is the last one, and its links are right.
free_extended :
    (os : Os) (fuel s b : ℕ) (h : Heap) (cs : List Cell)
    → length cs + 1 < fuel
    → HeapInv h (cs ++ (cell b s false ∷ []))
    → Linked h.mem cs (cell b s false)
    → (h2 : Heap) × (my_free os fuel (data_of b) h ≡ some (tt, h2)) × Shows h2.mem h2.base cs
unfolding free_cells total_size
free_extended os fuel s b h cs enough inv linked =
    let c : Cell = cell b s false in
    let space : InSpace c = (All-right InSpace cs (c ∷ []) inv.in_space).0 in
    let f =
      my_free-Freed os fuel h cs c [] (omega (arith, length-append cs (c ∷ [])))
        (omega (arith, space)) (omega (arith, space)) linked
        (Pairwise-HeadersApart (cs ++ (c ∷ [])) inv.apart) inv.shows in
    (f.heap, f.runs, f.shows)

-- When no free block is eligible and the system gives a region, `my_free` of the address that
-- `my_malloc` returned takes the new block out of the list again: the list is the one from before.
-- The request, the policy, the heap and the fuel are as for `my_malloc`, with one unit more.
pub my_malloc-my_free :
    (os : Os) (fuel n : ℕ) (h h1 : Heap) (cs : List Cell) (p : ℕ)
    → IsMmap os
    → IsPolicy h.method
    → length cs + 1 < fuel
    → 0 < n
    → n + 8 ≤ 18446744073709551616
    → align n + 40 ≤ round_page (align n)
    → HeapInv h cs
    → NoneChosen h.method (align n) cs
    → my_malloc os fuel n h ≡ some (p, h1)
    → p ≢ null
    → (h2 : Heap) × (my_free os fuel p h1 ≡ some (tt, h2)) × Shows h2.mem h2.base cs
my_malloc-my_free os fuel n h h1 cs p works pol enough pos bound room inv none_fit runs got =
    let r = my_malloc-Malloced os fuel n h cs works pol (omega arith) pos bound room inv in
    let same = sym r.runs ∙ runs in
    let heap_eq : r.heap ≡ h1 = cc in
    let p_eq : (if r.block == null then null else data_of r.block) ≡ p = cc in
    elim r.placement [
      | reused ch e ne ↦ absurd (not-Choice h.method (align n) r.block cs none_fit ch)
      | extended no_one ne cells_eq linked ↦
          let at : data_of r.block ≡ p = rw (==-false r.block 0 ne) at p_eq in
          let f =
            free_extended os fuel (align n) r.block r.heap cs enough (rw cells_eq at r.inv)
              linked in
          (f.0, subst (λ k. my_free os fuel p k ≡ some (tt, f.0)) heap_eq (rw at at f.1), f.2)
      | refused no_one z e ↦ absurd (got (sym p_eq ∙ rw z refl))
    ]
