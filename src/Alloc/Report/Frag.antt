-- ===== src/Alloc/Report/Frag.antt =====
-- What `external_frag` of lib/memory/src/memory.c computes, on the block list.
use Prim.Native.Nat.{max}
use metrics_monitor.Base.{
  ℕ, zero, suc, ◌<◌, ◌≡◌, refl, ap, ◌∙◌, inl, inr, Bool-cases, ◌&&◌, some, List, [], ◌∷◌, arith,
  ==-false, ltb, if◌then◌else◌, length, map,
}
use metrics_monitor.Memory.{Mem}
use metrics_monitor.Double.{Double}
use metrics_monitor.Alloc.Block.{next}
use metrics_monitor.Alloc.State.{Heap}
use metrics_monitor.Alloc.Layout.{Cell, Shows}
use metrics_monitor.Alloc.Report.{max_loop, frag_loop, external_frag}

-- The largest block in use.
unfoldable pub max_used : List Cell → ℕ
max_used [] = 0
max_used (c ∷ cs) = max (if c.is_free then 0 else c.size) (max_used cs)

-- The sizes of the free blocks that are smaller than `n`.
unfoldable pub unusable : ℕ → List Cell → List ℕ
unusable n [] = []
unusable n (c ∷ cs) =
    let rest = unusable n cs in if c.is_free && ltb c.size n then c.size ∷ rest else rest

max_loop-max_used :
    (m : Mem) (fuel p acc : ℕ) (cs : List Cell)
    → length cs < fuel
    → Shows m p cs
    → max_loop fuel p acc m ≡ some (max acc (max_used cs))
unfolding max_loop max_used
max_loop-max_used m zero p acc cs h sh = absurd (omega arith)
max_loop-max_used m (suc fuel) p acc [] h sh = ground arith
max_loop-max_used m (suc fuel) p acc (c ∷ cs) h sh = elim (Bool-cases c.is_free) [
  | inl free ↦ ground (arith, max_loop-max_used m fuel (next m c.addr) acc cs (omega arith) sh.4)
  | inr used ↦ elim (Bool-cases (ltb acc c.size)) [
    | inl larger ↦
        ground (arith, max_loop-max_used m fuel (next m c.addr) c.size cs (omega arith) sh.4)
    | inr smaller ↦
        ground (arith, max_loop-max_used m fuel (next m c.addr) acc cs (omega arith) sh.4)
  ]
]

module _ (D : Double) where
  open D use {Carrier, of_ℕ, add, mul, div}

  -- The sum of some sizes, in the order of the list.
  unfoldable pub sum_sizes : Carrier → List ℕ → Carrier
  sum_sizes acc [] = acc
  sum_sizes acc (n ∷ ns) = sum_sizes (add acc (of_ℕ n)) ns

  frag_loop-sums :
      (m : Mem) (fuel p maxs : ℕ) (a b : Carrier) (cs : List Cell)
      → length cs < fuel
      → Shows m p cs
      → frag_loop D fuel p maxs a b m
        ≡ some (sum_sizes a (unusable maxs cs), sum_sizes b (map (λ (c : Cell). c.size) cs))
  unfolding frag_loop sum_sizes unusable
  frag_loop-sums m zero p maxs a b cs h sh = absurd (omega arith)
  frag_loop-sums m (suc fuel) p maxs a b [] h sh = rw sh refl
  frag_loop-sums m (suc fuel) p maxs a b (c ∷ cs) h sh =
      elim (Bool-cases (c.is_free && ltb c.size maxs)) [
        | inl counts ↦
            rw (sh.0, ==-false c.addr 0 sh.1, sh.2, sh.3, counts)
              (frag_loop-sums m fuel (next m c.addr) maxs (add a (of_ℕ c.size))
                (add b (of_ℕ c.size)) cs (omega arith) sh.4)
        | inr other ↦
            rw (sh.0, ==-false c.addr 0 sh.1, sh.2, sh.3, other)
              (frag_loop-sums m fuel (next m c.addr) maxs a (add b (of_ℕ c.size)) cs (omega arith)
                sh.4)
      ]

  -- `external_frag` is 100 times the share of the free blocks that are smaller than the largest
  -- block in use, by size, in the total size of the list; each sum is taken in list order from 0,
  -- in `double` arithmetic, and the fuel exceeds the length of the list.
  pub external_frag-share :
      (fuel : ℕ) (h : Heap) (cs : List Cell)
      → length cs < fuel
      → Shows h.mem h.base cs
      → external_frag D fuel h
        ≡ some (
            mul
              (div
                (sum_sizes (of_ℕ 0) (unusable (max_used cs) cs))
                (sum_sizes (of_ℕ 0) (map (λ (c : Cell). c.size) cs)))
              (of_ℕ 100))
  unfolding external_frag
  external_frag-share fuel h cs enough sh =
      let top : max_loop fuel h.base 0 h.mem ≡ some (max_used cs) =
        max_loop-max_used h.mem fuel h.base 0 cs enough sh ∙ ap some (omega arith) in
      rw
        (
          top,
          external_frag,
          frag_loop-sums h.mem fuel h.base (max_used cs) (of_ℕ 0) (of_ℕ 0) cs enough sh,
        )
        refl
