-- ===== src/Alloc/Find/Worst.antt =====
-- The worst-fit loop of `find_block`.
use metrics_monitor.Base.{
  ℕ, zero, suc, ◌+◌, ◌≤◌, ◌<◌, ◌≡◌, ◌≢◌, refl, ◌⊎◌, inl, inr, true, some, List, [], ◌∷◌, arith,
  ==-false, Bool-cases, length, All,
}
use metrics_monitor.Memory.{Mem, null}
use metrics_monitor.Alloc.Words.{sub64}
use metrics_monitor.Alloc.Block.{size, next}
use metrics_monitor.Alloc.Chain.{IsChain, In, last_of}
use metrics_monitor.Alloc.Find.{fits, exact, further, worst_loop}

-- The answer `r` for the blocks `bs` when the worst block so far is `best`, with surplus `dif`:
-- no block of `bs` is exact or has a larger surplus, and `best` stays; or `r` is an exact block of
-- `bs`; or `r` is a largest block of `bs` that fits, with a larger surplus, and none is exact.
abbrev pub WorstFit : Mem → ℕ → ℕ → ℕ → List ℕ → ℕ → Type 0
WorstFit m s dif best bs r =
    ((r ≡ best) × All (λ b. fits m s b ≡ true → (size m b ≤ s + dif) × (size m b ≢ s)) bs)
    ⊎ (In r bs × (fits m s r ≡ true) × (size m r ≡ s))
    ⊎ (In r bs
        × (fits m s r ≡ true)
        × (s + dif < size m r)
        × All (λ b. fits m s b ≡ true → (size m b ≤ size m r) × (size m b ≢ s)) bs)

module _ (m : Mem) (s : ℕ) where
  WorstFit-skip :
      (dif best b r : ℕ) (bs : List ℕ)
      → (fits m s b ≡ true → (size m b ≤ s + dif) × (size m b ≢ s))
      → WorstFit m s dif best bs r
      → WorstFit m s dif best (b ∷ bs) r
  WorstFit-skip dif best b r bs h (inl (e, all)) = inl (e, (h, all))
  WorstFit-skip dif best b r bs h (inr (inl (i, f, e))) = inr (inl (inr i, f, e))
  WorstFit-skip dif best b r bs h (inr (inr (i, f, lt, all))) =
      inr (inr (inr i, f, lt, ((λ g. (omega (arith, (h g).0), (h g).1)), all)))

  All-le :
      (n k : ℕ) (bs : List ℕ)
      → n ≤ k
      → All (λ b. fits m s b ≡ true → (size m b ≤ n) × (size m b ≢ s)) bs
      → All (λ b. fits m s b ≡ true → (size m b ≤ k) × (size m b ≢ s)) bs
  All-le n k [] h a = tt
  All-le n k (b ∷ bs) h a = ((λ g. (omega (arith, (a.0 g).0), (a.0 g).1)), All-le n k bs h a.1)

  -- The block `b` becomes the worst one, with its own surplus `d`.
  WorstFit-take :
      (dif best b d r : ℕ) (bs : List ℕ)
      → fits m s b ≡ true
      → size m b ≡ s + d
      → dif < d
      → WorstFit m s d b bs r
      → WorstFit m s dif best (b ∷ bs) r
  WorstFit-take dif best b d r bs fit e lt (inl (same, all)) = inr (
      inr (
        inl same,
        rw same fit,
        rw same (omega arith),
        (
          (λ g. (rw same (omega arith), omega arith)),
          All-le (s + d) (size m r) bs (rw same (omega arith)) all,
        ),
      ))
  WorstFit-take dif best b d r bs fit e lt (inr (inl (i, f, x))) = inr (inl (inr i, f, x))
  WorstFit-take dif best b d r bs fit e lt (inr (inr (i, f, lt', all))) =
      inr (inr (inr i, f, omega arith, ((λ g. (omega arith, omega arith)), all)))

  pub record WorstResult (fuel p last dif best : ℕ) (bs : List ℕ) : Type 0 where
    pub block : ℕ
    pub end : ℕ
    pub returns : worst_loop m s fuel p last dif best ≡ some (block, end)
    pub fit : WorstFit m s dif best bs block
    pub at_end : block ≡ null → end ≡ last_of last bs

  pub worst_loop-WorstFit :
      s < 18446744073709551616
      → (fuel p last dif best : ℕ) (bs : List ℕ) → IsChain m p bs
      → All (λ b. size m b < 18446744073709551616) bs
      → length bs < fuel
      → WorstResult fuel p last dif best bs
  unfolding worst_loop
  worst_loop-WorstFit ws zero p last dif best bs c w h = absurd (omega arith)
  worst_loop-WorstFit ws (suc fuel) p last dif best [] c w h = record {
    block = best;
    end = last;
    returns = rw c refl;
    fit = inl (refl, tt);
    at_end = λ _. refl;
  }
  worst_loop-WorstFit ws (suc fuel) p last dif best (b ∷ bs) c w h =
      elim (Bool-cases (exact m s b)) [
        | inl hit ↦ record {
          block = b;
          end = last;
          returns = rw (c.0, hit, ==-false b 0 c.1) refl;
          fit = inr (inl (inl refl, ground arith, ground arith));
          at_end = λ e. absurd (c.1 e);
        }
        | inr miss ↦ elim (Bool-cases (further m s dif b)) [
          | inl take ↦
              let d' : ℕ = sub64 (size m b) s in
              let e : size m b ≡ s + d' = ground (arith, w.0) in
              let ih = worst_loop-WorstFit ws fuel (next m b) b d' b bs c.2 w.1 (omega arith) in
              record {
                block = ih.block;
                end = ih.end;
                returns = rw (c.0, miss, take, ==-false b 0 c.1) ih.returns;
                fit =
                    WorstFit-take dif best b d' ih.block bs (ground arith) e (ground arith) ih.fit;
                at_end = ih.at_end;
              }
          | inr skip ↦
              let ih = worst_loop-WorstFit ws fuel (next m b) b dif best bs c.2 w.1 (omega arith) in
              record {
                block = ih.block;
                end = ih.end;
                returns = rw (c.0, miss, skip, ==-false b 0 c.1) ih.returns;
                fit =
                    WorstFit-skip dif best b ih.block bs (λ g. (ground (arith, w.0), ground arith))
                      ih.fit;
                at_end = ih.at_end;
              }
        ]
      ]
