-- ===== src/Alloc/Find/Best.antt =====
-- The best-fit loop of `find_block`.
use metrics_monitor.Base.{
  ℕ, zero, suc, ◌+◌, ◌≤◌, ◌<◌, ◌≡◌, refl, ◌⊎◌, inl, inr, true, some, List, [], ◌∷◌, arith, ==-false,
  Bool-cases, length, All,
}
use metrics_monitor.Memory.{Mem, null}
use metrics_monitor.Alloc.Words.{sub64}
use metrics_monitor.Alloc.Block.{size, next}
use metrics_monitor.Alloc.Chain.{IsChain, In, last_of}
use metrics_monitor.Alloc.Find.{fits, exact, closer, best_loop}

-- The answer `r` for the blocks `bs` when the best block so far is `best`, with surplus `dif`:
-- either no block of `bs` fits with a smaller surplus and `best` stays, or `r` is a block of `bs`
-- that fits with a smaller surplus, and no block of `bs` that fits is smaller.
abbrev pub BestFit : Mem → ℕ → ℕ → ℕ → List ℕ → ℕ → Type 0
BestFit m s dif best bs r =
    ((r ≡ best) × All (λ b. fits m s b ≡ true → s + dif ≤ size m b) bs)
    ⊎ (In r bs
        × (fits m s r ≡ true)
        × (size m r < s + dif)
        × All (λ b. fits m s b ≡ true → size m r ≤ size m b) bs)

module _ (m : Mem) (s : ℕ) where
  -- A block that is passed over has no smaller surplus.
  BestFit-skip :
      (dif best b r : ℕ) (bs : List ℕ)
      → (fits m s b ≡ true → s + dif ≤ size m b)
      → BestFit m s dif best bs r
      → BestFit m s dif best (b ∷ bs) r
  BestFit-skip dif best b r bs h (inl (e, all)) = inl (e, (h, all))
  BestFit-skip dif best b r bs h (inr (i, f, lt, all)) =
      inr (inr i, f, lt, ((λ g. omega (arith, h g)), all))

  All-ge :
      (n k : ℕ) (bs : List ℕ)
      → n ≤ k
      → All (λ b. fits m s b ≡ true → k ≤ size m b) bs
      → All (λ b. fits m s b ≡ true → n ≤ size m b) bs
  All-ge n k [] h a = tt
  All-ge n k (b ∷ bs) h a = ((λ g. omega (arith, a.0 g)), All-ge n k bs h a.1)

  -- The block `b` becomes the best one, with its own surplus `d`.
  BestFit-take :
      (dif best b d r : ℕ) (bs : List ℕ)
      → fits m s b ≡ true
      → size m b ≡ s + d
      → d < dif
      → BestFit m s d b bs r
      → BestFit m s dif best (b ∷ bs) r
  BestFit-take dif best b d r bs fit e lt (inl (same, all)) = inr (
    inl same,
    rw same fit,
    rw same (omega arith),
    ((λ g. rw same (omega arith)), All-ge (size m r) (s + d) bs (rw same (omega arith)) all),
  )
  BestFit-take dif best b d r bs fit e lt (inr (i, f, lt', all)) =
      inr (inr i, f, omega arith, ((λ g. omega arith), all))

  All-of_exact : (n : ℕ) (bs : List ℕ) → n ≡ s → All (λ b. fits m s b ≡ true → n ≤ size m b) bs
  All-of_exact n [] e = tt
  All-of_exact n (b ∷ bs) e = ((λ g. ground arith), All-of_exact n bs e)

  pub record BestResult (fuel p last dif best : ℕ) (bs : List ℕ) : Type 0 where
    pub block : ℕ
    pub end : ℕ
    pub returns : best_loop m s fuel p last dif best ≡ some (block, end)
    pub fit : BestFit m s dif best bs block
    pub at_end : block ≡ null → end ≡ last_of last bs

  pub best_loop-BestFit :
      s < 18446744073709551616
      → (fuel p last dif best : ℕ) (bs : List ℕ) → 0 < dif
      → IsChain m p bs
      → All (λ b. size m b < 18446744073709551616) bs
      → length bs < fuel
      → BestResult fuel p last dif best bs
  unfolding best_loop
  best_loop-BestFit ws zero p last dif best bs d c w h = absurd (omega arith)
  best_loop-BestFit ws (suc fuel) p last dif best [] d c w h = record {
    block = best;
    end = last;
    returns = rw c refl;
    fit = inl (refl, tt);
    at_end = λ _. refl;
  }
  best_loop-BestFit ws (suc fuel) p last dif best (b ∷ bs) d c w h =
      elim (Bool-cases (exact m s b)) [
        | inl hit ↦ record {
          block = b;
          end = last;
          returns = rw (c.0, hit, ==-false b 0 c.1) refl;
          fit = inr (
            inl refl,
            ground arith,
            ground arith,
            ((λ g. omega arith), All-of_exact (size m b) bs (ground arith)),
          );
          at_end = λ e. absurd (c.1 e);
        }
        | inr miss ↦ elim (Bool-cases (closer m s dif b)) [
          | inl take ↦
              let d' : ℕ = sub64 (size m b) s in
              let e : size m b ≡ s + d' = ground (arith, w.0) in
              let ih =
                best_loop-BestFit ws fuel (next m b) b d' b bs (ground arith) c.2 w.1
                  (omega arith) in
              record {
                block = ih.block;
                end = ih.end;
                returns = rw (c.0, miss, take, ==-false b 0 c.1) ih.returns;
                fit = BestFit-take dif best b d' ih.block bs (ground arith) e (ground arith) ih.fit;
                at_end = ih.at_end;
              }
          | inr skip ↦
              let ih = best_loop-BestFit ws fuel (next m b) b dif best bs d c.2 w.1 (omega arith) in
              record {
                block = ih.block;
                end = ih.end;
                returns = rw (c.0, miss, skip, ==-false b 0 c.1) ih.returns;
                fit = BestFit-skip dif best b ih.block bs (λ g. ground (arith, w.0)) ih.fit;
                at_end = ih.at_end;
              }
        ]
      ]
