-- ===== src/Alloc/Find/First.antt =====
-- The first-fit loop of `find_block`.
use metrics_monitor.Base.{
  ℕ, zero, suc, ◌<◌, ◌≡◌, refl, ap, ◌⊎◌, inl, inr, true, false, some, List, [], ◌∷◌, ◌++◌, arith,
  ==-false, Bool-cases, length, All,
}
use metrics_monitor.Memory.{Mem, null}
use metrics_monitor.Alloc.Block.{next}
use metrics_monitor.Alloc.Chain.{IsChain, last_of}
use metrics_monitor.Alloc.Find.{fits, first_loop}

-- `r` is the first block of the list that fits, or 0 where none does.
abbrev pub FirstFit : Mem → ℕ → List ℕ → ℕ → Type 0
FirstFit m s bs r =
    ((r ≡ null) × All (λ b. fits m s b ≡ false) bs)
    ⊎ ((xs : List ℕ) × (ys : List ℕ) × (bs ≡ xs ++ (r ∷ ys))
        × All (λ b. fits m s b ≡ false) xs
        × (fits m s r ≡ true))

FirstFit-cons :
    (m : Mem) (s b : ℕ) (bs : List ℕ) (r : ℕ)
    → fits m s b ≡ false
    → FirstFit m s bs r
    → FirstFit m s (b ∷ bs) r
FirstFit-cons m s b bs r h (inl (e, none_fit)) = inl (e, (h, none_fit))
FirstFit-cons m s b bs r h (inr (xs, ys, e, none_fit, fit)) =
    inr (b ∷ xs, ys, ap (λ t. b ∷ t) e, (h, none_fit), fit)

-- What the first-fit loop returns, and where it leaves `*last` when it finds nothing.
pub record FirstResult (m : Mem) (s fuel p last : ℕ) (bs : List ℕ) : Type 0 where
  pub block : ℕ
  pub end : ℕ
  pub returns : first_loop m s fuel p last ≡ some (block, end)
  pub fit : FirstFit m s bs block
  pub at_end : block ≡ null → end ≡ last_of last bs

pub first_loop-FirstFit :
    (m : Mem) (s fuel p last : ℕ) (bs : List ℕ)
    → IsChain m p bs
    → length bs < fuel
    → FirstResult m s fuel p last bs
unfolding first_loop
first_loop-FirstFit m s zero p last bs c h = absurd (omega arith)
first_loop-FirstFit m s (suc fuel) p last [] c h = record {
  block = null;
  end = last;
  returns = rw c refl;
  fit = inl (refl, tt);
  at_end = λ _. refl;
}
first_loop-FirstFit m s (suc fuel) p last (b ∷ bs) c h = elim (Bool-cases (fits m s b)) [
  | inl fit ↦ record {
    block = b;
    end = last;
    returns = rw (c.0, fit) (ground arith);
    fit = inr ([], bs, refl, tt, fit);
    at_end = λ e. absurd (c.1 e);
  }
  | inr miss ↦
      let ih = first_loop-FirstFit m s fuel (next m b) b bs c.2 (omega arith) in
      record {
        block = ih.block;
        end = ih.end;
        returns = rw (c.0, miss, ==-false b 0 c.1) ih.returns;
        fit = FirstFit-cons m s b bs ih.block miss ih.fit;
        at_end = ih.at_end;
      }
]
