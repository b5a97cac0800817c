-- ===== src/Alloc/Chain.antt =====
-- The block list in memory: the predicate that the theorems about the allocator share.
use metrics_monitor.Base.{ℕ, ◌≡◌, ◌≢◌, ◌⊎◌, List, [], ◌∷◌}
use metrics_monitor.Memory.{Mem, null}
use metrics_monitor.Alloc.Block.{next}

-- From `p` the `next` pointers lead through the headers at `bs` to NULL.
abbrev pub IsChain : Mem → ℕ → List ℕ → Type 0
IsChain m p [] = p ≡ null
IsChain m p (b ∷ bs) = (p ≡ b) × (b ≢ null) × IsChain m (next m b) bs

abbrev pub In : ℕ → List ℕ → Type 0
In b [] = ⊥
In b (x ∷ xs) = (b ≡ x) ⊎ In b xs

-- The last entry, or `d` where there is none.
abbrev pub last_of : ℕ → List ℕ → ℕ
last_of d [] = d
last_of d (x ∷ xs) = last_of x xs
