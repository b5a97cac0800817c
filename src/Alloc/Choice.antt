-- ===== src/Alloc/Choice.antt =====
-- `find_block` of lib/memory/src/memory.c against its specification on the block list: which block
-- each policy chooses.
use metrics_monitor.Base.{
  ℕ, ◌+◌, ◌≤◌, ◌<◌, ◌≡◌, ◌≢◌, refl, sym, ◌∙◌, ◌⊎◌, inl, inr, Bool, true, false, ◌&&◌, some, List,
  ◌∷◌, ◌++◌, map, arith, leb, length, All, Bool-cases,
}
use metrics_monitor.Memory.{Mem, null}
use metrics_monitor.Alloc.Block.{size}
use metrics_monitor.Alloc.State.{Method, first_fit, best_fit, worst_fit}
use metrics_monitor.Alloc.Chain.{last_of}
use metrics_monitor.Alloc.Find.{fits, first_loop, best_loop, worst_loop, find_block}
use metrics_monitor.Alloc.Find.First.{FirstFit, first_loop-FirstFit}
use metrics_monitor.Alloc.Find.Best.{BestFit, best_loop-BestFit}
use metrics_monitor.Alloc.Find.Worst.{WorstFit, worst_loop-WorstFit}
use metrics_monitor.Alloc.Places.{
  addr_of, Place, All-cells, All-front, All-addrs, length-addrs, Place-of_append, Place-of_In,
}
use metrics_monitor.Alloc.Layout.{Cell, Shows, Seen, Shows-IsChain}

-- A free block that is large enough.
abbrev pub suits : ℕ → Cell → Bool
suits s c = c.is_free && leb s c.size

-- The policies that `malloc_control` accepts.
abbrev pub IsPolicy : Method → Type 0
IsPolicy Method.first_fit = Unit {0}
IsPolicy Method.best_fit = Unit {0}
IsPolicy Method.worst_fit = Unit {0}
IsPolicy (Method.other _) = ⊥

-- When no block is chosen: with first and worst fit only if none suits, with best fit if every
-- block that suits has a page or more to spare.
abbrev pub NoneChosen : Method → ℕ → List Cell → Type 0
NoneChosen Method.best_fit s cs = All (λ (d : Cell). suits s d ≡ true → s + 4096 ≤ d.size) cs
NoneChosen Method.first_fit s cs = All (λ (d : Cell). suits s d ≡ false) cs
NoneChosen Method.worst_fit s cs = All (λ (d : Cell). suits s d ≡ false) cs
NoneChosen (Method.other _) s cs = Unit {0}

-- Why the block `c` between `xs` and `ys` is chosen: it is the first one that suits; or one of the
-- smallest that suit; or of exactly the size, or one of the largest that suit.
abbrev pub Optimal : Method → ℕ → List Cell → Cell → List Cell → Type 0
Optimal Method.first_fit s xs c ys = All (λ (d : Cell). suits s d ≡ false) xs
Optimal Method.best_fit s xs c ys =
    (c.size < s + 4096) × All (λ (d : Cell). suits s d ≡ true → c.size ≤ d.size) (xs ++ (c ∷ ys))
Optimal Method.worst_fit s xs c ys =
    (c.size ≡ s) ⊎ All (λ (d : Cell). suits s d ≡ true → d.size ≤ c.size) (xs ++ (c ∷ ys))
Optimal (Method.other _) s xs c ys = ⊥

-- A block of the list with what stands before and behind it.
pub record Choice (method : Method) (s : ℕ) (cs : List Cell) (r : ℕ) : Type 0 where
  pub front : List Cell
  pub chosen : Cell
  pub back : List Cell
  pub splits : cs ≡ front ++ (chosen ∷ back)
  pub address : r ≡ chosen.addr
  pub suited : suits s chosen ≡ true
  pub optimal : Optimal method s front chosen back

abbrev pub Chosen : Method → ℕ → ℕ → List Cell → ℕ → ℕ → Type 0
Chosen method s last cs r end =
    ((r ≡ null) × NoneChosen method s cs × (end ≡ last_of last (map addr_of cs)))
    ⊎ Choice method s cs r

module _ (m : Mem) (s : ℕ) where
  fits-suits : (c : Cell) → Seen m c → fits m s c.addr ≡ suits s c
  fits-suits c h = rw (h.free_eq, h.size_eq) refl

  Choice-of_Place :
      (method : Method) (cs : List Cell) (xs : List ℕ) (r : ℕ) (at : Place m cs xs r)
      → fits m s r ≡ true
      → Optimal method s at.front at.cell at.back
      → Choice method s cs r
  Choice-of_Place method cs xs r at f o = record {
    front = at.front;
    chosen = at.cell;
    back = at.back;
    splits = at.splits;
    address = at.address;
    suited = sym (fits-suits at.cell at.seen) ∙ rw (← at.address) f;
    optimal = o;
  }

  module _ (fuel p last : ℕ) (cs : List Cell) (sh : Shows m p cs) (enough : length cs < fuel) where
    first-Chosen :
        (r : ℕ × ℕ) × (first_loop m s fuel p last ≡ some r) × Chosen first_fit s last cs r.0 r.1
    first-Chosen =
        let chain = Shows-IsChain m p cs sh in
        let res =
          first_loop-FirstFit m s fuel p last (map addr_of cs) chain
            (omega (arith, length-addrs cs)) in
        ((res.block, res.end), res.returns, choose res.block res.end res.fit res.at_end)
      where
        choose :
            (r end : ℕ)
            → FirstFit m s (map addr_of cs) r
            → (r ≡ null → end ≡ last_of last (map addr_of cs))
            → Chosen first_fit s last cs r end
        choose r end (inl (e, a)) at_end =
            inl (e, All-cells m _ _ p cs sh (λ c h f. sym (fits-suits c h) ∙ f) a, at_end e)
        choose r end (inr (xs, ys, e, a, f)) at_end =
            let at = Place-of_append m p cs xs ys r sh e in
            let before : All (λ b. fits m s b ≡ false) (map addr_of at.front) = rw at.before at a in
            inr (
              Choice-of_Place first_fit cs xs r at f (
                All-front m _ _ p at.front (at.cell ∷ at.back) (rw at.splits at sh)
                  (λ c h g. sym (fits-suits c h) ∙ g) before))

    module _ (ws : s < 18446744073709551616)
        (sizes : All (λ (c : Cell). c.size < 18446744073709551616) cs) where
      bounded : All (λ b. size m b < 18446744073709551616) (map addr_of cs)
      bounded =
          All-addrs m (λ b. size m b < 18446744073709551616) (λ c. c.size < 18446744073709551616) p
            cs sh (λ c h g. rw h.size_eq g) sizes

      best-Chosen :
          (r : ℕ × ℕ) × (best_loop m s fuel p last 4096 null ≡ some r)
          × Chosen best_fit s last cs r.0 r.1
      best-Chosen =
          let chain = Shows-IsChain m p cs sh in
          let res =
            best_loop-BestFit m s ws fuel p last 4096 null (map addr_of cs) (omega arith) chain
              bounded (omega (arith, length-addrs cs)) in
          ((res.block, res.end), res.returns, choose res.block res.end res.fit res.at_end)
        where
          choose :
              (r end : ℕ)
              → BestFit m s 4096 null (map addr_of cs) r
              → (r ≡ null → end ≡ last_of last (map addr_of cs))
              → Chosen best_fit s last cs r end
          choose r end (inl (e, a)) at_end = inl (
            e,
            All-cells m _ _ p cs sh (λ c h f g. rw h.size_eq at (f (fits-suits c h ∙ g))) a,
            at_end e,
          )
          choose r end (inr (i, f, lt, a)) at_end =
              let found = Place-of_In m p r cs sh i in
              let at = found.1 in
              let sz : size m r ≡ at.cell.size = rw at.address at.seen.size_eq in
              let all : All (λ (d : Cell). suits s d ≡ true → at.cell.size ≤ d.size) cs =
                All-cells m _ _ p cs sh
                  (λ c h g k. omega (arith, g (fits-suits c h ∙ k), h.size_eq, sz)) a in
              inr (Choice-of_Place best_fit cs found.0 r at f (omega arith, rw at.splits at all))

      worst-Chosen :
          (r : ℕ × ℕ) × (worst_loop m s fuel p last 0 null ≡ some r)
          × Chosen worst_fit s last cs r.0 r.1
      worst-Chosen =
          let chain = Shows-IsChain m p cs sh in
          let res =
            worst_loop-WorstFit m s ws fuel p last 0 null (map addr_of cs) chain bounded
              (omega (arith, length-addrs cs)) in
          ((res.block, res.end), res.returns, choose res.block res.end res.fit res.at_end)
        where
          choose :
              (r end : ℕ)
              → WorstFit m s 0 null (map addr_of cs) r
              → (r ≡ null → end ≡ last_of last (map addr_of cs))
              → Chosen worst_fit s last cs r end
          choose r end (inl (e, a)) at_end =
              inl (e, All-cells m _ _ p cs sh (λ c h f. unsuited c h f) a, at_end e)
            where
              unsuited :
                  (c : Cell)
                  → Seen m c
                  → (fits m s c.addr ≡ true → (size m c.addr ≤ s + 0) × (size m c.addr ≢ s))
                  → suits s c ≡ false
              unsuited c h f = elim (Bool-cases (suits s c)) [
                | inl g ↦
                    let k = f (fits-suits c h ∙ g) in
                    let le : s ≤ c.size = ground arith in
                    absurd (k.1 (omega (arith, h.size_eq, k.0)))
                | inr g ↦ g
              ]
          choose r end (inr (inl (i, f, e))) at_end =
              let found = Place-of_In m p r cs sh i in
              let at = found.1 in
              let sz : size m r ≡ at.cell.size = rw at.address at.seen.size_eq in
              inr (Choice-of_Place worst_fit cs found.0 r at f (inl (sym sz ∙ e)))
          choose r end (inr (inr (i, f, lt, a))) at_end =
              let found = Place-of_In m p r cs sh i in
              let at = found.1 in
              let sz : size m r ≡ at.cell.size = rw at.address at.seen.size_eq in
              let all : All (λ (d : Cell). suits s d ≡ true → d.size ≤ at.cell.size) cs =
                All-cells m _ _ p cs sh
                  (λ c h g k. omega (arith, (g (fits-suits c h ∙ k)).0, h.size_eq, sz)) a in
              inr (Choice-of_Place worst_fit cs found.0 r at f (inr (rw at.splits at all)))

      -- For each of the three policies `find_block` ends, given fuel beyond the length of the list,
      -- and returns the block that the policy is to choose; where it returns NULL, no block is
      -- eligible and `*last` is the last block of the list.
      pub find_block-Chosen :
          (method : Method)
          → IsPolicy method
          → (r : ℕ × ℕ) × (find_block fuel method m p last s ≡ some r)
            × Chosen method s last cs r.0 r.1
      unfolding find_block
      find_block-Chosen Method.first_fit h = first-Chosen
      find_block-Chosen Method.best_fit h = best-Chosen
      find_block-Chosen Method.worst_fit h = worst-Chosen
      find_block-Chosen (Method.other _) h = absurd h
