-- ===== src/Alloc/Trim/Loop.antt =====
-- The loop of `mem_trim`, and what is left of the list.
use metrics_monitor.Base.{
  ℕ, zero, suc, ◌+◌, ◌<◌, ◌≡◌, ◌≢◌, refl, sym, ap, ◌∙◌, some, List, [], ◌∷◌, ◌++◌, arith, ==-false,
  length, length-append, All,
}
use mathlib.Core.Path.{subst}
use mathlib.Core.List.{append_assoc}
use metrics_monitor.Memory.{null}
use metrics_monitor.Pairwise.{Pairwise, All-right}
use metrics_monitor.Alloc.Block.{next}
use metrics_monitor.Alloc.State.{Os, Heap, ◌>>=◌}
use metrics_monitor.Alloc.Api.{trim_step, trim_loop, mem_trim}
use metrics_monitor.Alloc.Layout.{Cell, Shows, Seen, HeadersApart, Shows-Seen, Shows-tail}
use metrics_monitor.Alloc.Layout.Fuse.{total_size}
use metrics_monitor.Alloc.Trim.{PtrOk}
use metrics_monitor.Alloc.Trim.Round.{ended, trim_step_lem, trim_step-Last}
use metrics_monitor.Alloc.Trim.Stage.{Stage-fusion, Stage-free}

-- The loop ends with an empty list, and no region went back to the system.
pub record Trimmed (os : Os) (fuel rounds b : ℕ) (h : Heap) : Type 0 where
  pub heap : Heap
  pub runs : trim_loop os fuel rounds b h ≡ some (tt, heap)
  pub base_eq : heap.base ≡ null
  pub maps_eq : heap.maps ≡ h.maps

-- What the rest of the loop needs of the list behind `xs`.
pub record Ready (fuel rounds : ℕ) (h : Heap) (xs cs : List Cell) : Type 0 where
  pub enough : length (xs ++ cs) < fuel
  pub rounds_left : length cs < rounds
  pub small : All (λ (c : Cell). c.addr < 18446744073709551616) cs
  pub total : total_size cs < 18446744073709551616
  pub ok : All (PtrOk h.mem) cs
  pub apart : Pairwise HeadersApart (xs ++ cs)
  pub shows : Shows h.mem h.base (xs ++ cs)

trim_loop-next :
    (os : Os) (fuel rounds b n : ℕ) (h h' : Heap)
    → b ≢ null
    → trim_step os fuel b h ≡ some (n, h')
    → trim_loop os fuel (suc rounds) b h ≡ trim_loop os fuel rounds n h'
unfolding trim_loop
trim_loop-next os fuel rounds b n h h' ne e = rw (==-false b 0 ne, e, ◌>>=◌) refl

trim_loop-null :
    (os : Os) (fuel rounds : ℕ) (h : Heap)
    → 0 < rounds
    → trim_loop os fuel rounds null h ≡ some (tt, h)
unfolding trim_loop
trim_loop-null os fuel zero h pos = absurd (omega arith)
trim_loop-null os fuel (suc rounds) h pos = refl

first_of : (l : List Cell) → l ≢ [] → (e : Cell) × (r : List Cell) × (l ≡ e ∷ r)
first_of [] ne = absurd (ne refl)
first_of (e ∷ r) ne = (e, r, refl)

-- A round on a block that is not the last leaves a shorter list to be done.
record Advanced (os : Os) (fuel rounds : ℕ) (h : Heap) (xs : List Cell) (c : Cell) : Type 0 where
  heap : Heap
  front : List Cell
  head : Cell
  rest : List Cell
  runs : trim_step os fuel c.addr h ≡ some (head.addr, heap)
  ready : Ready fuel rounds heap front (head ∷ rest)
  maps_eq : heap.maps ≡ h.maps

advance :
    (os : Os) (fuel rounds : ℕ) (h : Heap) (xs ys : List Cell) (c d : Cell)
    → Ready fuel (suc rounds) h xs (c ∷ d ∷ ys)
    → Advanced os fuel rounds h xs c
unfolding total_size
advance os fuel rounds h xs ys c d g =
    let free = Stage-free os fuel h xs ys c d g.enough g.small.0 g.total g.ok g.apart g.shows in
    let fused =
      Stage-fusion fuel h free.0 xs c (d ∷ ys)
        (omega (arith, g.enough, length-append xs (c ∷ d ∷ ys))) g.total free.2 in
    let s = fused.2 in
    let first = first_of s.rest (s.more (λ e. cc)) in
    let e : Cell = first.0 in
    let r : List Cell = first.1 in
    let h2 : Heap = record free.0 { mem = fused.0 } in
    let tail : Shows fused.0 (next fused.0 s.head.addr) (e ∷ r) =
      subst (λ t. Shows fused.0 (next fused.0 s.head.addr) t) first.2
        (Shows-tail fused.0 h.base xs s.rest s.head s.shows) in
    let at : next fused.0 c.addr ≡ e.addr = ap (λ b. next fused.0 b) (sym s.addr_eq) ∙ tail.0 in
    let stays : ended c.addr h2 ≡ h2 = rw (at, ==-false e.addr 0 tail.1) refl in
    let whole : xs ++ (s.head ∷ s.rest) ≡ (xs ++ (s.head ∷ [])) ++ (e ∷ r) =
      ap (λ t. xs ++ (s.head ∷ t)) first.2 ∙ sym (append_assoc xs (s.head ∷ []) (e ∷ r)) in
    let split : d ∷ ys ≡ s.gone ++ (e ∷ r) = s.splits ∙ ap (λ t. s.gone ++ t) first.2 in
    let len : length ys + 1 ≡ length s.gone + (length r + 1) =
      omega (arith, ap length split, length-append s.gone (e ∷ r)) in
    let sum : s.head.size + (e.size + total_size r) ≡ c.size + (d.size + total_size ys) =
      ap (λ t. s.head.size + total_size t) (sym first.2) ∙ s.total_eq in
    record {
      heap = h2;
      front = xs ++ (s.head ∷ []);
      head = e;
      rest = r;
      runs =
          trim_step_lem os fuel c.addr h free.0 fused.0 free.1 fused.1
          ∙ ap (λ t. some t) (pair at stays);
      ready = record {
        enough = omega (
          arith,
          g.enough,
          len,
          length-append xs (c ∷ d ∷ ys),
          length-append (xs ++ (s.head ∷ [])) (e ∷ r),
          length-append xs (s.head ∷ []),
        );
        rounds_left = omega (arith, len, g.rounds_left);
        small = All-right _ s.gone (e ∷ r) (subst (All _) split g.small.1);
        total = omega (arith, sum, g.total);
        ok = subst (All (PtrOk fused.0)) first.2 s.ptrs;
        apart = subst (Pairwise HeadersApart) whole s.apart;
        shows =
            subst (λ b. Shows fused.0 b ((xs ++ (s.head ∷ [])) ++ (e ∷ r))) (sym s.base_eq)
              (subst (Shows fused.0 h.base) whole s.shows);
      };
      maps_eq = s.maps_eq;
    }
  where
    pair : {a b : ℕ} {k k' : Heap} → a ≡ b → k ≡ k' → ◌≡◌ {A = ℕ × Heap} (a, k) (b, k')
    pair p q = λ i. (p i, q i)

trim_loop-Trimmed :
    (os : Os) (fuel rounds : ℕ) (h : Heap) (xs ys : List Cell) (c : Cell)
    → Ready fuel rounds h xs (c ∷ ys)
    → Trimmed os fuel rounds c.addr h
trim_loop-Trimmed os fuel zero h xs ys c g = absurd (omega (arith, g.rounds_left))
trim_loop-Trimmed os fuel (suc rounds) h xs [] c g =
    let seen : Seen h.mem c = Shows-Seen h.mem h.base xs [] c g.shows in
    let l =
      trim_step-Last os fuel h c seen.ne_null (omega (arith, g.enough)) xs g.enough g.small.0 g.ok.0
        g.apart g.shows in
    record {
      heap = l.heap;
      runs =
          trim_loop-next os fuel rounds c.addr null h l.heap seen.ne_null l.runs
          ∙ trim_loop-null os fuel rounds l.heap (omega (arith, g.rounds_left));
      base_eq = l.base_eq;
      maps_eq = l.maps_eq;
    }
trim_loop-Trimmed os fuel (suc rounds) h xs (d ∷ ys) c g =
    let seen : Seen h.mem c = Shows-Seen h.mem h.base xs (d ∷ ys) c g.shows in
    let a = advance os fuel rounds h xs ys c d g in
    let t = trim_loop-Trimmed os fuel rounds a.heap a.front a.rest a.head a.ready in
    record {
      heap = t.heap;
      runs = trim_loop-next os fuel rounds c.addr a.head.addr h a.heap seen.ne_null a.runs ∙ t.runs;
      base_eq = t.base_eq;
      maps_eq = t.maps_eq ∙ a.maps_eq;
    }

-- `mem_trim` ends, for fuel beyond the length of the list, headers that do not overlap, addresses
-- and a total size below 2^64, and fields `ptr` that hold the data address or NULL: it leaves an
-- empty list, whatever the blocks hold, used ones included, and gives no region back to the system.
pub mem_trim-empties :
    (os : Os) (fuel : ℕ) (h : Heap) (cs : List Cell)
    → length cs < fuel
    → All (λ (c : Cell). c.addr < 18446744073709551616) cs
    → total_size cs < 18446744073709551616
    → All (PtrOk h.mem) cs
    → Pairwise HeadersApart cs
    → Shows h.mem h.base cs
    → (h' : Heap) × (mem_trim os fuel h ≡ some (tt, h')) × (h'.base ≡ null) × (h'.maps ≡ h.maps)
unfolding mem_trim
mem_trim-empties os fuel h [] enough small total ok apart sh =
    (h, ap (λ b. trim_loop os fuel fuel b h) sh ∙ trim_loop-null os fuel fuel h enough, sh, refl)
mem_trim-empties os fuel h (c ∷ cs) enough small total ok apart sh =
    let t = trim_loop-Trimmed os fuel fuel h [] cs c (record {
      enough = enough;
      rounds_left = enough;
      small = small;
      total = total;
      ok = ok;
      apart = apart;
      shows = sh;
    }) in
    (t.heap, ap (λ b. trim_loop os fuel fuel b h) sh.0 ∙ t.runs, t.base_eq, t.maps_eq)
