-- ===== src/Alloc/Report/Check.antt =====
-- `check_heap` of lib/memory/src/memory.c on the block list.
use metrics_monitor.Base.{
  ℕ, zero, suc, ◌<◌, ◌≡◌, ◌≢◌, refl, sym, ap, ◌∙◌, Bool, true, false, not, ◌&&◌, some, List, [],
  ◌∷◌, ◌++◌, arith, ◌==◌, ==-false, if◌then◌else◌, length,
}
use mathlib.Core.List.{append_assoc, append-nil}
use metrics_monitor.Memory.{Mem, null}
use metrics_monitor.Alloc.Block.{size, next, is_free, data_of, get_block}
use metrics_monitor.Alloc.State.{Heap}
use metrics_monitor.Alloc.Layout.{Cell, Shows, Seen, Shows-Seen}
use metrics_monitor.Alloc.Valid.{get_block-data_of}
use metrics_monitor.Alloc.Report.{
  Warning, adjacent_free, invalid_size, warnings_at, check_loop, block_lines, check_heap,
}

abbrev empty_at : Cell → List Warning
empty_at c = if c.size == 0 then invalid_size c.addr ∷ [] else []

-- The faults of a block list: pairs of neighbours that are both free, and blocks of size 0.
unfoldable pub faults : List Cell → List Warning
faults [] = []
faults (c ∷ []) = empty_at c
faults (c ∷ d ∷ cs) =
    (if c.is_free && d.is_free then adjacent_free c.addr d.addr ∷ [] else [])
    ++ (empty_at c ++ faults (d ∷ cs))

-- Whether a list is without such pairs and blocks.
unfoldable pub is_tidy : List Cell → Bool
is_tidy [] = true
is_tidy (c ∷ []) = not (c.size == 0)
is_tidy (c ∷ d ∷ cs) = not (c.is_free && d.is_free) && (not (c.size == 0) && is_tidy (d ∷ cs))

-- What the loop warns of at the last block, and at a block before another.
warnings_at-last :
    (m : Mem) (c : Cell)
    → next m c.addr ≡ null
    → size m c.addr ≡ c.size
    → warnings_at m c.addr ≡ empty_at c
warnings_at-last m c end hs = ground (arith, end, hs)

warnings_at-inner :
    (m : Mem) (c d : Cell)
    → next m c.addr ≡ d.addr
    → d.addr ≢ null
    → size m c.addr ≡ c.size
    → is_free m c.addr ≡ c.is_free
    → is_free m d.addr ≡ d.is_free
    → warnings_at m c.addr
      ≡ (if c.is_free && d.is_free then adjacent_free c.addr d.addr ∷ [] else []) ++ empty_at c
warnings_at-inner m c d e ne hs hf hd = rw (e, ==-false d.addr 0 ne, hs, hf, hd) refl

check_loop-faults :
    (m : Mem) (fuel p : ℕ) (cs : List Cell)
    → length cs < fuel
    → Shows m p cs
    → check_loop fuel p m ≡ some (faults cs)
unfolding check_loop faults
check_loop-faults m zero p cs h sh = absurd (omega arith)
check_loop-faults m (suc fuel) p [] h sh = rw sh refl
check_loop-faults m (suc fuel) p (c ∷ []) h (e, ne, hs, hf, hn) =
    let rest : check_loop fuel (next m c.addr) m ≡ some [] =
      check_loop-faults m fuel (next m c.addr) [] (omega arith) hn in
    rw (e, ==-false c.addr 0 ne, rest)
      (ap some (append-nil _ ∙ ap (warnings_at m) e ∙ warnings_at-last m c hn hs))
check_loop-faults m (suc fuel) p (c ∷ d ∷ cs) h (e, ne, hs, hf, hn) =
    rw (e, ==-false c.addr 0 ne, check_loop-faults m fuel (next m c.addr) (d ∷ cs) (omega arith) hn)
      (ap some (
        ap (λ ws. ws ++ faults (d ∷ cs))
          (ap (warnings_at m) e ∙ warnings_at-inner m c d hn.0 hn.1 hs hf hn.3)
        ∙ append_assoc _ (empty_at c) _))

abbrev pub is_nil : {A : Type 0} → List A → Bool
is_nil [] = true
is_nil (x ∷ xs) = false

faults-tidy : (cs : List Cell) → is_nil (faults cs) ≡ is_tidy cs
unfolding faults is_tidy
faults-tidy [] = refl
faults-tidy (c ∷ []) = ground arith
faults-tidy (c ∷ d ∷ cs) = ground (arith, faults-tidy (d ∷ cs))

-- `check_heap` of the data address of a block of the list ends, given fuel beyond the length of the
-- list and a block below 2^64: it prints the header of that block, and warns of exactly the pairs
-- of free neighbours and the blocks of size 0 of the list, in the order of the list. It is silent
-- if and only if the list has neither.
pub check_heap-faults :
    (fuel brk : ℕ) (h : Heap) (xs ys : List Cell) (c : Cell)
    → length (xs ++ (c ∷ ys)) < fuel
    → c.addr < 18446744073709551616
    → Shows h.mem h.base (xs ++ (c ∷ ys))
    → (check_heap fuel brk (data_of c.addr) h
        ≡ some (block_lines brk c.addr h.mem, faults (xs ++ (c ∷ ys))))
      × (is_nil (faults (xs ++ (c ∷ ys))) ≡ is_tidy (xs ++ (c ∷ ys)))
unfolding check_heap
check_heap-faults fuel brk h xs ys c enough small sh =
    let seen : Seen h.mem c = Shows-Seen h.mem h.base xs ys c sh in
    let found : get_block (data_of c.addr) ≡ c.addr = get_block-data_of c.addr small in
    let there : (data_of c.addr == null) ≡ false = ground arith in
    (
      rw
          (
            there,
            ==-false (get_block (data_of c.addr)) 0 (λ e. seen.ne_null (sym found ∙ e)),
            check_loop-faults h.mem fuel h.base (xs ++ (c ∷ ys)) enough sh,
          )
          (ap (λ b. some (block_lines brk b h.mem, faults (xs ++ (c ∷ ys)))) found),
      faults-tidy (xs ++ (c ∷ ys)),
    )
