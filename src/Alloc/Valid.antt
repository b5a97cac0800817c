-- ===== src/Alloc/Valid.antt =====
-- `valid_addr` of lib/memory/src/memory.c on the block list.
use metrics_monitor.Base.{
  ℕ, zero, suc, ◌<◌, ◌≡◌, ◌≢◌, refl, sym, ◌∙◌, false, some, List, [], ◌∷◌, ◌++◌, arith, ◌==◌,
  ==-false, ==-refl, length, length-append, All,
}
use metrics_monitor.Memory.{Mem, null}
use metrics_monitor.Pairwise.{Pairwise, around, All-map}
use metrics_monitor.Alloc.Block.{next, ptr, data_of, get_block}
use metrics_monitor.Alloc.State.{Heap}
use metrics_monitor.Alloc.Ops.{valid_loop, valid_addr}
use metrics_monitor.Alloc.Layout.{Cell, Shows, HeadersApart, HeadersApart-sym}

pub get_block-data_of : (b : ℕ) → b < 18446744073709551616 → get_block (data_of b) ≡ b
unfolding get_block
get_block-data_of b h = omega arith

-- The loop stops at the block `c` and answers by its field `ptr`.
valid_loop-found :
    (m : Mem) (fuel q p : ℕ) (xs ys : List Cell) (c : Cell)
    → All (λ (d : Cell). d.addr ≢ c.addr) xs
    → length xs < fuel
    → Shows m p (xs ++ (c ∷ ys))
    → valid_loop fuel q c.addr p m ≡ some (ptr m c.addr == q)
unfolding valid_loop
valid_loop-found m zero q p xs ys c a h sh = absurd (omega arith)
valid_loop-found m (suc fuel) q p [] ys c a h sh =
    rw (sh.0, ==-false c.addr 0 sh.1, ==-refl c.addr) refl
valid_loop-found m (suc fuel) q p (x ∷ xs) ys c a h sh =
    rw (sh.0, ==-false x.addr 0 sh.1, ==-false x.addr c.addr a.0)
      (valid_loop-found m fuel q (next m x.addr) xs ys c a.1 (omega arith) sh.4)

valid_loop-missing :
    (m : Mem) (fuel q b p : ℕ) (cs : List Cell)
    → All (λ (d : Cell). d.addr ≢ b) cs
    → length cs < fuel
    → Shows m p cs
    → valid_loop fuel q b p m ≡ some false
unfolding valid_loop
valid_loop-missing m zero q b p cs a h sh = absurd (omega arith)
valid_loop-missing m (suc fuel) q b p [] a h sh = rw sh refl
valid_loop-missing m (suc fuel) q b p (x ∷ xs) a h sh =
    rw (sh.0, ==-false x.addr 0 sh.1, ==-false x.addr b a.0)
      (valid_loop-missing m fuel q b (next m x.addr) xs a.1 (omega arith) sh.4)

Shows-base :
    (m : Mem) (p : ℕ) (xs ys : List Cell) (c : Cell) → Shows m p (xs ++ (c ∷ ys)) → p ≢ null
Shows-base m p [] ys c sh e = sh.1 (sym sh.0 ∙ e)
Shows-base m p (x ∷ xs) ys c sh e = sh.1 (sym sh.0 ∙ e)

-- With fuel beyond the length of the list and headers that do not overlap, the walk of `valid_addr`
-- ends, and finds the data address of a block of the list valid exactly if the field `ptr` of its
-- header says so.
pub valid_addr-block :
    (fuel : ℕ) (h : Heap) (xs ys : List Cell) (c : Cell)
    → length (xs ++ (c ∷ ys)) < fuel
    → c.addr < 18446744073709551616
    → Pairwise HeadersApart (xs ++ (c ∷ ys))
    → Shows h.mem h.base (xs ++ (c ∷ ys))
    → valid_addr fuel (data_of c.addr) h ≡ some (ptr h.mem c.addr == data_of c.addr)
unfolding valid_addr
valid_addr-block fuel h xs ys c enough small apart sh =
    let near = around HeadersApart HeadersApart-sym xs ys c apart in
    let ne : (data_of c.addr == null) ≡ false = ground arith in
    rw (ne, ==-false h.base 0 (Shows-base h.mem h.base xs ys c sh), get_block-data_of c.addr small)
      (valid_loop-found h.mem fuel (data_of c.addr) h.base xs ys c
        (All-map xs (λ d k. ground arith) near.0) (omega (arith, length-append xs (c ∷ ys))) sh)

-- An address that stands 40 bytes behind no block of the list is not valid.
pub valid_addr-unknown :
    (fuel p : ℕ) (h : Heap) (cs : List Cell)
    → length cs < fuel
    → All (λ (d : Cell). d.addr ≢ get_block p) cs
    → Shows h.mem h.base cs
    → valid_addr fuel p h ≡ some false
unfolding valid_addr
valid_addr-unknown fuel p h cs enough a sh =
    ground (arith, valid_loop-missing h.mem fuel p (get_block p) h.base cs a enough sh)
