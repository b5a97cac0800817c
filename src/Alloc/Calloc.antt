-- ===== src/Alloc/Calloc.antt =====
-- The clearing loop of `my_calloc` of lib/memory/src/memory.c.
use metrics_monitor.Base.{
  ℕ, zero, suc, ◌+◌, ◌*◌, ◌%◌, ◌≤◌, ◌<◌, ◌≡◌, ◌≢◌, refl, ap, ◌∙◌, ◌⊎◌, inl, some, arith, ==-false,
}
use metrics_monitor.Memory.{Mem, null, store, store_same, store_other}
use native.Mathlib.Nat.{add-zero}
use metrics_monitor.Alloc.Words.{align}
use metrics_monitor.Alloc.State.{Os, Heap, Entry, alloc_type_calloc, log_handler, ◌>>=◌}
use metrics_monitor.Alloc.Api.{zero_words, my_malloc, my_calloc}

-- Addresses before the first word, and from the end on, are left alone.
pub zero_words-outside :
    (n a : ℕ) (m : Mem) (x : ℕ) → (x < a) ⊎ (a + 8 * n ≤ x) → zero_words n a m x ≡ m x
unfolding zero_words
zero_words-outside zero a m x h = refl
zero_words-outside (suc n) a m x h =
    zero_words-outside n (a + 8) (store m a 0) x (ground arith) ∙ store_other m a 0 x (ground arith)

-- Each of the `n` words is 0.
pub zero_words-inside : (n a : ℕ) (m : Mem) (i : ℕ) → i < n → zero_words n a m (a + 8 * i) ≡ 0
unfolding zero_words
zero_words-inside zero a m i h = elim h [ ]
zero_words-inside (suc n) a m zero h =
    zero_words-outside n (a + 8) (store m a 0) (a + 0) (inl (omega arith))
    ∙ rw (add-zero a) (store_same m a 0)
zero_words-inside (suc n) a m (suc i) h =
    let e : a + 8 * suc i ≡ (a + 8) + 8 * i = omega arith in
    rw e (zero_words-inside n (a + 8) (store m a 0) i (omega arith))

log_handler-mem : (os : Os) (e : Entry) (h : Heap) → (log_handler os e h).mem ≡ h.mem
unfolding log_handler
log_handler-mem os e h = ground arith

-- The number of 8-byte words that `my_calloc` clears for a request of `n` bytes.
abbrev pub cleared : ℕ → ℕ
cleared n = align n * 4 % 18446744073709551616

-- The result of `my_calloc` when its `my_malloc` returned `new` and the heap `h1`.
pub record Cleared (os : Os) (fuel number n : ℕ) (h : Heap) (new : ℕ) (h1 : Heap) : Type 0 where
  pub heap : Heap
  pub runs : my_calloc os fuel number n h ≡ some (new, heap)
  pub zeroed :
      (i : ℕ) → i < cleared (number * n % 18446744073709551616) → heap.mem (new + 8 * i) ≡ 0
  pub kept :
      (x : ℕ)
      → (x < new) ⊎ (new + 8 * cleared (number * n % 18446744073709551616) ≤ x)
      → heap.mem x ≡ h1.mem x

-- When both arguments are not 0 and the inner `my_malloc` succeeds, `my_calloc` returns its address, the 8-byte words from
-- there on are 0, four times as many as the aligned request has bytes, and no other word is
-- written.
pub my_calloc-Cleared :
    (os : Os) (fuel number n : ℕ) (h : Heap) (new : ℕ) (h1 : Heap)
    → number ≢ 0
    → n ≢ 0
    → my_malloc os fuel (number * n % 18446744073709551616) (record h { malloc_call = 1 })
      ≡ some (new, h1)
    → new ≢ null
    → Cleared os fuel number n h new h1
unfolding my_calloc
my_calloc-Cleared os fuel number n h new h1 a b e ne =
    let k : ℕ = cleared (number * n % 18446744073709551616) in
    let h2 : Heap = record h1 { mem = zero_words k new h1.mem } in
    let entry : Entry = record {
      func_name = "calloc";
      type = alloc_type_calloc;
      ptr = new;
      size = 0;
    } in
    record {
      heap = log_handler os entry h2;
      runs = rw (==-false number 0 a, ==-false n 0 b, e, ◌>>=◌, ==-false new 0 ne) refl;
      zeroed = λ i lt.
          ap (λ f. f (new + 8 * i)) (log_handler-mem os entry h2)
          ∙ zero_words-inside k new h1.mem i lt;
      kept =
          λ x o. ap (λ f. f x) (log_handler-mem os entry h2) ∙ zero_words-outside k new h1.mem x o;
    }
