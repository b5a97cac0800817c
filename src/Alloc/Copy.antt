-- ===== src/Alloc/Copy.antt =====
-- `copy_block` of lib/memory/src/memory.c: the data of one block become those of another.
use metrics_monitor.Base.{
  ℕ, zero, suc, ◌+◌, ◌*◌, ◌%◌, ◌≤◌, ◌<◌, ◌≡◌, ◌≢◌, ◌⊎◌, inl, inr, refl, sym, ◌∙◌, true, false, ◌&&◌,
  ◌||◌, some, arith, ◌==◌, ltb, Bool-cases,
}
use mathlib.Core.Path.{subst}
use metrics_monitor.Memory.{
  Mem, null, load_int, store_int, load_int-lt, load_int-store_int, load_int-store_int_other,
  store_int-outside,
}
use metrics_monitor.Alloc.Block.{size, ptr, data_of}
use metrics_monitor.Alloc.Ops.{copy_loop, copy_block}

here-or-after : (i j : ℕ) → i ≤ j → (j ≡ i) ⊎ (i + 1 ≤ j)
here-or-after i j le = elim (Bool-cases (j == i)) [
  | inl here ↦ inl (ground arith)
  | inr after ↦ inr (ground arith)
]

module _ (src dst n : ℕ) (apart : (src + 40 + n ≤ dst) ⊎ (dst + 40 + n ≤ src))
    (at_src : src % 8 ≡ 0) (at_dst : dst % 8 ≡ 0) (whole : n % 8 ≡ 0) where
  -- What the loop needs of the two headers: `n` bytes to copy, and room for them.
  pub record Headers (m : Mem) : Type 0 where
    pub src_size : size m src ≡ n
    pub dst_size : n ≤ size m dst
    pub src_ptr : ptr m src ≡ data_of src
    pub dst_ptr : ptr m dst ≡ data_of dst

  -- The memory behind the loop that starts at the `int` of index `i`.
  pub record Copied (fuel i : ℕ) (m : Mem) : Type 0 where
    pub mem : Mem
    pub runs : copy_loop fuel src dst i m ≡ some mem
    pub copied :
        (j : ℕ)
        → i ≤ j
        → j * 4 < n
        → load_int mem (dst + 40 + j * 4) ≡ load_int m (src + 40 + j * 4)
    pub before : (x : ℕ) → x % 4 ≡ 0 → x < dst + 40 + i * 4 → load_int mem x ≡ load_int m x
    pub kept : (x : ℕ) → (x < dst + 40) ⊎ (dst + 40 + n ≤ x) → mem x ≡ m x

  -- One turn of the loop.
  step : ℕ → Mem → Mem
  step i m = store_int m (dst + 40 + i * 4) (load_int m (src + 40 + i * 4))

  step-kept :
      (i : ℕ) (m : Mem) (x : ℕ) → i * 4 < n → (x < dst + 40) ⊎ (dst + 40 + n ≤ x) → step i m x ≡ m x
  unfolding step
  step-kept i m x lt away =
      store_int-outside m (dst + 40 + i * 4) (load_int m (src + 40 + i * 4)) x (dst + 40)
        (dst + 40 + n) (omega arith) (omega arith) (omega arith) (omega arith) away

  step-Headers : (i : ℕ) (m : Mem) → i * 4 < n → Headers m → Headers (step i m)
  step-Headers i m lt h = record {
    src_size = step-kept i m src lt (omega arith) ∙ h.src_size;
    dst_size = rw (step-kept i m dst lt (omega arith)) h.dst_size;
    src_ptr = step-kept i m (src + 32) lt (omega arith) ∙ h.src_ptr;
    dst_ptr = step-kept i m (dst + 32) lt (omega arith) ∙ h.dst_ptr;
  }

  step-other :
      (i : ℕ) (m : Mem) (x : ℕ)
      → x % 4 ≡ 0
      → x ≢ dst + 40 + i * 4
      → load_int (step i m) x ≡ load_int m x
  unfolding step
  step-other i m x at ne =
      load_int-store_int_other m (dst + 40 + i * 4) (load_int m (src + 40 + i * 4)) x
        (load_int-lt m (src + 40 + i * 4)) (omega arith) at ne

  step_self :
      (i : ℕ) (m : Mem) → load_int (step i m) (dst + 40 + i * 4) ≡ load_int m (src + 40 + i * 4)
  unfolding step
  step_self i m =
      load_int-store_int m (dst + 40 + i * 4) (load_int m (src + 40 + i * 4))
        (load_int-lt m (src + 40 + i * 4))

  copy_loop-step :
      (fuel i : ℕ) (m : Mem)
      → i * 4 < n
      → Headers m
      → copy_loop (suc fuel) src dst i m ≡ copy_loop fuel src dst (i + 1) (step i m)
  unfolding copy_loop step
  copy_loop-step fuel i m lt h =
      let go : (ltb (i * 4) (size m src) && ltb (i * 4) (size m dst)) ≡ true =
        ground (arith, h.src_size, h.dst_size) in
      rw (go, h.src_ptr, h.dst_ptr) refl

  copy_loop-stop :
      (fuel i : ℕ) (m : Mem) → n ≤ i * 4 → Headers m → copy_loop (suc fuel) src dst i m ≡ some m
  unfolding copy_loop
  copy_loop-stop fuel i m le h =
      let stop : (ltb (i * 4) (size m src) && ltb (i * 4) (size m dst)) ≡ false =
        ground (arith, h.src_size) in
      rw stop refl

  pub copy_loop-Copied :
      (fuel i : ℕ) (m : Mem) → n < (fuel + i) * 4 → i * 4 ≤ n → Headers m → Copied fuel i m
  copy_loop-Copied zero i m enough le h = absurd (omega arith)
  copy_loop-Copied (suc fuel) i m enough le h = elim (Bool-cases (ltb (i * 4) n)) [
    | inl more ↦
        let lt : i * 4 < n = ground arith in
        let c =
          copy_loop-Copied fuel (i + 1) (step i m) (omega arith) (omega arith)
            (step-Headers i m lt h) in
        record {
          mem = c.mem;
          runs = copy_loop-step fuel i m lt h ∙ c.runs;
          copied = λ j le' lt'. elim (here-or-after i j le') [
            | inl here ↦
                c.before (dst + 40 + j * 4) (omega arith) (omega arith)
                ∙ subst
                    (λ k. load_int (step i m) (dst + 40 + k * 4) ≡ load_int m (src + 40 + k * 4))
                    (sym here) (step_self i m)
            | inr after ↦
                c.copied j after lt' ∙ step-other i m (src + 40 + j * 4) (omega arith) (omega arith)
          ];
          before = λ x at lt'. c.before x at (omega arith) ∙ step-other i m x at (omega arith);
          kept = λ x away. c.kept x away ∙ step-kept i m x lt away;
        }
    | inr done ↦
        let le' : n ≤ i * 4 = ground arith in
        record {
          mem = m;
          runs = copy_loop-stop fuel i m le' h;
          copied = λ j le'' lt'. absurd (omega arith);
          before = λ x at lt'. refl;
          kept = λ x away. refl;
        }
  ]

pub copy_block-loop :
    (fuel src dst : ℕ) (m m' : Mem)
    → ptr m src ≡ data_of src
    → ptr m dst ≡ data_of dst
    → copy_loop fuel src dst 0 m ≡ some m'
    → copy_block fuel src dst m ≡ some m'
unfolding copy_block
copy_block-loop fuel src dst m m' ps pd runs =
    let go : (ptr m src == null || ptr m dst == null) ≡ false = ground (arith, ps, pd) in rw go runs

-- A block whose `ptr` is NULL, as `split_block` leaves it, is no target: `copy_block` changes
-- nothing.
pub copy_block-no_ptr :
    (fuel src dst : ℕ) (m : Mem) → ptr m dst ≡ null → copy_block fuel src dst m ≡ some m
unfolding copy_block
copy_block-no_ptr fuel src dst m none_there =
    let stop : (ptr m src == null || ptr m dst == null) ≡ true = ground (arith, none_there) in
    rw stop refl
