-- ===== src/Alloc/Report.antt =====
-- The parts of lib/memory/src/memory.c that only read the heap: `memory_usage`, the checks of
-- `check_heap`, and `external_frag`. What is printed is returned as values.
pub mod Totals
pub mod Frag
pub mod Check
use metrics_monitor.Base.{
  ℕ, zero, suc, ◌+◌, Bool, true, false, not, ◌&&◌, Option, none, some, List, [], ◌∷◌, ◌++◌, ◌==◌,
  ltb, leb, if◌then◌else◌,
}
use metrics_monitor.Memory.{Mem, null}
use metrics_monitor.Double.{Double}
use metrics_monitor.Alloc.Words.{add64}
use metrics_monitor.Alloc.Block.{size, next, prev, free, is_free, ptr, get_block}
use metrics_monitor.Alloc.State.{Heap}

-- The two counters of `memory_usage`.
pub record Usage : Type 0 where
  pub total_allocated : ℕ
  pub total_free : ℕ

abbrev pub count_block : Mem → ℕ → Usage → Usage
count_block m b u =
    if is_free m b
    then record u { total_free = add64 u.total_free (size m b) }
    else record u { total_allocated = add64 u.total_allocated (size m b) }

-- The three lines printed for a block: the numbers in them. A pointer that is NULL is 0.
pub record BlockLines : Type 0 where
  pub bytes : ℕ
  pub prev : ℕ
  pub next : ℕ

abbrev pub lines_at : Mem → ℕ → BlockLines
lines_at m b = record { bytes = size m b; prev = prev m b; next = next m b }

-- The lines of the blocks, in the order in which they are printed, and the counters at the end.
unfoldable pub usage_loop : ℕ → ℕ → Usage → Mem → Option (List BlockLines × Usage)
usage_loop zero current u m = none
usage_loop (suc fuel) current u m =
    let rest : Option (List BlockLines × Usage) =
      elim (usage_loop fuel (next m current) (count_block m current u) m) [
        | none ↦ none
        | some (printed, counted) ↦ some (lines_at m current ∷ printed, counted)
      ] in
    if current == null then some ([], u) else rest

-- What the report prints: the lines of the blocks, the total memory used, and the counters.
unfoldable pub memory_usage : ℕ → Heap → Option (List BlockLines × ℕ × Usage)
unfolding usage_loop
memory_usage fuel h =
    elim (usage_loop fuel h.base (record { total_allocated = 0; total_free = 0 }) h.mem) [
      | none ↦ none
      | some (printed, u) ↦ some (printed, add64 u.total_allocated u.total_free, u)
    ]

-- What the loop of `check_heap` warns of.
pub data Warning : Type 0 where
  adjacent_free : ℕ → ℕ → Warning
  invalid_size : ℕ → Warning

abbrev pub warnings_at : Mem → ℕ → List Warning
warnings_at m b =
    (if is_free m b && (not (next m b == null) && is_free m (next m b))
      then adjacent_free b (next m b) ∷ []
      else [])
    ++ (if size m b == 0 then invalid_size b ∷ [] else [])

unfoldable pub check_loop : ℕ → ℕ → Mem → Option (List Warning)
check_loop zero current m = none
check_loop (suc fuel) current m =
    let rest : Option (List Warning) = elim (check_loop fuel (next m current) m) [
      | none ↦ none
      | some ws ↦ some (warnings_at m current ++ ws)
    ] in
    if current == null then some [] else rest

-- One line of the report of `check_heap`. A pointer that is NULL is `none`.
pub data Line : Type 0 where
  data_is_null block_is_null heap_check : Line
  size_of_block : ℕ → Line
  next_block prev_block : Option ℕ → Line
  free_flag : ℕ → Line
  data_addresses : ℕ → ℕ → Line
  no_data : Line
  heap_address : ℕ → Line

abbrev pub pointer : ℕ → Option ℕ
pointer p = if p == null then none else some p

-- The lines of `check_heap` on the header at `b`, where `sbrk(0)` gives `brk`.
unfoldable pub block_lines : ℕ → ℕ → Mem → List Line
block_lines brk b m =
    heap_check
    ∷ size_of_block (size m b)
    ∷ next_block (pointer (next m b))
    ∷ prev_block (pointer (prev m b))
    ∷ free_flag (free m b)
    ∷ (if ptr m b == null then no_data else data_addresses (ptr m b) (add64 (ptr m b) (size m b)))
    ∷ heap_address brk
    ∷ []

-- What `check_heap` prints for the address `p`: the lines, and the warnings behind them.
unfoldable pub check_heap : ℕ → ℕ → ℕ → Heap → Option (List Line × List Warning)
check_heap fuel brk p h =
    if p == null
    then some (data_is_null ∷ [], [])
    else if get_block p == null
    then some (block_is_null ∷ [], [])
    else elim (check_loop fuel h.base h.mem) [
      | none ↦ none
      | some ws ↦ some (block_lines brk (get_block p) h.mem, ws)
    ]

-- The largest size of a block in use, from `maxs` on.
unfoldable pub max_loop : ℕ → ℕ → ℕ → Mem → Option ℕ
max_loop zero current maxs m = none
max_loop (suc fuel) current maxs m =
    let maxs' : ℕ =
      if not (is_free m current) && ltb maxs (size m current) then size m current else maxs in
    let rest = max_loop fuel (next m current) maxs' m in if current == null then some maxs else rest

module _ (D : Double) where
  open D use {Carrier, of_ℕ, add, mul, div}

  -- `total_free` and `total` of `external_frag`.
  unfoldable pub frag_loop : ℕ → ℕ → ℕ → Carrier → Carrier → Mem → Option (Carrier × Carrier)
  frag_loop zero current maxs total_free total m = none
  frag_loop (suc fuel) current maxs total_free total m =
      let total_free' : Carrier =
        if is_free m current && ltb (size m current) maxs
        then add total_free (of_ℕ (size m current))
        else total_free in
      let rest =
        frag_loop fuel (next m current) maxs total_free' (add total (of_ℕ (size m current))) m in
      if current == null then some (total_free, total) else rest

  unfoldable pub external_frag : ℕ → Heap → Option Carrier
  unfolding max_loop frag_loop
  external_frag fuel h = elim (max_loop fuel h.base 0 h.mem) [
    | none ↦ none
    | some maxs ↦ elim (frag_loop fuel h.base maxs (of_ℕ 0) (of_ℕ 0) h.mem) [
      | none ↦ none
      | some (total_free, total) ↦ some (mul (div total_free total) (of_ℕ 100))
    ]
  ]
