-- ===== src/Alloc/Report/Totals.antt =====
-- What `memory_usage`, the loop of `check_heap` and `external_frag` of lib/memory/src/memory.c
-- compute, on the block list.
use metrics_monitor.Base.{
  ℕ, zero, suc, ◌+◌, ◌<◌, ◌≡◌, refl, inl, inr, Bool-cases, some, map, List, [], ◌∷◌, arith,
  if◌then◌else◌, length,
}
use metrics_monitor.Memory.{Mem}
use metrics_monitor.Alloc.Words.{add64}
use metrics_monitor.Alloc.Block.{next, prev}
use metrics_monitor.Alloc.State.{Heap}
use metrics_monitor.Alloc.Layout.{Cell, Shows}
use metrics_monitor.Alloc.Layout.Fuse.{total_size}
use metrics_monitor.Alloc.Report.{Usage, BlockLines, usage_loop, memory_usage}

-- The bytes of the blocks in use, and of the free ones.
unfoldable pub used_size : List Cell → ℕ
used_size [] = 0
used_size (c ∷ cs) = (if c.is_free then 0 else c.size) + used_size cs

unfoldable pub free_size : List Cell → ℕ
free_size [] = 0
free_size (c ∷ cs) = (if c.is_free then c.size else 0) + free_size cs

pub used-free-total : (cs : List Cell) → used_size cs + free_size cs ≡ total_size cs
unfolding used_size free_size total_size
used-free-total [] = refl
used-free-total (c ∷ cs) = ground (arith, used-free-total cs)

-- What is printed for a block: the size of its cell, and the fields `prev` and `next` of its header.
abbrev pub lines_of : Mem → Cell → BlockLines
lines_of m c = record { bytes = c.size; prev = prev m c.addr; next = next m c.addr }

usage_loop-sums :
    (m : Mem) (fuel p : ℕ) (u : Usage) (cs : List Cell)
    → length cs < fuel
    → u.total_allocated + used_size cs < 18446744073709551616
    → u.total_free + free_size cs < 18446744073709551616
    → Shows m p cs
    → usage_loop fuel p u m
      ≡ some (
        map (lines_of m) cs,
        record {
          total_allocated = u.total_allocated + used_size cs;
          total_free = u.total_free + free_size cs;
        },
      )
unfolding usage_loop used_size free_size
usage_loop-sums m zero p u cs h a f sh = absurd (omega arith)
usage_loop-sums m (suc fuel) p u [] h a f sh = ground arith
usage_loop-sums m (suc fuel) p u (c ∷ cs) h a f sh = elim (Bool-cases c.is_free) [
  | inl free ↦ ground (
    arith,
    usage_loop-sums m fuel (next m c.addr) (record u { total_free = u.total_free + c.size }) cs
        (omega arith) (ground arith) (ground arith) sh.4,
  )
  | inr used ↦ ground (
    arith,
    usage_loop-sums m fuel (next m c.addr)
        (record u { total_allocated = u.total_allocated + c.size }) cs (omega arith) (ground arith)
        (ground arith) sh.4,
  )
]

-- `memory_usage` prints the lines of every block, in the order of the list, and reports the bytes
-- in use, the free bytes and, as the total memory used, the size of all blocks, which is their sum;
-- this size is below 2^64 and the fuel exceeds the length of the list.
pub memory_usage-sums :
    (fuel : ℕ) (h : Heap) (cs : List Cell)
    → length cs < fuel
    → total_size cs < 18446744073709551616
    → Shows h.mem h.base cs
    → (memory_usage fuel h
        ≡ some (
          map (lines_of h.mem) cs,
          total_size cs,
          record { total_allocated = used_size cs; total_free = free_size cs },
        ))
      × (used_size cs + free_size cs ≡ total_size cs)
unfolding memory_usage
memory_usage-sums fuel h cs enough small sh =
    let start : Usage = record { total_allocated = 0; total_free = 0 } in
    let counted : usage_loop fuel h.base start h.mem
        ≡ some (
          map (lines_of h.mem) cs,
          record { total_allocated = used_size cs; total_free = free_size cs },
        ) =
      ground (
        arith,
        usage_loop-sums h.mem fuel h.base start cs enough (omega (arith, used-free-total cs))
            (omega (arith, used-free-total cs)) sh,
      ) in
    let total : add64 (used_size cs) (free_size cs) ≡ total_size cs =
      omega (arith, used-free-total cs) in
    (rw (counted, memory_usage, total) refl, used-free-total cs)
