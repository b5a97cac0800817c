-- ===== src/Alloc/Find.antt =====
-- `find_block` of lib/memory/src/memory.c. Each loop runs on fuel (`none` when it runs out) and
-- gives the block found, 0 for NULL, with the value left in `*last`.
pub mod First
pub mod Worst
pub mod Best
use metrics_monitor.Base.{
  ℕ, zero, suc, Bool, true, false, ◌&&◌, ◌||◌, Option, none, some, ◌==◌, ltb, leb, if◌then◌else◌,
}
use metrics_monitor.Memory.{Mem, null}
use metrics_monitor.Alloc.Words.{sub64}
use metrics_monitor.Alloc.Block.{size, next, is_free, pagesize}
use metrics_monitor.Alloc.State.{Method, first_fit, best_fit, worst_fit, other}

-- A free block that is large enough.
abbrev pub fits : Mem → ℕ → ℕ → Bool
fits m s b = is_free m b && leb s (size m b)

unfoldable pub first_loop : Mem → ℕ → ℕ → ℕ → ℕ → Option (ℕ × ℕ)
first_loop m s zero b last = none
first_loop m s (suc fuel) b last =
    let rest = first_loop m s fuel (next m b) b in
    if b == null || fits m s b then some (b, last) else rest

-- Whether the best-fit loop takes `b` over a best block whose surplus is `dif`.
abbrev pub closer : Mem → ℕ → ℕ → ℕ → Bool
closer m s dif b = is_free m b && (ltb s (size m b) && ltb (sub64 (size m b) s) dif)

-- A free block of exactly the size.
abbrev pub exact : Mem → ℕ → ℕ → Bool
exact m s b = is_free m b && (size m b == s)

unfoldable pub best_loop : Mem → ℕ → ℕ → ℕ → ℕ → ℕ → ℕ → Option (ℕ × ℕ)
best_loop m s zero b last dif best = none
best_loop m s (suc fuel) b last dif best =
    let found = best_loop m s fuel (next m b) b (sub64 (size m b) s) b in
    let rest = best_loop m s fuel (next m b) b dif best in
    if b == null
    then some (best, last)
    else if exact m s b
    then some (b, last)
    else if closer m s dif b
    then found
    else rest

abbrev pub further : Mem → ℕ → ℕ → ℕ → Bool
further m s dif b = is_free m b && (ltb s (size m b) && ltb dif (sub64 (size m b) s))

unfoldable pub worst_loop : Mem → ℕ → ℕ → ℕ → ℕ → ℕ → ℕ → Option (ℕ × ℕ)
worst_loop m s zero b last dif best = none
worst_loop m s (suc fuel) b last dif best =
    let found = worst_loop m s fuel (next m b) b (sub64 (size m b) s) b in
    let rest = worst_loop m s fuel (next m b) b dif best in
    if b == null
    then some (best, last)
    else if exact m s b
    then some (b, last)
    else if further m s dif b
    then found
    else rest

unfoldable pub find_block : ℕ → Method → Mem → ℕ → ℕ → ℕ → Option (ℕ × ℕ)
find_block fuel Method.first_fit m b last s = first_loop m s fuel b last
find_block fuel Method.best_fit m b last s = best_loop m s fuel b last pagesize null
find_block fuel Method.worst_fit m b last s = worst_loop m s fuel b last 0 null
find_block fuel (Method.other _) m b last s = some (null, last)
