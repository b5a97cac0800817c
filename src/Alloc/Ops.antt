-- ===== src/Alloc/Ops.antt =====
-- The operations of lib/memory/src/memory.c on blocks. `fuel` bounds the rounds of each loop over
-- the block list. The memory is total: the model has no fault.
use metrics_monitor.Base.{
  ℕ, zero, suc, ◌+◌, ◌*◌, Bool, false, not, ◌&&◌, ◌||◌, Option, none, some, ◌∷◌, ◌==◌, ltb, leb,
  if◌then◌else◌,
}
use metrics_monitor.Memory.{Mem, null, load_int, store_int}
use metrics_monitor.Alloc.Words.{add64, sub64}
use metrics_monitor.Alloc.Block.{
  block_size, size, next, is_free, ptr, data_of, set_size, set_next, set_prev, set_free, set_ptr,
  get_block,
}
use metrics_monitor.Alloc.State.{Os, Heap, Cmd}

-- The part of `split_block` behind its guard, with `n` the address of the new header. The fields
-- `prev` and `ptr` of the new header stay as the memory holds them.
unfoldable pub split_at : ℕ → ℕ → ℕ → Mem → Mem
split_at b s n m0 =
    let m1 : Mem = set_size m0 n (sub64 (sub64 (size m0 b) s) block_size) in
    let m2 : Mem = set_next m1 n (next m1 b) in
    let m3 : Mem = set_free m2 n 1 in let m4 : Mem = set_size m3 b s in set_next m4 b n

unfoldable pub split_block : ℕ → ℕ → Mem → Mem
split_block b s m =
    if leb (size m b) (add64 s block_size) then m else split_at b s (data_of b + s) m

-- The loop of `copy_block` from the `int` of index `i`.
unfoldable pub copy_loop : ℕ → ℕ → ℕ → ℕ → Mem → Option Mem
copy_loop zero src dst i m = none
copy_loop (suc fuel) src dst i m =
    let rest =
      copy_loop fuel src dst (i + 1)
        (store_int m (ptr m dst + i * 4) (load_int m (ptr m src + i * 4))) in
    if ltb (i * 4) (size m src) && ltb (i * 4) (size m dst) then rest else some m

unfoldable pub copy_block : ℕ → ℕ → ℕ → Mem → Option Mem
copy_block fuel src dst m =
    if ptr m src == null || ptr m dst == null then some m else copy_loop fuel src dst 0 m

unfoldable pub valid_loop : ℕ → ℕ → ℕ → ℕ → Mem → Option Bool
valid_loop zero p b current m = none
valid_loop (suc fuel) p b current m =
    let rest = valid_loop fuel p b (next m current) m in
    if current == null then some false else if current == b then some (ptr m current == p) else rest

unfoldable pub valid_addr : ℕ → ℕ → Heap → Option Bool
valid_addr fuel p h =
    if p == null || h.base == null then some false else valid_loop fuel p (get_block p) h.base h.mem

-- `if (b->next) b->next->prev = b;`
unfoldable pub relink : ℕ → Mem → Mem
relink b m = if next m b == null then m else set_prev m (next m b) b

-- One round of the loop of `fusion`.
unfoldable pub fuse_step : ℕ → Mem → Mem
unfolding relink
fuse_step b m0 =
    let m1 : Mem = set_size m0 b (add64 (size m0 b) (size m0 (next m0 b))) in
    let m2 : Mem = set_next m1 b (next m1 (next m1 b)) in relink b m2

-- Whether the loop of `fusion` goes on: the next block is free and is not the last one.
abbrev pub fuses : ℕ → Mem → Bool
fuses b m = not (next m b == null) && (is_free m (next m b) && not (next m (next m b) == null))

unfoldable pub fusion_loop : ℕ → ℕ → Mem → Option Mem
fusion_loop zero b m = none
fusion_loop (suc fuel) b m =
    let rest = fusion_loop fuel b (fuse_step b m) in if fuses b m then rest else some m

unfoldable pub fusion : ℕ → ℕ → Mem → Option Mem
fusion fuel b m = if b == null then some m else fusion_loop fuel b m

-- Lifts a step on the memory that may run out of fuel.
abbrev pub on_mem : (Mem → Option Mem) → Cmd (Unit {0})
on_mem f h = elim (f h.mem) [ none ↦ none | some m ↦ some (tt, record h { mem = m }) ]

-- The header that `extend_heap` writes at `b`, and the link from the last block.
unfoldable pub init_block : ℕ → ℕ → ℕ → Mem → Mem
init_block b last s m0 =
    let m1 : Mem = set_size m0 b s in
    let m2 : Mem = set_next m1 b null in
    let m3 : Mem = set_prev m2 b last in
    let m4 : Mem = set_ptr m3 b (data_of b) in
    let m5 : Mem = if last == null then m4 else set_next m4 last b in set_free m5 b 0

unfoldable pub extend_heap : Os → ℕ → ℕ → Cmd ℕ
extend_heap os last s h = elim (os.mmap h.maps s h.mem) [
  | none ↦ some (null, h)
  | some (b, m) ↦
      some
        (b, record h { mem = init_block b last s m; maps = record { start = b; len = s } ∷ h.maps })
]

-- `if (b->size - s >= BLOCK_SIZE + 4) split_block(b, s);`
unfoldable pub trim_block : ℕ → ℕ → Mem → Mem
trim_block b s m = if leb (block_size + 4) (sub64 (size m b) s) then split_block b s m else m

-- Takes the free block `b` that `find_block` found.
unfoldable pub take_block : ℕ → ℕ → Mem → Mem
take_block b s m = let m' : Mem = trim_block b s m in set_free m' b 0
