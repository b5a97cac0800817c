-- ===== src/Alloc/Api.antt =====
-- The entry points of lib/memory/src/memory.c: `my_malloc`, `my_free`, `my_calloc`, `my_realloc`
-- and `mem_trim`.
use metrics_monitor.Base.{
  ℕ, zero, suc, ◌+◌, ◌*◌, ◌%◌, ◌^◌, true, false, ◌&&◌, ◌||◌, none, some, ◌∷◌, ◌==◌, leb,
  if◌then◌else◌, not, Bool,
}
use metrics_monitor.Memory.{Mem, null, store}
use metrics_monitor.Alloc.Words.{add64, align}
use metrics_monitor.Alloc.Block.{
  block_size, size, next, prev, is_free, ptr, data_of, set_next, set_free, get_block,
}
use metrics_monitor.Alloc.State.{
  Os, Heap, Cmd, pure, ◌>>=◌, ◌>>◌, get, put, write, log_handler, Entry, alloc_type_malloc,
  alloc_type_calloc, alloc_type_realloc, alloc_type_free,
}
use metrics_monitor.Alloc.Find.{find_block}
use metrics_monitor.Alloc.Ops.{
  copy_block, valid_addr, fusion, on_mem, extend_heap, trim_block, take_block,
}

-- The block that `my_malloc` uses for `s` bytes, or NULL.
unfoldable pub place : Os → ℕ → ℕ → Cmd ℕ
place os fuel s h =
    if h.base == null
    then (do
      b ← extend_heap os null s
      h' ← get
      put (if b == null then h' else record h' { base = b })
      pure b)
        h
    else elim (find_block fuel h.method h.mem h.base h.base s) [
      | none ↦ none
      | some (b, last) ↦
          if b == null
          then extend_heap os last s h
          else some (b, record h { mem = take_block b s h.mem })
    ]

-- The end of `my_malloc` for the block `b`: the log entry, unless `malloc_call` suppresses it.
unfoldable pub log_malloc : Os → ℕ → ℕ → Heap → Heap
log_malloc os b n h =
    let e : Entry = record {
      func_name = "malloc";
      type = alloc_type_malloc;
      ptr = data_of b;
      size = n;
    } in
    let h' : Heap = if h.malloc_call == 0 then log_handler os e h else h in
    record h' { malloc_call = 0 }

unfoldable pub my_malloc : Os → ℕ → ℕ → Cmd ℕ
my_malloc os fuel n = do
  b ← place os fuel (align n)
  h ← get
  if b == null then pure null else do put (log_malloc os b n h); pure (data_of b)

-- The last block leaves the list: `base` or the link of its predecessor becomes NULL, and the
-- program asks for a new break.
unfoldable pub drop_last : ℕ → Heap → Heap
drop_last b h =
    if next h.mem b == null
    then (let m : Mem =
          if prev h.mem b == null then h.mem else set_next h.mem (prev h.mem b) null in
        record h {
          base = if prev h.mem b == null then null else h.base;
          mem = m;
          breaks = (b + size m b) ∷ h.breaks;
        })
    else h

abbrev pub free_entry : ℕ → Entry
free_entry p = record { func_name = "free"; type = alloc_type_free; ptr = p; size = 0 }

-- `my_free` once the address is known to be valid.
unfoldable pub release : Os → ℕ → ℕ → ℕ → Cmd (Unit {0})
release os fuel b p = do
  write (λ m. set_free m b 1)
  on_mem (fusion fuel b)
  h ← get
  put (log_handler os (free_entry p) (drop_last b h))

unfoldable pub my_free : Os → ℕ → ℕ → Cmd (Unit {0})
my_free os fuel p h = elim (valid_addr fuel p h) [
  | none ↦ none
  | some true ↦ release os fuel (get_block p) p h
  | some false ↦ some (tt, h)
]

-- `for (i = 0; i < n; i++) new[i] = 0;` on 8-byte elements.
unfoldable pub zero_words : ℕ → ℕ → Mem → Mem
zero_words zero a m = m
zero_words (suc n) a m = zero_words n (a + 8) (store m a 0)

unfoldable pub my_calloc : Os → ℕ → ℕ → ℕ → Cmd ℕ
my_calloc os fuel number n h =
    if number == 0 || n == 0
    then some (null, h)
    else (do
      new ← my_malloc os fuel (number * n % 2 ^ 64)
      write (λ m.
          if new == null then m else zero_words (align (number * n % 2 ^ 64) * 4 % 2 ^ 64) new m)
      h' ← get
      put (
          log_handler os
            (record { func_name = "calloc"; type = alloc_type_calloc; ptr = new; size = 0 }) h')
      pure new)
        (record h { malloc_call = 1 })

abbrev pub realloc_entry : ℕ → Entry
realloc_entry p = record { func_name = "realloc"; type = alloc_type_realloc; ptr = p; size = 0 }

-- Writes the entry of `my_realloc` and returns `p`.
abbrev pub log_realloc : Os → ℕ → Cmd ℕ
log_realloc os p h = some (p, log_handler os (realloc_entry p) h)

-- Whether `my_realloc` tries to grow the block `b` in place.
abbrev pub can_grow : ℕ → ℕ → Mem → Bool
can_grow b s m =
    not (next m b == null)
    && (is_free m (next m b) && leb s (add64 (add64 (size m b) block_size) (size m (next m b))))

-- The last branch of `my_realloc`: a new block, the copy, and the release of the old one.
unfoldable pub move_block : Os → ℕ → ℕ → ℕ → ℕ → Cmd ℕ
move_block os fuel b p s = do
  newp ← my_malloc os fuel s
  if newp == null
      then pure null
      else do on_mem (copy_block fuel b (get_block newp)); my_free os fuel p; log_realloc os newp

-- `my_realloc` for a valid address `p` with the header `b`.
unfoldable pub resize : Os → ℕ → ℕ → ℕ → ℕ → Cmd ℕ
resize os fuel b p s h =
    if leb s (size h.mem b)
    then (do write (trim_block b s); log_realloc os p) h
    else if can_grow b s h.mem
    then (do on_mem (fusion fuel b); write (trim_block b s); log_realloc os p) h
    else move_block os fuel b p s h

unfoldable pub my_realloc : Os → ℕ → ℕ → ℕ → Cmd ℕ
my_realloc os fuel p n h0 =
    let h : Heap = record h0 { malloc_call = 1 } in
    if p == null
    then (do newp ← my_malloc os fuel n; log_realloc os newp) h
    else elim (valid_addr fuel p h) [
      | none ↦ none
      | some true ↦ resize os fuel (get_block p) p (align n) h
      | some false ↦ some (null, h)
    ]

-- One round of `mem_trim`: the next block to look at, 0 at the end.
unfoldable pub trim_step : Os → ℕ → ℕ → Cmd ℕ
trim_step os fuel current = do
  h ← get
  if is_free h.mem current then put h else my_free os fuel (ptr h.mem current)
  on_mem (fusion fuel current)
  h' ← get
  put (if next h'.mem current == null then record h' { base = null } else h')
  pure (next h'.mem current)

unfoldable pub trim_loop : Os → ℕ → ℕ → ℕ → Cmd (Unit {0})
trim_loop os fuel zero current h = none
trim_loop os fuel (suc rounds) current h =
    if current == null
    then some (tt, h)
    else (do n ← trim_step os fuel current; trim_loop os fuel rounds n) h

unfoldable pub mem_trim : Os → ℕ → Cmd (Unit {0})
mem_trim os fuel h = trim_loop os fuel fuel h.base h
