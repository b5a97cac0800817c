-- ===== src/Alloc/Block.antt =====
-- `struct s_block` of lib/memory/include/memory.h: the fields of a header at address `b`, read
-- from and written to the memory, with the layout of the LP64 ABI (`size` at 0, `next` at 8,
-- `prev` at 16, `free` at 24, `ptr` at 32, `data` at 40).
use metrics_monitor.Base.{ℕ, ◌+◌, ◌*◌, ◌/◌, ◌%◌, Bool, not, ◌==◌}
use metrics_monitor.Memory.{Mem, store}
use metrics_monitor.Alloc.Words.{sub64}

-- `BLOCK_SIZE`, which is also the offset of `data`.
abbrev pub block_size : ℕ
block_size = 40

-- `PAGESIZE`.
abbrev pub pagesize : ℕ
pagesize = 4096

module _ (m : Mem) (b : ℕ) where
  abbrev pub size : ℕ
  size = m b

  abbrev pub next : ℕ
  next = m (b + 8)

  abbrev pub prev : ℕ
  prev = m (b + 16)

  -- The `int` field; the other half of its word is padding.
  abbrev pub free : ℕ
  free = m (b + 24) % 4294967296

  abbrev pub is_free : Bool
  is_free = not (free == 0)

  abbrev pub ptr : ℕ
  ptr = m (b + 32)

abbrev pub data_of : ℕ → ℕ
data_of b = b + block_size

module _ (m : Mem) (b v : ℕ) where
  abbrev pub set_size : Mem
  set_size = store m b v

  abbrev pub set_next : Mem
  set_next = store m (b + 8) v

  abbrev pub set_prev : Mem
  set_prev = store m (b + 16) v

  abbrev pub set_free : Mem
  set_free = store m (b + 24) (m (b + 24) / 4294967296 * 4294967296 + v)

  abbrev pub set_ptr : Mem
  set_ptr = store m (b + 32) v

-- `get_block`: the header that stands before a data address.
unfoldable pub get_block : ℕ → ℕ
get_block p = sub64 p block_size
