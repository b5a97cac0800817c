-- ===== src/Memory.antt =====
-- The memory of the process as the allocator of lib/memory sees it: 8-byte words at byte
-- addresses that are multiples of 8, on a little-endian LP64 machine. A `size_t` or a pointer is
-- one word; an `int` at offset 0 of a word is its low half, at offset 4 its high half.
use metrics_monitor.Base.{
  ℕ, ◌+◌, ◌-◌, ◌*◌, ◌/◌, ◌%◌, ◌^◌, ◌≤◌, ◌<◌, ◌≡◌, ◌≢◌, ◌⊎◌, refl, arith, ◌==◌, if◌then◌else◌,
}

abbrev pub Mem : Type 0
Mem = ℕ → ℕ

-- The null pointer.
abbrev pub null : ℕ
null = 0

-- An 8-byte write.
unfoldable pub store : Mem → ℕ → ℕ → Mem
store m a v x = if x == a then v else m x

-- A 4-byte read at an address that is a multiple of 4.
unfoldable pub load_int : Mem → ℕ → ℕ
load_int m a = if a % 8 == 0 then m a % 2 ^ 32 else m (a - 4) / 2 ^ 32 % 2 ^ 32

-- A 4-byte write: the other half of the word stays.
unfoldable pub store_int : Mem → ℕ → ℕ → Mem
store_int m a v =
    if a % 8 == 0
    then store m a (m a / 2 ^ 32 * 2 ^ 32 + v)
    else store m (a - 4) (v * 2 ^ 32 + m (a - 4) % 2 ^ 32)

pub store_same : (m : Mem) (a v : ℕ) → store m a v a ≡ v
unfolding store
store_same m a v = ground arith

pub store_other : (m : Mem) (a v x : ℕ) → x ≢ a → store m a v x ≡ m x
unfolding store
store_other m a v x h = ground arith

pub load_int-lt : (m : Mem) (a : ℕ) → load_int m a < 4294967296
unfolding load_int
load_int-lt m a = ground arith

-- An `int` that was written is read again, and every other `int` is as before.
pub load_int-store_int : (m : Mem) (a v : ℕ) → v < 4294967296 → load_int (store_int m a v) a ≡ v
unfolding load_int store_int store
load_int-store_int m a v small = ground arith

pub load_int-store_int_other :
    (m : Mem) (a v x : ℕ)
    → v < 4294967296
    → a % 4 ≡ 0
    → x % 4 ≡ 0
    → x ≢ a
    → load_int (store_int m a v) x ≡ load_int m x
unfolding load_int store_int store
load_int-store_int_other m a v x small ha hx ne = ground arith

-- A write of an `int` between two addresses leaves the words outside alone.
pub store_int-outside :
    (m : Mem) (a v x lo hi : ℕ)
    → lo % 8 ≡ 0
    → lo ≤ a
    → a < hi
    → a % 4 ≡ 0
    → (x < lo) ⊎ (hi ≤ x)
    → store_int m a v x ≡ m x
unfolding store_int store
store_int-outside m a v x lo hi at above below whole away = ground arith

-- What an `int` reads lies in its own word or in the one that starts 4 bytes before.
pub load_int-frame :
    (m m' : Mem) (a : ℕ) → m' a ≡ m a → m' (a - 4) ≡ m (a - 4) → load_int m' a ≡ load_int m a
unfolding load_int
load_int-frame m m' a e f = rw (e, f) refl
