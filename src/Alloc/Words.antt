-- ===== src/Alloc/Words.antt =====
-- Arithmetic on `size_t` (64 bits) and the macro `align` of lib/memory/include/memory.h.
pub mod Bounds
use metrics_monitor.Base.{ℕ, ◌+◌, ◌-◌, ◌*◌, ◌/◌, ◌%◌, ◌^◌, ◌≤◌, ◌<◌, ◌≡◌, refl, arith}

abbrev pub add64 : ℕ → ℕ → ℕ
add64 a b = (a + b) % 2 ^ 64

-- The difference of two words, which wraps below 0.
abbrev pub sub64 : ℕ → ℕ → ℕ
sub64 a b = (a + 2 ^ 64 - b) % 2 ^ 64

-- `(((((x) - 1) >> 3) << 3) + 8)` on a `size_t`.
unfoldable pub align : ℕ → ℕ
align x = add64 (sub64 x 1 / 8 * 8 % 2 ^ 64) 8
