-- ===== src/Alloc/Words/Bounds.antt =====
-- What `align` of lib/memory/include/memory.h and the `size_t` operations compute.
use metrics_monitor.Base.{ℕ, ◌+◌, ◌-◌, ◌%◌, ◌^◌, ◌≤◌, ◌<◌, ◌≡◌, ◌⊎◌, arith}
use metrics_monitor.Alloc.Words.{add64, sub64, align}

pub sub64-eq : (a b : ℕ) → b ≤ a → a < 2 ^ 64 → sub64 a b ≡ a - b
sub64-eq a b h k = omega arith

pub sub64-add64 : (a b : ℕ) → a < 2 ^ 64 → b < 2 ^ 64 → sub64 (add64 a b) b ≡ a
sub64-add64 a b h k = omega arith

-- A request of at least one byte, up to 2^64 - 8, is rounded up to the next multiple of 8.
pub align_bounds :
    (x : ℕ)
    → 0 < x
    → x + 8 ≤ 2 ^ 64
    → (align x % 8 ≡ 0) × (x ≤ align x) × (align x < x + 8) × (align x < 2 ^ 64)
unfolding align
align_bounds x h k = omega arith

-- A request of 0 bytes, and one of the seven largest sizes, is rounded to 0: the sum wraps.
pub align_wraps : (x : ℕ) → x < 2 ^ 64 → (x ≡ 0) ⊎ (2 ^ 64 < x + 8) → align x ≡ 0
unfolding align
align_wraps x h k = omega arith

-- An aligned size stays as it is.
pub align_again : (q : ℕ) → q % 8 ≡ 0 → 0 < q → q < 2 ^ 64 → align q ≡ q
unfolding align
align_again q h k l = omega arith
