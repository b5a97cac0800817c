-- ===== src/Metrics/Memory.antt =====
-- The readers of /proc/meminfo in src/metrics.c.
pub mod Usage
use metrics_monitor.Base.{ℕ, ◌||◌, Option, none, some, List, [], ◌∷◌, String, ◌==◌, if◌then◌else◌}
use metrics_monitor.Double.{Double}
use metrics_monitor.Alloc.Words.{sub64}
use metrics_monitor.Stdio.{Bytes, format, sscanf, read_lines, fgets_all}
use metrics_monitor.Metrics.Counters.{buffer_size, one_number, find_number}

abbrev pub total_format : String
total_format = "MemTotal: %llu kB"

abbrev pub available_format : String
available_format = "MemAvailable: %llu kB"

-- `total_mem` and `free_mem` of `get_memory_usage`.
pub record MemInfo : Type 0 where
  pub total_mem : ℕ
  pub free_mem : ℕ

-- The loop of `get_memory_usage`: it goes on behind MemTotal and stops behind MemAvailable.
unfoldable pub meminfo_loop : List Bytes → MemInfo → MemInfo
unfolding one_number
meminfo_loop [] i = i
meminfo_loop (l ∷ ls) i = elim (one_number (sscanf (format total_format) l)) [
  | some n ↦ meminfo_loop ls (record i { total_mem = n })
  | none ↦ elim (one_number (sscanf (format available_format) l)) [
    | some n ↦ record i { free_mem = n }
    | none ↦ meminfo_loop ls i
  ]
]

module _ (D : Double) where
  open D use {Carrier, of_ℕ, of_neg, mul, div}

  abbrev pub memory_amount : String → Option Bytes → Carrier
  memory_amount fmt none = of_neg 1
  memory_amount fmt (some content) =
      let v : ℕ = find_number (format fmt) (read_lines buffer_size content) 0 in
      if v == 0 then of_neg 1 else of_ℕ v

  unfoldable pub get_memory_total : Option Bytes → Carrier
  unfolding find_number format fgets_all sscanf
  get_memory_total meminfo = memory_amount total_format meminfo

  unfoldable pub get_memory_avalible : Option Bytes → Carrier
  unfolding find_number format fgets_all sscanf
  get_memory_avalible meminfo = memory_amount available_format meminfo

  -- The end of `get_memory_usage`; the difference is taken on `unsigned long long`.
  unfoldable pub usage_percent : MemInfo → Carrier
  usage_percent i =
      if i.total_mem == 0 || i.free_mem == 0
      then of_neg 1
      else mul (div (of_ℕ (sub64 i.total_mem i.free_mem)) (of_ℕ i.total_mem)) (of_ℕ 100)

  unfoldable pub get_memory_usage : Option Bytes → Carrier
  unfolding meminfo_loop usage_percent format fgets_all sscanf
  get_memory_usage none = of_neg 1
  get_memory_usage (some content) =
      usage_percent
        (meminfo_loop (read_lines buffer_size content) (record { total_mem = 0; free_mem = 0 }))

  unfoldable pub get_memory_usage_2 : Option Bytes → Carrier
  unfolding get_memory_usage
  get_memory_usage_2 meminfo = div (get_memory_usage meminfo) (of_ℕ 100)
