-- ===== src/Metrics/Counters/Disk.antt =====
-- `get_disk_stats` of src/metrics.c: which line it reports.
use metrics_monitor.Base.{
  ℕ, ◌+◌, ◌%◌, ◌≡◌, ◌≢◌, refl, ap, ◌∙◌, none, some, List, [], ◌∷◌, ◌++◌, ==-false, All,
}
use metrics_monitor.Double.{Double}
use metrics_monitor.Stdio.{Bytes, Directive, Value, num, format, sscanf, read_lines}
use metrics_monitor.Metrics.Counters.{
  DiskStats, disk_format, one_number, store_stats, stats_loop, get_disk_stats,
}

-- A line that gives at least two numbers, or none: the loop goes on behind it.
abbrev pub GoesOn : List Directive → Bytes → Type 0
GoesOn fmt l = one_number (sscanf fmt l) ≡ none

stats_loop-skip :
    (fmt : List Directive) (xs ys : List Bytes) (d : DiskStats)
    → All (GoesOn fmt) xs
    → (d' : DiskStats) × (stats_loop fmt (xs ++ ys) d ≡ stats_loop fmt ys d')
unfolding stats_loop
stats_loop-skip fmt [] ys d a = (d, refl)
stats_loop-skip fmt (x ∷ xs) ys d a =
    let rest = stats_loop-skip fmt xs ys (store_stats (sscanf fmt x) d) a.1 in
    (rest.0, rw (a.0, stats_loop) rest.1)

-- What a line from which `vs` is read does, if the loop goes on behind it.
stats_loop-next :
    (fmt : List Directive) (l : Bytes) (ys : List Bytes) (vs : List Value) (d : DiskStats)
    → sscanf fmt l ≡ vs
    → one_number vs ≡ none
    → stats_loop fmt (l ∷ ys) d ≡ stats_loop fmt ys (store_stats vs d)
unfolding stats_loop
stats_loop-next fmt l ys vs d e none_one =
    let goes : one_number (sscanf fmt l) ≡ none = ap one_number e ∙ none_one in
    rw (stats_loop, goes) (ap (λ x. stats_loop fmt ys (store_stats x d)) e)

-- Lines that store nothing leave the counters alone.
stats_loop-empty :
    (fmt : List Directive) (ys : List Bytes) (d : DiskStats)
    → All (λ l. sscanf fmt l ≡ []) ys
    → stats_loop fmt ys d ≡ d
unfolding stats_loop store_stats one_number
stats_loop-empty fmt [] d a = refl
stats_loop-empty fmt (y ∷ ys) d a =
    stats_loop-next fmt y ys [] d a.0 refl ∙ stats_loop-empty fmt ys d a.1

stats_loop-pair :
    (fmt : List Directive) (l : Bytes) (ys : List Bytes) (r w : ℕ) (d : DiskStats)
    → sscanf fmt l ≡ num r ∷ num w ∷ []
    → All (λ k. sscanf fmt k ≡ []) ys
    → stats_loop fmt (l ∷ ys) d ≡ record { read = r; write = w }
unfolding store_stats one_number
stats_loop-pair fmt l ys r w d e a =
    stats_loop-next fmt l ys (num r ∷ num w ∷ []) d e refl
    ∙ stats_loop-empty fmt ys (record { read = r; write = w }) a

-- The loop does not stop at a line from which both numbers are read, since its test asks for
-- exactly one: the last such line of /proc/diskstats decides, here `l`, if no line before it gives
-- exactly one number and no line behind it gives any. The result is the sum of its two numbers modulo 2^64, the first not 0.
pub get_disk_stats-last :
    (D : Double) (content : Bytes) (xs ys : List Bytes) (l : Bytes) (r w : ℕ)
    → read_lines 256 content ≡ xs ++ (l ∷ ys)
    → All (GoesOn (format disk_format)) xs
    → sscanf (format disk_format) l ≡ num r ∷ num w ∷ []
    → All (λ k. sscanf (format disk_format) k ≡ []) ys
    → r ≢ 0
    → get_disk_stats D (some content) ≡ D.of_ℕ ((r + w) % 18446744073709551616)
unfolding get_disk_stats
get_disk_stats-last D content xs ys l r w e a two b ne =
    let skip =
      stats_loop-skip (format disk_format) xs (l ∷ ys) (record { read = 0; write = 0 }) a in
    let got : stats_loop (format disk_format) (read_lines 256 content)
          (record { read = 0; write = 0 })
        ≡ record { read = r; write = w } =
      rw e (skip.1 ∙ stats_loop-pair (format disk_format) l ys r w skip.0 two b) in
    rw (got, ==-false r 0 ne) refl
