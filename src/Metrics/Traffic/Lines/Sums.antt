-- ===== src/Metrics/Traffic/Lines/Sums.antt =====
-- `get_network_usage` and `get_disk_usage` of src/metrics.c on the lines that the kernel prints.
use metrics_monitor.Base.{
  ℕ, ◌+◌, ◌-◌, ◌*◌, ◌%◌, ◌≤◌, ◌<◌, ◌≡◌, refl, ap, ◌∙◌, true, Option, some, List, [], ◌∷◌, map,
  arith, All,
}
use metrics_monitor.Pairwise.{All-map}
use metrics_monitor.Double.{Double}
use metrics_monitor.Alloc.Words.{add64}
use metrics_monitor.Stdio.{Bytes, read_lines}
use metrics_monitor.Metrics.Traffic.{
  Traffic, no_traffic, add_traffic, sum_lines, growth, mega, read_net, read_disk, net_traffic,
  get_network_usage, get_disk_usage,
}
use metrics_monitor.Metrics.Traffic.Lines.{
  NetLine, net_line, IsNetLine, net_bytes, read_net-net_line, DiskLine, disk_line, IsDiskLine,
  disk_sectors, read_disk-disk_line,
}

-- The sum of a number of each entry.
abbrev pub total_of {ℓ} : {A : Type ℓ} → (A → ℕ) → List A → ℕ
total_of f [] = 0
total_of f (x ∷ xs) = f x + total_of f xs

abbrev sums : ℕ → ℕ → Traffic
sums r t = record { rx = r % 18446744073709551616; tx = t % 18446744073709551616 }

Traffic-eq : (a b : Traffic) → a.rx ≡ b.rx → a.tx ≡ b.tx → a ≡ b
Traffic-eq a b e f = λ i. record { rx = e i; tx = f i }

module _ {ℓ} {A : Type ℓ} (read : Bytes → Option Traffic) (line : A → Bytes)
    (of : A → Traffic) where
  -- The loop sums both counters modulo 2^64.
  sum_lines-map :
      (xs : List A) (r t : ℕ)
      → All (λ (x : A). read (line x) ≡ some (of x)) xs
      → sum_lines read (map line xs) (sums r t)
        ≡ sums (r + total_of (λ x. (of x).rx) xs) (t + total_of (λ x. (of x).tx) xs)
  unfolding sum_lines
  sum_lines-map [] r t a = Traffic-eq _ _ (omega arith) (omega arith)
  sum_lines-map (x ∷ xs) r t a =
      ap (sum_lines read (map line xs)) (step x r t a.0)
      ∙ sum_lines-map xs (r + (of x).rx) (t + (of x).tx) a.1
      ∙ Traffic-eq _ _ (omega arith) (omega arith)
    where
      step :
          (x' : A) (p q : ℕ)
          → read (line x') ≡ some (of x')
          → add_traffic (read (line x')) (sums p q) ≡ sums (p + (of x').rx) (q + (of x').tx)
      step x' p q got = rw got (Traffic-eq _ _ (omega arith) (omega arith))

  sum_lines-all :
      (xs : List A)
      → All (λ (x : A). read (line x) ≡ some (of x)) xs
      → sum_lines read (map line xs) no_traffic
        ≡ sums (total_of (λ x. (of x).rx) xs) (total_of (λ x. (of x).tx) xs)
  sum_lines-all xs a = sum_lines-map xs 0 0 a ∙ Traffic-eq _ _ (omega arith) (omega arith)

net_sums :
    (content a b : Bytes) (ls : List NetLine)
    → read_lines 512 content ≡ a ∷ b ∷ map net_line ls
    → All IsNetLine ls
    → net_traffic content
      ≡ sums (total_of (λ (l : NetLine). l.rx.value) ls) (total_of (λ (l : NetLine). l.tx.value) ls)
unfolding net_traffic
net_sums content a b ls e ok =
    rw e
      (sum_lines-all read_net net_line net_bytes ls (All-map ls (λ l k. read_net-net_line l k) ok))

total_of-plus :
    (ls : List NetLine)
    → total_of (λ (l : NetLine). l.rx.value + l.tx.value) ls
      ≡ total_of (λ (l : NetLine). l.rx.value) ls + total_of (λ (l : NetLine). l.tx.value) ls
total_of-plus [] = refl
total_of-plus (l ∷ ls) = omega (arith, total_of-plus ls)

-- When /proc/net/dev, read in pieces of at most 511 bytes, is two headings and then the lines of the
-- interfaces as the kernel prints them (a name without white space, numbers below 2^64, no digit
-- behind the last one), `get_network_usage` returns the bytes received and sent, summed over all
-- interfaces modulo 2^64, divided by 1024 * 1024.
pub get_network_usage-sums :
    (D : Double) (content a b : Bytes) (ls : List NetLine)
    → read_lines 512 content ≡ a ∷ b ∷ map net_line ls
    → All IsNetLine ls
    → get_network_usage D (some content)
      ≡ D.div
          (D.of_ℕ (total_of (λ (l : NetLine). l.rx.value + l.tx.value) ls % 18446744073709551616))
          (mega D)
unfolding get_network_usage
get_network_usage-sums D content a b ls e ok =
    let summed : add64 (net_traffic content).rx (net_traffic content).tx
        ≡ total_of (λ (l : NetLine). l.rx.value + l.tx.value) ls % 18446744073709551616 =
      rw (net_sums content a b ls e ok) (omega (arith, total_of-plus ls)) in
    ap (λ n. D.div (D.of_ℕ n) (mega D)) summed

abbrev pub read_total : List DiskLine → ℕ
read_total = total_of (λ (l : DiskLine). l.read_sectors.value)

abbrev pub write_total : List DiskLine → ℕ
write_total = total_of (λ (l : DiskLine). l.write_sectors.value)

disk_sums :
    (content : Bytes) (ls : List DiskLine)
    → read_lines 512 content ≡ map disk_line ls
    → All IsDiskLine ls
    → sum_lines read_disk (read_lines 512 content) no_traffic
      ≡ sums (read_total ls) (write_total ls)
disk_sums content ls e ok = rw e (
    sum_lines-all read_disk disk_line disk_sectors ls
      (All-map ls (λ l k. read_disk-disk_line l k) ok))

grown :
    (r t r' t' : ℕ)
    → r ≤ r'
    → t ≤ t'
    → r' < 18446744073709551616
    → t' < 18446744073709551616
    → growth (sums r t) (sums r' t') * 512 % 18446744073709551616
      ≡ ((r' - r) + (t' - t)) * 512 % 18446744073709551616
unfolding growth
grown r t r' t' rle tle rs ts = omega arith

-- Of two successive calls of `get_disk_usage`, where `popen` and `pclose` succeed and every line that
-- the pipeline prints has the kernel's format for a disk (a name without white space, numbers below
-- 2^64, no digit behind the last one read), the second call returns the sectors read and written
-- between the two, summed over the lines, times 512 modulo 2^64, divided by 1024 * 1024. Neither
-- sum fell, and the later ones are below 2^64.
pub get_disk_usage-growth :
    (D : Double) (content later : Bytes) (prev : Traffic) (ls ms : List DiskLine)
    → read_lines 512 content ≡ map disk_line ls
    → read_lines 512 later ≡ map disk_line ms
    → All IsDiskLine ls
    → All IsDiskLine ms
    → read_total ls ≤ read_total ms
    → write_total ls ≤ write_total ms
    → read_total ms < 18446744073709551616
    → write_total ms < 18446744073709551616
    → let first = get_disk_usage D (some content) true prev in
      (get_disk_usage D (some later) true first.1).0
      ≡ D.div
          (D.of_ℕ (
            ((read_total ms - read_total ls) + (write_total ms - write_total ls))
            * 512
            % 18446744073709551616))
          (mega D)
unfolding get_disk_usage
get_disk_usage-growth D content later prev ls ms e f okl okm rle wle rs ws =
    let value =
      grown (read_total ls) (write_total ls) (read_total ms) (write_total ms) rle wle rs ws in
    rw (disk_sums content ls e okl, disk_sums later ms f okm)
      (ap (λ n. D.div (D.of_ℕ n) (mega D)) value)
