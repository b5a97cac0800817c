-- ===== src/Metrics/Traffic/Lines.antt =====
-- The lines of /proc/net/dev and /proc/diskstats that src/metrics.c reads, and the sums over them.
pub mod Sums
use metrics_monitor.Base.{
  ℕ, suc, false, ◌+◌, ◌%◌, ◌<◌, ◌≡◌, refl, ap, ◌∙◌, some, List, [], ◌∷◌, ◌++◌, map, arith, All,
}
use metrics_monitor.Stdio.{Bytes, Directive, space, word, format, directives, sscanf, text, num}
use metrics_monitor.Stdio.Decimal.{EndsNumber, pad, decimal}
use metrics_monitor.Stdio.Fields.{
  Column, Field, shown, shown_int, skipped, Small, print, Visible, sscanf-print, sscanf-first,
  sscanf-word, sscanf-space_word, conversions,
}
use metrics_monitor.Metrics.Traffic.{
  Traffic, net_values, read_net, net_format, disk_values, read_disk, diskstats_format,
}

-- A line of /proc/net/dev: the name with its colon behind `lead` spaces, the eight columns of what
-- was received, the bytes sent, and what follows.
pub record NetLine : Type 0 where
  pub lead : ℕ
  pub name : Bytes
  pub rx : Column
  pub packets : Column
  pub errs : Column
  pub drop : Column
  pub fifo : Column
  pub frame : Column
  pub compressed : Column
  pub multicast : Column
  pub tx : Column
  pub rest : Bytes

abbrev later_net : NetLine → List Field
later_net l =
    skipped l.packets
    ∷ skipped l.errs
    ∷ skipped l.drop
    ∷ skipped l.fifo
    ∷ skipped l.frame
    ∷ skipped l.compressed
    ∷ skipped l.multicast
    ∷ shown l.tx
    ∷ []

abbrev pub net_line : NetLine → Bytes
net_line l = pad l.lead ++ (l.name ++ print (shown l.rx ∷ later_net l) l.rest)

-- The name has no white space, the numbers are below 2^64, and no digit follows the last.
abbrev pub IsNetLine : NetLine → Type 0
IsNetLine l = Visible l.name × All Small (shown l.rx ∷ later_net l) × EndsNumber l.rest

abbrev pub net_bytes : NetLine → Traffic
net_bytes l = record { rx = l.rx.value; tx = l.tx.value }

pub read_net-net_line : (l : NetLine) → IsNetLine l → read_net (net_line l) ≡ some (net_bytes l)
unfolding read_net format directives net_values
read_net-net_line l ok = ap net_values (
    sscanf-word (conversions (shown l.rx ∷ later_net l) []) l.lead l.name (shown l.rx) (later_net l)
      l.rest ok.0
    ∙ ap (λ vs. text l.name ∷ vs) (sscanf-print (shown l.rx ∷ later_net l) [] l.rest ok.1 ok.2))

-- A line of /proc/diskstats: the device numbers, the name, and the columns up to the sectors
-- written.
pub record DiskLine : Type 0 where
  pub lead : ℕ
  pub major : ℕ
  pub minor : Column
  pub gap : ℕ
  pub name : Bytes
  pub reads : Column
  pub merged : Column
  pub read_sectors : Column
  pub read_ms : Column
  pub writes : Column
  pub write_merged : Column
  pub write_sectors : Column
  pub rest : Bytes

abbrev later_disk : DiskLine → List Field
later_disk l =
    skipped l.merged
    ∷ shown l.read_sectors
    ∷ skipped l.read_ms
    ∷ skipped l.writes
    ∷ skipped l.write_merged
    ∷ shown l.write_sectors
    ∷ []

-- What stands behind the second device number.
abbrev disk_end : DiskLine → Bytes
disk_end l = pad (suc l.gap) ++ (l.name ++ print (skipped l.reads ∷ later_disk l) l.rest)

abbrev pub disk_line : DiskLine → Bytes
disk_line l = pad l.lead ++ (decimal l.major ++ print (shown_int l.minor ∷ []) (disk_end l))

abbrev pub IsDiskLine : DiskLine → Type 0
IsDiskLine l =
    (l.major < 18446744073709551616)
    × (l.minor.value < 18446744073709551616)
    × Visible l.name
    × All Small (skipped l.reads ∷ later_disk l)
    × EndsNumber l.rest

abbrev pub disk_sectors : DiskLine → Traffic
disk_sectors l = record { rx = l.read_sectors.value; tx = l.write_sectors.value }

pub read_disk-disk_line :
    (l : DiskLine) → IsDiskLine l → read_disk (disk_line l) ≡ some (disk_sectors l)
unfolding read_disk format directives disk_values pad
read_disk-disk_line l ok =
    let columns : List Directive = conversions (skipped l.reads ∷ later_disk l) [] in
    let name : List Directive = space ∷ word ∷ columns in
    let numbers : List Directive = conversions (shown_int l.minor ∷ []) name in
    ap disk_values (
      sscanf-first false false numbers l.lead l.major (print (shown_int l.minor ∷ []) (disk_end l))
        ok.0 refl
      ∙ ap (λ vs. num (l.major % 4294967296) ∷ vs)
          (sscanf-print (shown_int l.minor ∷ []) name (disk_end l) (ok.1, tt) refl
            ∙ ap (λ vs. num (l.minor.value % 4294967296) ∷ vs)
                (sscanf-space_word columns (suc l.gap) l.name (skipped l.reads) (later_disk l)
                    l.rest ok.2
                  ∙ ap (λ vs. text l.name ∷ vs)
                      (sscanf-print (skipped l.reads ∷ later_disk l) [] l.rest ok.3 ok.4))))
