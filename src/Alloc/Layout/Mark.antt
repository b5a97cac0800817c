-- ===== src/Alloc/Layout/Mark.antt =====
-- A write of the field `free`, seen on the block list.
use metrics_monitor.Base.{ℕ, ◌+◌, ◌≤◌, ◌<◌, ◌≡◌, ◌⊎◌, refl, ◌∙◌, not, List, ◌∷◌, ◌++◌, arith, ◌==◌}
use metrics_monitor.Memory.{Mem, store}
use metrics_monitor.Pairwise.{Pairwise, around, All-map}
use metrics_monitor.Alloc.Block.{next, prev, set_free, is_free}
use metrics_monitor.Alloc.Layout.{
  Cell, Shows, Seen, HeadersApart, HeadersApart-sym, Apart, SameHeader, Shows-split, Shows-frame,
  Shows-Seen,
}

-- The view of a block whose field `free` is `v`.
abbrev pub marked : ℕ → Cell → Cell
marked v c = record c { is_free = not (v == 0) }

module _ (m : Mem) (b v : ℕ) where
  set_free_other : (x : ℕ) → Apart b x → SameHeader m (set_free m b v) x
  unfolding store
  set_free_other x h = ground arith

  pub set_free-is_free : v < 4294967296 → is_free (set_free m b v) b ≡ not (v == 0)
  unfolding store
  set_free-is_free h = ground arith

  pub set_free-size : set_free m b v b ≡ m b
  unfolding store
  set_free-size = ground arith

  pub set_free-next : next (set_free m b v) b ≡ next m b
  unfolding store
  set_free-next = ground arith

pub set_free-prev : (m : Mem) (b v : ℕ) → prev (set_free m b v) b ≡ prev m b
unfolding store
set_free-prev m b v = ground arith

pub set_free-frame : (m : Mem) (b v y : ℕ) → (y < b) ⊎ (b + 32 ≤ y) → set_free m b v y ≡ m y
unfolding store
set_free-frame m b v y k = ground arith

-- The block `c` gets the new mark and nothing else of the list changes.
pub set_free-Shows :
    (m : Mem) (p v : ℕ) (xs ys : List Cell) (c : Cell)
    → v < 4294967296
    → Pairwise HeadersApart (xs ++ (c ∷ ys))
    → Shows m p (xs ++ (c ∷ ys))
    → Shows (set_free m c.addr v) p (xs ++ (marked v c ∷ ys))
set_free-Shows m p v xs ys c hv apart s =
    let near = around HeadersApart HeadersApart-sym xs ys c apart in
    let m' : Mem = set_free m c.addr v in
    let seen : Seen m c = Shows-Seen m p xs ys c s in
    let frame = λ (d : Cell) (h : HeadersApart c d). set_free_other m c.addr v d.addr h in
    Shows-split m m' p xs ys ys c (marked v c) refl
      (record {
        ne_null = seen.ne_null;
        size_eq = set_free-size m c.addr v ∙ seen.size_eq;
        free_eq = set_free-is_free m c.addr v hv;
      })
      (λ q e r.
        rw (set_free-next m c.addr v, ← e) (Shows-frame m m' q ys (All-map ys frame near.1) r))
      (All-map xs frame near.0) s
