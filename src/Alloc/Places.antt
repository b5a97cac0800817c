-- ===== src/Alloc/Places.antt =====
-- From the addresses of the block list, on which the loops of `find_block` are specified, to its
-- blocks.
use mathlib.Core.List.{append-nil}
use metrics_monitor.Base.{
  ℕ, suc, length, ◌≡◌, refl, ap, inl, inr, List, [], ◌∷◌, ◌++◌, map, arith, All,
}
use metrics_monitor.Memory.{Mem}
use metrics_monitor.Alloc.Block.{next}
use metrics_monitor.Alloc.Chain.{In, last_of}
use metrics_monitor.Alloc.Layout.{Cell, Shows, Seen}

abbrev pub addr_of : Cell → ℕ
addr_of c = c.addr

module _ (m : Mem) (P : ℕ → Type 0) (Q : Cell → Type 0) where
  -- A property of the addresses of some first blocks is one of these blocks.
  pub All-front :
      (p : ℕ) (xs ys : List Cell)
      → Shows m p (xs ++ ys)
      → ((c : Cell) → Seen m c → P c.addr → Q c)
      → All P (map addr_of xs)
      → All Q xs
  All-front p [] ys sh f a = tt
  All-front p (c ∷ cs) ys sh f a = (
    f c (record { ne_null = sh.1; size_eq = sh.2; free_eq = sh.3 }) a.0,
    All-front (next m c.addr) cs ys sh.4 f a.1,
  )

  pub All-cells :
      (p : ℕ) (cs : List Cell)
      → Shows m p cs
      → ((c : Cell) → Seen m c → P c.addr → Q c)
      → All P (map addr_of cs)
      → All Q cs
  All-cells p cs sh = All-front p cs [] (rw append-nil sh)

  pub All-addrs :
      (p : ℕ) (cs : List Cell)
      → Shows m p cs
      → ((c : Cell) → Seen m c → Q c → P c.addr)
      → All Q cs
      → All P (map addr_of cs)
  All-addrs p [] sh f a = tt
  All-addrs p (c ∷ cs) sh f a = (
    f c (record { ne_null = sh.1; size_eq = sh.2; free_eq = sh.3 }) a.0,
    All-addrs (next m c.addr) cs sh.4 f a.1,
  )

pub length-addrs : (cs : List Cell) → length (map addr_of cs) ≡ length cs
length-addrs [] = refl
length-addrs (c ∷ cs) = ap suc (length-addrs cs)

-- The block that stands at a place of the list of addresses.
pub record Place (m : Mem) (cs : List Cell) (xs : List ℕ) (r : ℕ) : Type 0 where
  pub front : List Cell
  pub cell : Cell
  pub back : List Cell
  pub splits : cs ≡ front ++ (cell ∷ back)
  pub address : r ≡ cell.addr
  pub before : xs ≡ map addr_of front
  pub seen : Seen m cell

Place-cons :
    (m : Mem) (c : Cell) (cs : List Cell) (xs : List ℕ) (r : ℕ)
    → Place m cs xs r
    → Place m (c ∷ cs) (c.addr ∷ xs) r
Place-cons m c cs xs r p = record {
  front = c ∷ p.front;
  cell = p.cell;
  back = p.back;
  splits = ap (λ t. c ∷ t) p.splits;
  address = p.address;
  before = ap (λ t. c.addr ∷ t) p.before;
  seen = p.seen;
}

pub Place-of_append :
    (m : Mem) (p : ℕ) (cs : List Cell) (xs ys : List ℕ) (r : ℕ)
    → Shows m p cs
    → map addr_of cs ≡ xs ++ (r ∷ ys)
    → Place m cs xs r
Place-of_append m p [] [] ys r sh e = cc
Place-of_append m p [] (x ∷ xs) ys r sh e = cc
Place-of_append m p (c ∷ cs) [] ys r sh e = record {
  front = [];
  cell = c;
  back = cs;
  splits = refl;
  address = ground arith;
  before = refl;
  seen = record { ne_null = sh.1; size_eq = sh.2; free_eq = sh.3 };
}
Place-of_append m p (c ∷ cs) (x ∷ xs) ys r sh e =
    let hx : c.addr ≡ x = ground arith in
    rw (← hx)
      (Place-cons m c cs xs r (Place-of_append m (next m c.addr) cs xs ys r sh.4 (ground arith)))

pub Place-of_In :
    (m : Mem) (p r : ℕ) (cs : List Cell)
    → Shows m p cs
    → In r (map addr_of cs)
    → (xs : List ℕ) × Place m cs xs r
Place-of_In m p r [] sh i = absurd i
Place-of_In m p r (c ∷ cs) sh (inl e) = (
  [],
  record {
    front = [];
    cell = c;
    back = cs;
    splits = refl;
    address = e;
    before = refl;
    seen = record { ne_null = sh.1; size_eq = sh.2; free_eq = sh.3 };
  },
)
Place-of_In m p r (c ∷ cs) sh (inr i) =
    let rest = Place-of_In m (next m c.addr) r cs sh.4 i in
    (c.addr ∷ rest.0, Place-cons m c cs rest.0 r rest.1)

-- Where a list with a block ends.
pub record Snoc (c : Cell) (cs : List Cell) : Type 0 where
  pub front : List Cell
  pub final : Cell
  pub splits : c ∷ cs ≡ front ++ (final ∷ [])
  pub ends : (d : ℕ) → last_of d (map addr_of (c ∷ cs)) ≡ final.addr

pub Snoc-of : (c : Cell) (cs : List Cell) → Snoc c cs
Snoc-of c [] = record { front = []; final = c; splits = refl; ends = λ d. refl }
Snoc-of c (d ∷ cs) =
    let rest = Snoc-of d cs in
    record {
      front = c ∷ rest.front;
      final = rest.final;
      splits = ap (λ t. c ∷ t) rest.splits;
      ends = λ k. rest.ends c.addr;
    }
