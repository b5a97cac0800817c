-- ===== src/Alloc/Layout.antt =====
-- The abstract view of the block list: what a reader of the memory sees of each block, and the
-- operations of lib/memory/src/memory.c on that view.
pub mod Split
pub mod Extend
pub mod Take
pub mod Fuse
pub mod Mark
pub mod Links
pub mod Step
use metrics_monitor.Base.{
  ℕ, ◌+◌, ◌-◌, ◌*◌, ◌/◌, ◌%◌, ◌≤◌, ◌<◌, ◌≡◌, ◌≢◌, refl, sym, ◌∙◌, ◌⊎◌, Bool, true, false, not, List,
  [], ◌∷◌, ◌++◌, map, arith, ◌==◌, leb, if◌then◌else◌, All,
}
use metrics_monitor.Memory.{Mem, null}
use metrics_monitor.Pairwise.{Pairwise}
use metrics_monitor.Alloc.Block.{size, next, is_free}
use metrics_monitor.Alloc.Chain.{IsChain}

pub record Cell : Type 0 where
  pub addr : ℕ
  pub size : ℕ
  pub is_free : Bool

abbrev pub cell : ℕ → ℕ → Bool → Cell
cell a n f = record { addr = a; size = n; is_free = f }

-- From `p` the memory holds exactly the blocks `cs`, in order, and then NULL.
abbrev pub Shows : Mem → ℕ → List Cell → Type 0
Shows m p [] = p ≡ null
Shows m p (c ∷ cs) =
    (p ≡ c.addr)
    × (c.addr ≢ null)
    × (size m c.addr ≡ c.size)
    × (is_free m c.addr ≡ c.is_free)
    × Shows m (next m c.addr) cs

-- The headers of two blocks share no byte.
abbrev pub Apart : ℕ → ℕ → Type 0
Apart a b = (a + 40 ≤ b) ⊎ (b + 40 ≤ a)

abbrev pub HeadersApart : Cell → Cell → Type 0
HeadersApart c d = Apart c.addr d.addr

-- Two blocks share no byte, neither of the headers nor of the data.
abbrev pub BlocksApart : Cell → Cell → Type 0
BlocksApart c d = (c.addr + 40 + c.size ≤ d.addr) ⊎ (d.addr + 40 + d.size ≤ c.addr)

-- The three words of a header that the view reads are the same in both memories.
abbrev pub SameHeader : Mem → Mem → ℕ → Type 0
SameHeader m m' a = (m' a ≡ m a) × (m' (a + 8) ≡ m (a + 8)) × (m' (a + 24) ≡ m (a + 24))

pub Shows-frame :
    (m m' : Mem) (p : ℕ) (cs : List Cell)
    → All (λ (c : Cell). SameHeader m m' c.addr) cs
    → Shows m p cs
    → Shows m' p cs
Shows-frame m m' p [] a s = s
Shows-frame m m' p (c ∷ cs) ((e0, e8, e24), a) (h0, h1, h2, h3, h4) =
    (h0, h1, rw e0 h2, rw e24 h3, rw e8 (Shows-frame m m' (next m c.addr) cs a h4))

-- A change of the list from one block on: the blocks before it are framed.
pub Shows-suffix :
    (m m' : Mem) (p : ℕ) (xs ys zs : List Cell)
    → All (λ (c : Cell). SameHeader m m' c.addr) xs
    → ((q : ℕ) → Shows m q ys → Shows m' q zs)
    → Shows m p (xs ++ ys)
    → Shows m' p (xs ++ zs)
Shows-suffix m m' p [] ys zs a f s = f p s
Shows-suffix m m' p (c ∷ cs) ys zs ((e0, e8, e24), a) f (h0, h1, h2, h3, h4) =
    (h0, h1, rw e0 h2, rw e24 h3, rw e8 (Shows-suffix m m' (next m c.addr) cs ys zs a f h4))

pub Shows-IsChain :
    (m : Mem) (p : ℕ) (cs : List Cell) → Shows m p cs → IsChain m p (map (λ (c : Cell). c.addr) cs)
Shows-IsChain m p [] s = s
Shows-IsChain m p (c ∷ cs) (h0, h1, h2, h3, h4) = (h0, h1, Shows-IsChain m (next m c.addr) cs h4)

pub BlocksApart-sym : (c d : Cell) → BlocksApart c d → BlocksApart d c
BlocksApart-sym c d h = ground arith

pub HeadersApart-sym : (c d : Cell) → HeadersApart c d → HeadersApart d c
HeadersApart-sym c d h = ground arith

pub BlocksApart-HeadersApart : (c d : Cell) → BlocksApart c d → HeadersApart c d
BlocksApart-HeadersApart c d h = ground arith

-- What the memory holds of a block of the list.
pub record Seen (m : Mem) (c : Cell) : Type 0 where
  pub ne_null : c.addr ≢ null
  pub size_eq : size m c.addr ≡ c.size
  pub free_eq : is_free m c.addr ≡ c.is_free

pub Shows-Seen :
    (m : Mem) (p : ℕ) (xs ys : List Cell) (c : Cell) → Shows m p (xs ++ (c ∷ ys)) → Seen m c
Shows-Seen m p [] ys c (h0, h1, h2, h3, h4) = record { ne_null = h1; size_eq = h2; free_eq = h3 }
Shows-Seen m p (x ∷ xs) ys c (h0, h1, h2, h3, h4) = Shows-Seen m (next m x.addr) xs ys c h4

-- The address from which the rest of the list is read.
pub Shows-split :
    (m m' : Mem) (p : ℕ) (xs ys zs : List Cell) (c c' : Cell)
    → c'.addr ≡ c.addr
    → Seen m' c'
    → ((q : ℕ) → q ≡ next m c.addr → Shows m q ys → Shows m' (next m' c.addr) zs)
    → All (λ (x : Cell). SameHeader m m' x.addr) xs
    → Shows m p (xs ++ (c ∷ ys))
    → Shows m' p (xs ++ (c' ∷ zs))
Shows-split m m' p xs ys zs c c' e seen f a = Shows-suffix m m' p xs (c ∷ ys) (c' ∷ zs) a λ q s.
    (s.0 ∙ sym e, seen.ne_null, seen.size_eq, seen.free_eq, rw e (f (next m c.addr) refl s.4))

pub Shows-tail :
    (m : Mem) (p : ℕ) (xs ys : List Cell) (c : Cell)
    → Shows m p (xs ++ (c ∷ ys))
    → Shows m (next m c.addr) ys
Shows-tail m p [] ys c s = s.4
Shows-tail m p (x ∷ xs) ys c s = Shows-tail m (next m x.addr) xs ys c s.4
