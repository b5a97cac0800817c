-- ===== src/Alloc/Layout/Links.antt =====
-- The fields `prev` and `ptr` of the blocks of the list, and the writes that leave them alone.
use metrics_monitor.Base.{ℕ, ◌+◌, ◌≡◌, ◌⊎◌, refl, ◌∙◌, inl, inr, List, [], ◌∷◌, ◌++◌, arith, All}
use metrics_monitor.Memory.{Mem, store}
use metrics_monitor.Pairwise.{Pairwise, around, All-map}
use metrics_monitor.Alloc.Block.{prev, ptr, data_of, set_free}
use metrics_monitor.Alloc.Layout.{Cell, Apart, HeadersApart, HeadersApart-sym}

-- Each block's field `ptr` is its data address, and `prev` the block before it, `q` for the first.
abbrev pub Links : Mem → ℕ → List Cell → Type 0
Links m q [] = Unit {0}
Links m q (c ∷ cs) = (ptr m c.addr ≡ data_of c.addr) × (prev m c.addr ≡ q) × Links m c.addr cs

abbrev pub SameLinks : Mem → Mem → ℕ → Type 0
SameLinks m m' a = (m' (a + 16) ≡ m (a + 16)) × (m' (a + 32) ≡ m (a + 32))

pub Links-frame :
    (m m' : Mem) (q : ℕ) (cs : List Cell)
    → All (λ (c : Cell). SameLinks m m' c.addr) cs
    → Links m q cs
    → Links m' q cs
Links-frame m m' q [] a l = tt
Links-frame m m' q (c ∷ cs) ((e16, e32), a) (p, v, l) =
    (e32 ∙ p, e16 ∙ v, Links-frame m m' c.addr cs a l)

-- A change of the list from one block on.
pub Links-suffix :
    (m m' : Mem) (q : ℕ) (xs ys zs : List Cell)
    → All (λ (c : Cell). SameLinks m m' c.addr) xs
    → ((p : ℕ) → Links m p ys → Links m' p zs)
    → Links m q (xs ++ ys)
    → Links m' q (xs ++ zs)
Links-suffix m m' q [] ys zs a f l = f q l
Links-suffix m m' q (c ∷ cs) ys zs ((e16, e32), a) f (p, v, l) =
    (e32 ∙ p, e16 ∙ v, Links-suffix m m' c.addr cs ys zs a f l)

pub Links-front : (m : Mem) (q : ℕ) (xs ys : List Cell) → Links m q (xs ++ ys) → Links m q xs
Links-front m q [] ys l = tt
Links-front m q (c ∷ cs) ys (p, v, l) = (p, v, Links-front m c.addr cs ys l)

set_free-SameLinks : (m : Mem) (b v x : ℕ) → (x ≡ b) ⊎ Apart b x → SameLinks m (set_free m b v) x
unfolding store
set_free-SameLinks m b v x h = ground arith

-- The mark of the block `c` changes.
pub set_free-Links :
    (m : Mem) (q v : ℕ) (xs ys : List Cell) (c d : Cell)
    → d.addr ≡ c.addr
    → Pairwise HeadersApart (xs ++ (c ∷ ys))
    → Links m q (xs ++ (c ∷ ys))
    → Links (set_free m c.addr v) q (xs ++ (d ∷ ys))
set_free-Links m q v xs ys c d at apart l =
    let near = around HeadersApart HeadersApart-sym xs ys c apart in
    let m' : Mem = set_free m c.addr v in
    let same = λ (x : Cell) (h : HeadersApart c x). set_free-SameLinks m c.addr v x.addr (inr h) in
    let here = set_free-SameLinks m c.addr v c.addr (inl refl) in
    Links-suffix m m' q xs (c ∷ ys) (d ∷ ys) (All-map xs same near.0)
      (λ p t.
        rw at (here.1 ∙ t.0, here.0 ∙ t.1, Links-frame m m' c.addr ys (All-map ys same near.1) t.2))
      l
