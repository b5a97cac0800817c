-- ===== src/Tests/System.antt =====
-- A system that meets the assumptions on `mmap`: it hands out the pages behind the last region,
-- one page apart, filled with zeros.
use metrics_monitor.Base.{
  ℕ, ◌+◌, ◌%◌, ◌≤◌, ◌<◌, ◌≡◌, inr, true, ◌&&◌, Option, none, some, List, [], ◌∷◌, arith, ltb, leb,
  if◌then◌else◌, All, Bool-cases, inl,
}
use mathlib.Core.Path.{subst}
use metrics_monitor.Memory.{Mem}
use metrics_monitor.Alloc.State.{Os, IsMmap, MmapGives, Mapping, Disjoint, round_page}

-- A bound of all the regions.
unfoldable pub top : List Mapping → ℕ
top [] = 0
top (r ∷ rs) =
    let t = top rs in if ltb t (r.start + round_page r.len) then r.start + round_page r.len else t

abbrev fill : ℕ → ℕ → Mem → Mem
fill b n m x = if leb b x && ltb x (b + n) then 0 else m x

abbrev gap : List Mapping → ℕ
gap maps = round_page (top maps) + 4096

unfoldable pub hand_out : List Mapping → ℕ → Mem → Option (ℕ × Mem)
hand_out maps s m =
    if ltb 0 s && leb (gap maps + round_page s + 4096) 18446744073709551616
    then some (gap maps, fill (gap maps) (round_page s) m)
    else none

abbrev pub demo : Os
demo = record { mmap = hand_out; fopen_log = true }

top-above :
    (b n t : ℕ) (maps : List Mapping)
    → top maps ≤ t
    → t ≤ b
    → All (λ (r : Mapping). Disjoint b n r.start (round_page r.len)) maps
unfolding top
top-above b n t [] h k = tt
top-above b n t (r ∷ rs) h k = (inr (ground arith), top-above b n t rs (ground arith) k)

round_page_facts : (n : ℕ) → (n ≤ round_page n) × (round_page n % 4096 ≡ 0)
round_page_facts n = omega arith

demo_gives :
    (maps : List Mapping) (s : ℕ) (m : Mem)
    → 0 < s
    → gap maps + round_page s + 4096 ≤ 18446744073709551616
    → MmapGives maps s m (gap maps) (fill (gap maps) (round_page s) m)
demo_gives maps s m pos h = record {
  ne_null = λ e. omega arith;
  at_page = omega (arith, (round_page_facts (top maps)).1);
  in_space = h;
  fresh =
      top-above (gap maps) (round_page s) (top maps) maps (omega arith)
        (omega (arith, (round_page_facts (top maps)).0));
  some_len = pos;
  kept = λ x o. outside (gap maps) (round_page s) x o;
}
  where
    outside : (b n x : ℕ) → Disjoint x 1 b n → fill b n m x ≡ m x
    outside b n x o = ground arith

pub demo-IsMmap : IsMmap demo
unfolding hand_out
demo-IsMmap maps s m b m' e =
    elim (Bool-cases (ltb 0 s && leb (gap maps + round_page s + 4096) 18446744073709551616)) [
      | inl go ↦
          let hb : gap maps ≡ b = ground arith in
          let hm : fill (gap maps) (round_page s) m ≡ m' = ground arith in
          subst (λ k. MmapGives maps s m k m') hb
            (subst (λ f. MmapGives maps s m (gap maps) f) hm
              (demo_gives maps s m (ground arith) (ground arith)))
      | inr stop ↦ absurd (cc (rw stop at e))
    ]
