-- ===== src/Alloc/Faults/Beside.antt =====
-- A used block of the list, before and after `my_malloc` of lib/memory/src/memory.c takes another one.
use metrics_monitor.Base.{◌≡◌, sym, ap, ◌∙◌, true, false, List, [], ◌∷◌, ◌++◌}
use mathlib.Core.List.{append_assoc, head-eq_of_cons-eq, tail-eq_of_cons-eq}
use metrics_monitor.Alloc.Layout.{Cell}

-- The block `c` stands in the list `cs` with at least one block behind it.
pub record Before (c : Cell) (cs : List Cell) : Type 0 where
  pub front : List Cell
  pub follower : Cell
  pub back : List Cell
  pub splits : cs ≡ front ++ (c ∷ follower ∷ back)

-- When a free block `e` is replaced by a list of blocks, a used block in front of others stays.
pub Before-replaced :
    (xs rs us vs zs : List Cell) (c r e z : Cell)
    → c.is_free ≡ false
    → e.is_free ≡ true
    → xs ++ (c ∷ r ∷ rs) ≡ us ++ (e ∷ vs)
    → Before c (us ++ ((z ∷ zs) ++ vs))
Before-replaced [] rs [] vs zs c r e z used free eq =
    absurd (apart (sym used ∙ ap (λ (d : Cell). d.is_free) (head-eq_of_cons-eq eq) ∙ free))
  where
    apart : ¬ (false ≡ true)
    apart q = cc
Before-replaced [] rs (u ∷ us) vs zs c r e z used free eq = behind us
  where
    same : c ≡ u
    same = head-eq_of_cons-eq eq

    behind : (us' : List Cell) → Before c (u ∷ (us' ++ ((z ∷ zs) ++ vs)))
    behind [] = record {
      front = [];
      follower = z;
      back = zs ++ vs;
      splits = ap (λ d. d ∷ z ∷ (zs ++ vs)) (sym same);
    }
    behind (t ∷ us') = record {
      front = [];
      follower = t;
      back = us' ++ ((z ∷ zs) ++ vs);
      splits = ap (λ d. d ∷ t ∷ (us' ++ ((z ∷ zs) ++ vs))) (sym same);
    }
Before-replaced (x ∷ xs) rs [] vs zs c r e z used free eq = record {
  front = (z ∷ zs) ++ xs;
  follower = r;
  back = rs;
  splits =
      ap (λ (t : List Cell). (z ∷ zs) ++ t) (sym (tail-eq_of_cons-eq eq))
      ∙ sym (append_assoc (z ∷ zs) xs (c ∷ r ∷ rs));
}
Before-replaced (x ∷ xs) rs (u ∷ us) vs zs c r e z used free eq =
    let rest = Before-replaced xs rs us vs zs c r e z used free (tail-eq_of_cons-eq eq) in
    record {
      front = u ∷ rest.front;
      follower = rest.follower;
      back = rest.back;
      splits = ap (λ (t : List Cell). u ∷ t) rest.splits;
    }
