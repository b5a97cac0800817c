-- ===== src/Sim/Indices.antt =====
-- The array `punteros` of src/sim_alloc.c: releasing an entry keeps the others.
use mathlib.Core.List.{Perm}
use mathlib.Core.List.Perm
use metrics_monitor.Base.{
  ℕ, zero, suc, ◌+◌, ◌-◌, ◌<◌, ◌≡◌, ◌⊎◌, inl, inr, refl, ap, List, [], ◌∷◌, ◌++◌, arith, length,
  length-append,
}
use metrics_monitor.Sim.{entry, set_entry, active, drop_entry}

entry-last : (qs : List ℕ) (l : ℕ) → entry (qs ++ (l ∷ [])) (length qs) ≡ l
unfolding entry
entry-last [] l = refl
entry-last (q ∷ qs) l = entry-last qs l

entry-left : (qs : List ℕ) (l i : ℕ) → i < length qs → entry (qs ++ (l ∷ [])) i ≡ entry qs i
unfolding entry
entry-left [] l i h = absurd (omega arith)
entry-left (q ∷ qs) l zero h = refl
entry-left (q ∷ qs) l (suc i) h = entry-left qs l i (omega arith)

active-all : (qs : List ℕ) (l : ℕ) → active (length qs) (qs ++ (l ∷ [])) ≡ qs
unfolding active
active-all [] l = refl
active-all (q ∷ qs) l = ap (λ r. q ∷ r) (active-all qs l)

-- Putting an entry at its place in front of the last one, which is cut off.
active-left :
    (qs : List ℕ) (l i : ℕ)
    → i < length qs
    → active (length qs) (set_entry (qs ++ (l ∷ [])) i l) ≡ set_entry qs i l
unfolding active set_entry
active-left [] l i h = absurd (omega arith)
active-left (q ∷ qs) l zero h = ap (λ r. l ∷ r) (active-all qs l)
active-left (q ∷ qs) l (suc i) h = ap (λ r. q ∷ r) (active-left qs l i (omega arith))

active-last :
    (qs : List ℕ) (l : ℕ) → active (length qs) (set_entry (qs ++ (l ∷ [])) (length qs) l) ≡ qs
unfolding active set_entry
active-last [] l = refl
active-last (q ∷ qs) l = ap (λ r. q ∷ r) (active-last qs l)

set_entry-Perm :
    (qs : List ℕ) (l i : ℕ) → i < length qs → Perm (l ∷ qs) (entry qs i ∷ set_entry qs i l)
unfolding entry set_entry
set_entry-Perm [] l i h = absurd (omega arith)
set_entry-Perm (q ∷ qs) l zero h = Perm.swap q l qs
set_entry-Perm (q ∷ qs) l (suc i) h = Perm.trans (Perm.swap q l qs) (
    Perm.trans (Perm.cons q (set_entry-Perm qs l i (omega arith)))
      (Perm.swap (entry qs i) q (set_entry qs i l)))

-- A list is empty, or its last entry stands behind the others.
last-cases : (ps : List ℕ) → (ps ≡ []) ⊎ ((qs : List ℕ) × (l : ℕ) × (ps ≡ qs ++ (l ∷ [])))
last-cases [] = inl refl
last-cases (p ∷ ps) = elim (last-cases ps) [
  | inl e ↦ inr ([], p, ap (λ r. p ∷ r) e)
  | inr (qs, l, e) ↦ inr (p ∷ qs, l, ap (λ r. p ∷ r) e)
]

snoc-Perm : (qs : List ℕ) (l : ℕ) → Perm (qs ++ (l ∷ [])) (l ∷ qs)
snoc-Perm [] l = Perm.refl (l ∷ [])
snoc-Perm (q ∷ qs) l = Perm.trans (Perm.cons q (snoc-Perm qs l)) (Perm.swap l q qs)

drop_entry-snoc :
    (qs : List ℕ) (l i : ℕ)
    → i < length (qs ++ (l ∷ []))
    → Perm (qs ++ (l ∷ [])) (entry (qs ++ (l ∷ [])) i ∷ drop_entry (qs ++ (l ∷ [])) i)
unfolding drop_entry
drop_entry-snoc qs l i h =
    let n : length (qs ++ (l ∷ [])) ≡ length qs + 1 = length-append qs (l ∷ []) in
    let m : length (qs ++ (l ∷ [])) - 1 ≡ length qs = omega arith in
    elim (place i (length qs) (omega arith)) [
      | inl left ↦
          rw (m, entry-last qs l, entry-left qs l i left, active-left qs l i left)
            (Perm.trans (snoc-Perm qs l) (set_entry-Perm qs l i left))
      | inr last ↦ rw (m, last, entry-last qs l, active-last qs l) (snoc-Perm qs l)
    ]
  where
    place : (i n : ℕ) → i < n + 1 → (i < n) ⊎ (i ≡ n)
    place i n h = omega arith

-- Releasing the entry `i` of the pointers in use, the last one moving to its place, loses and
-- doubles no other pointer, for `i` below their number.
pub drop_entry-Perm : (ps : List ℕ) (i : ℕ) → i < length ps → Perm ps (entry ps i ∷ drop_entry ps i)
drop_entry-Perm ps i h = elim (last-cases ps) [
  | inl e ↦ absurd (omega (arith, ap length e))
  | inr (qs, l, e) ↦ rw e (drop_entry-snoc qs l i (rw e at h))
]
