-- ===== src/Pairwise.antt =====
-- A relation between every two entries of a list, taken apart at one entry.
use metrics_monitor.Base.{List, [], ◌∷◌, ◌++◌, All}

abbrev pub Pairwise {ℓ κ} : {A : Type ℓ} → (A → A → Type κ) → List A → Type κ
Pairwise R [] = Unit
Pairwise R (x ∷ xs) = All (R x) xs × Pairwise R xs

module _ {ℓ κ} {A : Type ℓ} (P : A → Type κ) where
  pub All-append : (xs ys : List A) → All P xs → All P ys → All P (xs ++ ys)
  All-append [] ys a b = b
  All-append (x ∷ xs) ys a b = (a.0, All-append xs ys a.1 b)

  pub All-left : (xs ys : List A) → All P (xs ++ ys) → All P xs
  All-left [] ys a = tt
  All-left (x ∷ xs) ys a = (a.0, All-left xs ys a.1)

  pub All-right : (xs ys : List A) → All P (xs ++ ys) → All P ys
  All-right [] ys a = a
  All-right (x ∷ xs) ys a = All-right xs ys a.1

module _ {ℓ κ μ} {A : Type ℓ} {P : A → Type κ} {Q : A → Type μ} where
  pub All-map : (xs : List A) → ((x : A) → P x → Q x) → All P xs → All Q xs
  All-map [] f a = tt
  All-map (x ∷ xs) f a = (f x a.0, All-map xs f a.1)

module _ {ℓ κ μ ν} {A : Type ℓ} {P : A → Type κ} {Q : A → Type μ} {S : A → Type ν} where
  pub All-both : (xs : List A) → ((x : A) → P x → Q x → S x) → All P xs → All Q xs → All S xs
  All-both [] f a b = tt
  All-both (x ∷ xs) f a b = (f x a.0 b.0, All-both xs f a.1 b.1)

module _ {ℓ κ} {A : Type ℓ} (R : A → A → Type κ) (sym_R : (x y : A) → R x y → R y x) where
  -- The entry `c` is related to all before it and all behind it.
  pub around : (xs ys : List A) (c : A) → Pairwise R (xs ++ (c ∷ ys)) → All (R c) xs × All (R c) ys
  around [] ys c p = (tt, p.0)
  around (x ∷ xs) ys c p =
      let rest = around xs ys c p.1 in ((sym_R x c (All-right _ xs (c ∷ ys) p.0).0, rest.0), rest.1)

  -- Any list of entries may stand in the place of `c` if they are related to one another and to
  -- all that `c` was related to.
  pub replace :
      (xs ys zs : List A) (c : A)
      → ((d : A) → R c d → All (R d) zs)
      → Pairwise R zs
      → Pairwise R (xs ++ (c ∷ ys))
      → Pairwise R (xs ++ (zs ++ ys))
  replace [] ys zs c f pz p = behind zs pz p.0 p.1
    where
      into : (z : A) (ys : List A) → ((d : A) → R c d → R z d) → All (R c) ys → All (R z) ys
      into z [] g a = tt
      into z (y ∷ ys) g a = (g y a.0, into z ys g a.1)

      pick :
          (z : A) (zs' : List A) → ((d : A) → R c d → All (R d) (z ∷ zs')) → (d : A) → R c d → R z d
      pick z zs' g d r = sym_R d z (g d r).0

      behind' :
          (zs' : List A)
          → ((d : A) → R c d → All (R d) zs')
          → Pairwise R zs'
          → All (R c) ys
          → Pairwise R ys
          → Pairwise R (zs' ++ ys)
      behind' [] g q a p' = p'
      behind' (z ∷ zs') g q a p' = (
        All-append _ zs' ys q.0 (into z ys (pick z zs' g) a),
        behind' zs' (λ d r. (g d r).1) q.1 a p',
      )

      behind : (zs' : List A) → Pairwise R zs → All (R c) ys → Pairwise R ys → Pairwise R (zs ++ ys)
      behind zs' q a p' = behind' zs f q a p'
  replace (x ∷ xs) ys zs c f pz p = (
    All-append _ xs (zs ++ ys) (All-left _ xs (c ∷ ys) p.0) (
        All-append _ zs ys (f x (sym_R x c (All-right _ xs (c ∷ ys) p.0).0))
          (All-right _ xs (c ∷ ys) p.0).1),
    replace xs ys zs c f pz p.1,
  )

-- An entry replaced by another, and two neighbours by one.
module _ {ℓ κ} {A : Type ℓ} (P : A → Type κ) where
  pub All-replace :
      (xs ys : List A) (c w : A) → (P w → P c) → All P (xs ++ (w ∷ ys)) → All P (xs ++ (c ∷ ys))
  All-replace [] ys c w f a = (f a.0, a.1)
  All-replace (x ∷ xs) ys c w f a = (a.0, All-replace xs ys c w f a.1)

  pub All-merge :
      (xs ys : List A) (c d w : A)
      → (P c → P d → P w)
      → All P (xs ++ (c ∷ d ∷ ys))
      → All P (xs ++ (w ∷ ys))
  All-merge [] ys c d w f a = (f a.0 a.1.0, a.1.1)
  All-merge (x ∷ xs) ys c d w f a = (a.0, All-merge xs ys c d w f a.1)

module _ {ℓ κ} {A : Type ℓ} (R : A → A → Type κ) where
  pub Pairwise-replace :
      (xs ys : List A) (c w : A)
      → ((z : A) → R w z → R c z)
      → ((z : A) → R z w → R z c)
      → Pairwise R (xs ++ (w ∷ ys))
      → Pairwise R (xs ++ (c ∷ ys))
  Pairwise-replace [] ys c w f g p = (All-map ys f p.0, p.1)
  Pairwise-replace (x ∷ xs) ys c w f g p =
      (All-replace (R x) xs ys c w (g x) p.0, Pairwise-replace xs ys c w f g p.1)

  pub Pairwise-merge :
      (xs ys : List A) (c d w : A)
      → ((z : A) → R c z → R d z → R w z)
      → ((z : A) → R z c → R z d → R z w)
      → Pairwise R (xs ++ (c ∷ d ∷ ys))
      → Pairwise R (xs ++ (w ∷ ys))
  Pairwise-merge [] ys c d w f g p = (both ys p.0.1 p.1.0, p.1.1)
    where
      both : (zs : List A) → All (R c) zs → All (R d) zs → All (R w) zs
      both [] a b = tt
      both (z ∷ zs) a b = (f z a.0 b.0, both zs a.1 b.1)
  Pairwise-merge (x ∷ xs) ys c d w f g p =
      (All-merge (R x) xs ys c d w (g x) p.0, Pairwise-merge xs ys c d w f g p.1)
