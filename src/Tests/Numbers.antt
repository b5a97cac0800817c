-- ===== src/Tests/Numbers.antt =====
-- A model of `double`: exact fractions with a sign.
use metrics_monitor.Base.{ℕ, ◌+◌, ◌-◌, ◌*◌, Bool, true, false, not, ◌||◌, ◌==◌, leb, if◌then◌else◌}
use metrics_monitor.Double.{Double}

pub record Fraction : Type 0 where
  pub below : Bool
  pub top : ℕ
  pub bottom : ℕ

abbrev pub frac : Bool → ℕ → ℕ → Fraction
frac s a b = record { below = s; top = a; bottom = b }

abbrev pub same : Bool → Bool → Bool
same true b = b
same false b = not b

abbrev pub plus : Fraction → Fraction → Fraction
plus x y =
    let a : ℕ = x.top * y.bottom in
    let b : ℕ = y.top * x.bottom in
    let c : ℕ = x.bottom * y.bottom in
    if same x.below y.below
    then frac x.below (a + b) c
    else if leb b a
    then frac x.below (a - b) c
    else frac y.below (b - a) c

abbrev pub times : Fraction → Fraction → Fraction
times x y = frac (not (same x.below y.below)) (x.top * y.top) (x.bottom * y.bottom)

abbrev pub fractions : Double
fractions = record {
  Carrier = Fraction;
  of_ℕ = λ n. frac false n 1;
  of_neg = λ n. frac true n 1;
  add = plus;
  sub = λ x y. plus x (frac (not y.below) y.top y.bottom);
  mul = times;
  div = λ x y. times x (frac y.below y.bottom y.top);
  is_nonneg = λ x. not x.below || x.top == 0;
}
