-- ===== src/Base/Real.antt =====
-- `double` and `float`: an abstract type with the operations that the code uses.
use dyx_3wd.Base.{ℕ, Bool, true, not, ◌≡◌, if◌then◌else◌}

pub record Real (R : Type 0) : Type 0 where
  -- The literal `n / d`, and NaN.
  pub lit : ℕ → ℕ → R
  pub nan : R
  pub add : R → R → R
  pub sub : R → R → R
  pub mul : R → R → R
  pub div : R → R → R
  pub pow : R → R → R
  pub neg : R → R
  pub abs : R → R
  -- `std::hypot`, the distance of a point from the origin.
  pub hypot : R → R → R
  pub floor : R → R
  -- `<`, `<=` and `==`, false when a side is NaN.
  pub lt : R → R → Bool
  pub le : R → R → Bool
  pub eq : R → R → Bool
  pub finite : R → Bool
  pub is_nan : R → Bool

module _ {R : Type 0} ⦃r : Real R⦄ where
  abbrev pub zero_real : R
  zero_real = r.lit 0 1

  -- `std::min` and `std::max` return their first argument unless the second is beyond it.
  abbrev pub min_real : R → R → R
  min_real a b = if r.lt b a then b else a

  abbrev pub max_real : R → R → R
  max_real a b = if r.lt a b then b else a

-- What IEEE 754 says of the comparisons of finite numbers.
pub record IsOrdered (R : Type 0) ⦃r : Real R⦄ : Type 0 where
  pub eq_refl : (x : R) → r.finite x ≡ true → r.eq x x ≡ true
  pub lt-eq-not-le : (x y : R) → r.finite x ≡ true → r.finite y ≡ true → r.lt x y ≡ not (r.le y x)
  pub le_refl : (x : R) → r.finite x ≡ true → r.le x x ≡ true
  pub le_trans : (x y z : R) → r.le x y ≡ true → r.le y z ≡ true → r.le x z ≡ true
  pub lt_le : (x y : R) → r.lt x y ≡ true → r.le x y ≡ true
  pub finite_zero : r.finite zero_real ≡ true
  pub finite_neg : (x : R) → r.finite x ≡ true → r.finite (r.neg x) ≡ true
  pub neg_nonpos : (x : R) → r.le zero_real x ≡ true → r.le (r.neg x) zero_real ≡ true
  pub sub_self : (x : R) → r.finite x ≡ true → r.sub x x ≡ zero_real
