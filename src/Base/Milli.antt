-- ===== src/Base/Milli.antt =====
-- A concrete `Real` for the examples: whole thousandths, with `none` for NaN.
use dyx_3wd.Base.{
  ℕ, zero, suc, ◌+◌, ◌*◌, ◌/◌, Bool, true, false, not, Option, none, some, arith, leb,
  if◌then◌else◌,
}
use dyx_3wd.Base.Int.{ℤ, pos, negsuc, ◌+ℤ◌, ◌-ℤ◌, neg_ℤ, ltb_ℤ, leb_ℤ, eqb_ℤ}
use dyx_3wd.Base.Real.{Real, IsOrdered}

abbrev pub Milli : Type 0
Milli = Option ℤ

-- The sign and the size of a number.
abbrev signed : (ℕ → ℕ → ℕ) → ℤ → ℤ → ℤ
signed f (pos a) (pos b) = pos (f a b)
signed f (pos a) (negsuc b) = neg_ℤ (pos (f a (suc b)))
signed f (negsuc a) (pos b) = neg_ℤ (pos (f (suc a) b))
signed f (negsuc a) (negsuc b) = pos (f (suc a) (suc b))

abbrev on_numbers : (ℤ → ℤ → ℤ) → Milli → Milli → Milli
on_numbers f (some a) (some b) = some (f a b)
on_numbers f _ _ = none

abbrev tests : (ℤ → ℤ → Bool) → Milli → Milli → Bool
tests f (some a) (some b) = f a b
tests f _ _ = false

abbrev product : Milli → Milli → Milli
product = on_numbers (signed λ a b. a * b / 1000)

abbrev power : Milli → ℕ → Milli
power a zero = some (pos 1000)
power a (suc n) = product a (power a n)

abbrev whole : Milli → ℕ
whole (some (pos n)) = n / 1000
whole _ = 0

abbrev size : Milli → Milli
size (some (negsuc n)) = some (pos (suc n))
size a = a

-- The largest root up to `k` of a square that is at most `n`.
abbrev root : ℕ → ℕ → ℕ
root zero n = 0
root (suc k) n = let below = root k n in if leb (suc k * suc k) n then suc k else below

abbrev magnitude : ℤ → ℕ
magnitude (pos n) = n
magnitude (negsuc n) = suc n

abbrev distance : ℤ → ℤ → ℤ
distance a b = let m = magnitude a in let n = magnitude b in pos (root (m + n) (m * m + n * n))

abbrev opposite : Milli → Milli
opposite (some a) = some (neg_ℤ a)
opposite none = none

abbrev round_down : Milli → Milli
round_down (some (pos n)) = some (pos (n / 1000 * 1000))
round_down (some (negsuc n)) = some (neg_ℤ (pos (n / 1000 * 1000 + 1000)))
round_down none = none

abbrev is_number : Milli → Bool
is_number (some _) = true
is_number none = false

instance abbrev pub milli_real : Real Milli
milli_real = record {
  lit = λ n d. some (pos (n * 1000 / d));
  nan = none;
  add = on_numbers ◌+ℤ◌;
  sub = on_numbers ◌-ℤ◌;
  mul = product;
  div = on_numbers (signed λ a b. a * 1000 / b);
  pow = λ a b. power a (whole b);
  neg = opposite;
  abs = size;
  hypot = on_numbers distance;
  floor = round_down;
  lt = tests ltb_ℤ;
  le = tests leb_ℤ;
  eq = tests eqb_ℤ;
  finite = is_number;
  is_nan = λ a. not (is_number a);
}

pub Milli-IsOrdered : IsOrdered Milli
Milli-IsOrdered = ground arith

-- A number of thousandths.
abbrev pub milli : ℕ → Milli
milli n = some (pos n)
